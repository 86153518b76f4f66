-- ===== src/Teardown/Types.antt =====
-- The context of one removal: what the caller asks for, what the outside answers, and the state
-- that the phases change.
use lib_python_worktree.Prelude.{ℕ, String, Bool, Option, List, if◌then◌else◌}
use lib_python_worktree.Prelude.Results.{Result, ok, err}
use lib_python_worktree.Prelude.Dict.{Dict}
use lib_python_worktree.Contract.{WorktreeContract}

-- A directory: not there, there and empty, or there with content.
pub data Dir : Type 0 where
  absent hollow full : Dir

-- `StopHookOutcome.status`
pub data HookStatus : Type 0 where
  completed failed skipped : HookStatus

pub record StopHookOutcome : Type 0 where
  pub status : HookStatus
  pub steps_run : ℕ
  pub contract_found : Bool

-- The fields of a `WorktreeRecord` that a removal reads or writes.
pub record WorktreeRecord : Type 0 where
  pub id : String
  pub backing : String
  pub pids : Dict ℕ
  pub killed_pids : List ℕ
  pub stop_hook_outcome : Option StopHookOutcome
  pub teardown_ran : Bool

-- How `lifecycle.stop` ends: the record without the role is saved, a `ProcessLifecycleError`, or
-- another exception.
pub data StopEnd : Type 0 where
  saved swallowed raised : StopEnd

-- What `git status --porcelain -z` comes back with, split at the NULs.
pub data Probe : Type 0 where
  inconclusive : Probe
  entries : List String → Probe

-- A call to the outside that a phase makes.
pub data Call : Type 0 where
  stop_role : String → Call
  run_stop_steps run_teardown_steps git_status git_prune kill_tree scan_blockers kill_blockers :
      Call

-- What the caller asks for, and what `build_context` finds.
pub record Request : Type 0 where
  pub force : Bool
  pub kill_blocking_processes : Bool
  pub target_absent : Bool
  pub contract : Option WorktreeContract
  pub contract_found : Bool
  pub owned_pids : List ℕ

-- The answers of the outside, by the time on the clock: `os.rename` out to `<path>.removing` and
-- back, what each rung of the delete ladder leaves of a tree, `git status`, the steps that the
-- runner executes (`none` and `false` are exceptions), the write of the state file, the verdict of
-- `_pid_status` on a pid behind `_bounded_call` (`none`: not completed), and the kills and scans.
pub record Outside : Type 0 where
  pub windows : Bool
  pub path_is_repo_root : Bool
  pub delay : ℕ → ℕ
  pub renames_out : ℕ → Bool
  pub renames_back : ℕ → Bool
  pub leaves : ℕ → ℕ → Dir → Dir
  pub status : ℕ → Probe
  pub shares_records : Bool
  pub stop_ends : ℕ → StopEnd
  pub after_stop : String → WorktreeRecord → WorktreeRecord
  pub stop_steps : ℕ → Option ℕ
  pub teardown_steps : ℕ → Bool
  pub writes_state : ℕ → Bool
  pub pid_verdict : ℕ → ℕ → Option (Option Bool)
  pub kills_tree : ℕ → Bool
  pub blocking : ℕ → List ℕ
  pub kills_blocking : ℕ → Option (List ℕ)

-- What the phases change: the checkout and the staged copy beside it, the record, its copy in the
-- store (`none`: not tracked), ports.yaml, the clock, the mutable fields of the context, and the
-- calls made, the latest first.
pub record World : Type 0 where
  pub checkout : Dir
  pub staged : Dir
  pub rec : WorktreeRecord
  pub stored : Option WorktreeRecord
  pub ports : Dict ℕ
  pub now : ℕ
  pub kill_attempted : Bool
  pub failure_deadline : Option ℕ
  pub blockers : List ℕ
  pub status_cache : Option (Option (List String))
  pub calls : List Call

-- What `lifecycle.stop` raises but a `ProcessLifecycleError`, `PrimaryCheckoutError`, `DirtyWorktreeError(staged=)`, `WorktreeRemovalBlockedError(dirty_paths)`
-- and `WorktreeDirLockedError(killed, kill_attempted, staged, blockers)`.
pub data TeardownError : Type 0 where
  stop_failed primary_checkout : TeardownError
  dirty : (staged : Bool) → TeardownError
  removal_blocked : (dirty_paths : List String) → TeardownError
  dir_locked :
      (killed : List ℕ) (kill_attempted : Bool) (staged : Bool) (blockers : List ℕ) → TeardownError

-- A phase: what it changed before it raised stays changed.
abbrev pub Action : Type 0 → Type 0
Action A = World → Result TeardownError A × World

module _ {A : Type 0} where
  abbrev pub pure : A → Action A
  pure a w = (ok a, w)

  abbrev pub raise : TeardownError → Action A
  raise e w = (err e, w)

  abbrev pub gets : (World → A) → Action A
  gets f w = (ok (f w), w)

abbrev pub modify : (World → World) → Action (Unit {0})
modify f w = (ok tt, f w)

infixl 5 ◌>>=◌ ◌>>◌
abbrev pub ◌>>=◌ : {A B : Type 0} → Action A → (A → Action B) → Action B
◌>>=◌ m f w = let (r, w') = m w in elim r [ ok a ↦ f a w' | err e ↦ (err e, w') ]

abbrev pub ◌>>◌ : {A B : Type 0} → Action A → Action B → Action B
m >> k = m >>= λ _. k

-- `if test: body`
abbrev pub when : Bool → Action (Unit {0}) → Action (Unit {0})
when test body w = if test then body w else (ok tt, w)
