-- ===== src/Manager.antt =====
-- core/manager.py: `WorktreeManager.remove` for a worktree that is named by its id, and the deletion
-- of the branch that the manager has created for it.
pub mod Targets
pub mod Removals
pub mod Resolved
pub mod Again
pub mod Removable
pub mod Sessions
pub mod NeededPorts
pub mod Serving
pub mod Served
pub mod Started
pub mod Starts
pub mod Tracked
pub mod Removal
mod Tests
use lib_python_worktree.Prelude.{
  ℕ, String, Bool, true, false, Option, none, some, ◌&&◌, ◌||◌, not, if◌then◌else◌, str_eq,
}
use lib_python_worktree.Prelude.Results.{Result, ok, err}
use lib_python_worktree.Teardown.Types.{
  Outside, Request, World, WorktreeRecord, TeardownError, primary_checkout,
}
use lib_python_worktree.Teardown.Disk.{target_is_absent}
use lib_python_worktree.Teardown.Phases.{run_teardown}

-- What `git branch -d` or `-D` comes back with.
pub data GitOutcome : Type 0 where
  branch_deleted : GitOutcome
  git_failed : (not_fully_merged : Bool) → GitOutcome

-- The branch of the record: its name, whether the manager has created it, and what git answers.
pub record Branch : Type 0 where
  pub name : Option String
  pub created_by_us : Bool
  pub git_branch : (force : Bool) → GitOutcome

-- `WorktreeNotFoundError`, what the teardown raises, the `AssertionError` of `remove`, and
-- `GitCommandError`.
pub data RemovalError : Type 0 where
  not_found : RemovalError
  torn : TeardownError → RemovalError
  assertion_failed : RemovalError
  git_command : (not_fully_merged : Bool) → RemovalError

-- The teardown's state, and whether the branch exists.
pub record State : Type 0 where
  pub world : World
  pub branch_exists : Bool

module _ (o : Outside) (b : Branch) where
  -- `if not record.branch`
  unfoldable pub has_name : Option String → Bool
  has_name none = false
  has_name (some name) = not (str_eq name "")

  -- The branch is one that `remove` may delete.
  unfoldable pub is_owned : State → Bool
  is_owned s = has_name b.name && b.created_by_us && s.branch_exists

  unfoldable pub delete_owned_branch : Bool → State → Result RemovalError (Unit {0}) × State
  delete_owned_branch force s =
      if not (str_eq s.world.rec.backing "primary") && is_owned s
      then elim (b.git_branch force) [
        | branch_deleted ↦ (ok tt, record s { branch_exists = false })
        | git_failed unmerged ↦ (err (git_command unmerged), s)
      ]
      else (ok tt, s)

  -- The branch of a checkout that was gone before may be unmerged; any other failure is raised.
  unfoldable pub tolerate :
      Bool → Result RemovalError (Unit {0}) × State → Result RemovalError (Unit {0}) × State
  tolerate target_absent (ok _, s) = (ok tt, s)
  tolerate target_absent (err (git_command true), s) =
      if target_absent then (ok tt, s) else (err (git_command true), s)
  tolerate target_absent (err e, s) = (err e, s)

  -- `self.state.remove(record.id)`, the assertion, and the branch.
  unfoldable pub forget : Request → State → Result RemovalError (Unit {0}) × State
  forget r s = elim s.world.stored [
    | none ↦ (err assertion_failed, s)
    | some _ ↦
        tolerate r.target_absent
          (delete_owned_branch r.force (record s { world = record s.world { stored = none } }))
  ]

  unfoldable pub after_teardown :
      Request
      → Bool
      → Result TeardownError (Unit {0}) × World
      → Result RemovalError (Unit {0}) × State
  after_teardown r branch_exists (err e, w) =
      (err (torn e), record { world = w; branch_exists = branch_exists })
  after_teardown r branch_exists (ok _, w) =
      forget r (record { world = w; branch_exists = branch_exists })

  -- The request with what `_target_is_absent` finds, before the teardown begins.
  unfoldable pub with_target : Request → World → Request
  with_target r w = record r { target_absent = target_is_absent w.checkout w.staged r.force }

  unfoldable pub remove_record : Request → State → Result RemovalError (Unit {0}) × State
  remove_record r s =
      if str_eq s.world.rec.backing "primary" || o.path_is_repo_root
      then (err (torn primary_checkout), s)
      else after_teardown (with_target r s.world) s.branch_exists
          (run_teardown o (with_target r s.world) s.world)

  -- `remove(worktree_id, force, kill_blocking_processes)`
  unfoldable pub remove : Request → State → Result RemovalError (Unit {0}) × State
  remove r s = elim s.world.stored [
    | none ↦ (err not_found, s)
    | some rec ↦ remove_record r (record s { world = record s.world { rec = rec } })
  ]
