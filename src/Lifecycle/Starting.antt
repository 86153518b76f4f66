-- ===== src/Lifecycle/Starting.antt =====
-- `start`. The log lines of an abandoned process are left out; `stop_attempt` is not a stored field.
use lib_python_worktree.Prelude.{
  ℕ, String, Bool, false, Option, none, some, List, [], ◌∷◌, ◌==◌, not, ◌&&◌, if◌then◌else◌, str_eq,
}
use lib_python_worktree.Prelude.Int.{ℤ}
use lib_python_worktree.Prelude.Results.{Result, ok, err}
use lib_python_worktree.Prelude.Dict.{Dict, lookup, insert, without}
use lib_python_worktree.Store.{WorktreeRecord, Records, StoreError}
use lib_python_worktree.Store

-- A process that has been spawned: its start time and its job object where they could be had, and its
-- return code if it has exited within the early wait.
pub record Spawned : Type 0 where
  pub pid : ℕ
  pub start_time : Option ℕ
  pub job_name : Option String
  pub exit : Option ℤ

pub data StartError : Type 0 where
  empty_command worktree_not_found spawn_failed : StartError
  already_running : (role : String) (pid : ℕ) → StartError
  store : StoreError → StartError

-- `_pid_status`, `_spawn_detached` with the early wait (`none`: it raises), and the path of a log.
pub record Outside : Type 0 where
  pub pid_status : ℕ → Option ℕ → Option Bool
  pub spawn : List String → Option Spawned
  pub log_path : (id role : String) → String

-- `d[role] = value`, or `d.pop(role, None)`
unfoldable pub set_or_pop {ℓ} : {V : Type ℓ} → String → Option V → Dict V → Dict V
set_or_pop role none d = without (str_eq role) d
set_or_pop role (some v) d = insert role v d

unfoldable pub status_of : Option ℤ → String
status_of none = "running"
status_of (some rc) = "exited"

unfoldable pub is_true : Option Bool → Bool
is_true none = false
is_true (some b) = b

unfoldable pub pid_or_zero : Option ℕ → ℕ
pid_or_zero none = 0
pid_or_zero (some pid) = pid

unfoldable pub saved :
    WorktreeRecord
    → Result StoreError (Unit {0}) × Records
    → Result StartError WorktreeRecord × Records
saved rec (ok _, rs) = (ok rec, rs)
saved rec (err e, rs) = (err (store e), rs)

module _ (o : Outside) (role : String) (variant : Option String) (id : String) where
  unfoldable pub started : Spawned → WorktreeRecord → WorktreeRecord
  started p rec = record rec {
    pids = insert role p.pid rec.pids;
    status = status_of p.exit;
    stop_detail = none;
    teardown_ran = false;
    returncode = p.exit;
    start_log_paths = insert role (o.log_path id role) rec.start_log_paths;
    job_names = set_or_pop role p.job_name rec.job_names;
    variants = set_or_pop role variant rec.variants;
    start_times = set_or_pop role p.start_time rec.start_times;
  }

  unfoldable pub start_spawned :
      Option Spawned → WorktreeRecord → Records → Result StartError WorktreeRecord × Records
  start_spawned none rec rs = (err spawn_failed, rs)
  start_spawned (some p) rec rs = saved (started p rec) (Store.update (started p rec) rs)

  -- The guard: the recorded process is alive, and is the one that was started.
  unfoldable pub is_running : WorktreeRecord → Bool
  is_running rec =
      let pid = pid_or_zero (lookup role rec.pids) in
      not (pid == 0) && is_true (o.pid_status pid (lookup role rec.start_times))

  unfoldable pub start_tracked :
      List String → Option WorktreeRecord → Records → Result StartError WorktreeRecord × Records
  start_tracked cmd none rs = (err worktree_not_found, rs)
  start_tracked cmd (some rec) rs =
      if is_running rec
      then (err (already_running role (pid_or_zero (lookup role rec.pids))), rs)
      else start_spawned (o.spawn cmd) rec rs

  unfoldable pub start : List String → Records → Result StartError WorktreeRecord × Records
  start [] rs = (err empty_command, rs)
  start (exe ∷ args) rs = start_tracked (exe ∷ args) (Store.get id rs) rs
