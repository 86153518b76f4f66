-- ===== src/Store/Record.antt =====
-- core/state.py: `WorktreeRecord` and the records that it holds. A float is a number that stands
-- for it: the program compares floats for equality only. Of the fields that are never saved,
-- `start_variants` is here; the others belong to a single call.
use lib_python_worktree.Prelude.{ℕ, String, Bool, false, Option, none, List, []}
use lib_python_worktree.Prelude.Int.{ℤ}
use lib_python_worktree.Prelude.Dict.{Dict}

pub record StopDetail : Type 0 where
  pub reason : String
  pub message : String
  pub role : Option String
  pub survivor_pids : List ℕ
  pub survivor_count : ℕ
  pub truncated_at : Option ℕ
  pub skipped_passes : List String
  pub kill_orphans_may_help : Bool

pub record SetupOutcome : Type 0 where
  pub status : String
  pub message : String
  pub completed_at : Option String
  pub steps_run : ℕ
  pub failed_step_index : Option ℕ
  pub failed_step_name : Option String
  pub log_path : Option String
  pub returncode : Option ℤ
  pub timed_out : Bool

pub record BaseFetchFallback : Type 0 where
  pub reason : String
  pub base : String
  pub message : String
  pub returncode : Option ℤ
  pub stderr : Option String
  pub elapsed_sec : Option ℕ

pub record WorktreeRecord : Type 0 where
  pub id : String
  pub repo_root : String
  pub branch : Option String
  pub path : String
  pub status : String
  pub ports : Dict ℕ
  pub pids : Dict ℕ
  pub branch_created_by_us : Bool
  pub returncode : Option ℤ
  pub start_log_paths : Dict String
  pub backing : String
  pub job_names : Dict String
  pub variants : Dict String
  pub start_times : Dict ℕ
  pub stop_detail : Option StopDetail
  pub setup_outcome : Option SetupOutcome
  pub teardown_ran : Bool
  pub base_fetch_fallback : Option BaseFetchFallback
  pub start_variants : List String

-- `WorktreeRecord(id=id, repo_root=repo_root, branch=branch, path=path)`: the other fields have
-- their defaults.
abbrev pub new_record : String → String → Option String → String → WorktreeRecord
new_record id repo_root branch path = record {
  id = id;
  repo_root = repo_root;
  branch = branch;
  path = path;
  status = "created";
  ports = [];
  pids = [];
  branch_created_by_us = false;
  returncode = none;
  start_log_paths = [];
  backing = "worktree";
  job_names = [];
  variants = [];
  start_times = [];
  stop_detail = none;
  setup_outcome = none;
  teardown_ran = false;
  base_fetch_fallback = none;
  start_variants = [];
}
