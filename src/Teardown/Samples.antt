-- ===== src/Teardown/Samples.antt =====
-- Requests, hosts and states that the tests of removals share.
use lib_python_worktree.Prelude.{true, false, none, some, [], ◌∷◌}
use lib_python_worktree.Contract.{WorktreeContract, full as full_isolation}
use lib_python_worktree.Teardown.Types.{
  saved, absent, full, Outside, Request, World, WorktreeRecord, entries,
}

abbrev pub with_steps : WorktreeContract
with_steps = record {
  version = 1;
  isolation = full_isolation;
  setup = [];
  teardown = record { run = "make clean"; name = none; shell = none } ∷ [];
  ports = [];
  start = [];
  stop = [];
  seed_postprocess = [];
}

abbrev pub polite : Request
polite = record {
  force = false;
  kill_blocking_processes = false;
  target_absent = false;
  contract = some with_steps;
  contract_found = true;
  owned_pids = 41 ∷ 42 ∷ [];
}

abbrev pub forceful : Request
forceful = record polite { force = true; kill_blocking_processes = true }

-- A POSIX host on which everything succeeds and `git status` reports one modified file.
abbrev pub easy : Outside
easy = record {
  windows = false;
  path_is_repo_root = false;
  delay = λ t. 0;
  renames_out = λ t. true;
  renames_back = λ t. true;
  leaves = λ rung t d. absent;
  status = λ t. entries (" M a.py" ∷ []);
  shares_records = false;
  stop_ends = λ t. saved;
  after_stop = λ role rec. rec;
  stop_steps = λ t. some 0;
  teardown_steps = λ t. true;
  writes_state = λ t. true;
  pid_verdict = λ pid t. some (some true);
  kills_tree = λ t. true;
  blocking = λ t. [];
  kills_blocking = λ t. some [];
}

-- A host on which no rename succeeds, and the ladder deletes nothing.
abbrev pub stuck : Outside
stuck = record easy { renames_out = λ t. false; leaves = λ rung t d. d }

abbrev pub a_record : WorktreeRecord
a_record = record {
  id = "wt-a";
  backing = "worktree";
  pids = [];
  killed_pids = [];
  stop_hook_outcome = none;
  teardown_ran = false;
}

abbrev pub start_world : World
start_world = record {
  checkout = full;
  staged = absent;
  rec = a_record;
  stored = some a_record;
  ports = ("wt-a:web", 8000) ∷ ("wt-b:web", 8001) ∷ [];
  now = 0;
  kill_attempted = false;
  failure_deadline = none;
  blockers = [];
  status_cache = none;
  calls = [];
}
