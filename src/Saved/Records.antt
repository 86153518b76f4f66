-- ===== src/Saved/Records.antt =====
-- `_record_to_dict` and `_record_from_dict` with their helpers. `is_zero` tells the float 0.0, and
-- `float_of` stands for `float(value)` where it is finite, on the values that are not floats.
use lib_python_worktree.Prelude.{
  ℕ, String, Bool, false, Option, none, some, List, [], ◌∷◌, if◌then◌else◌,
}
use lib_python_worktree.Prelude.Int.{pos}
use lib_python_worktree.Prelude.Results.{ok, ◌>>=◌}
use lib_python_worktree.Prelude.Dict.{Dict}
use lib_python_worktree.Prelude.Lists.{take}
use lib_python_worktree.Prelude.Texts.{take_chars, replace_char}
use lib_python_worktree.Store.{StopDetail, SetupOutcome, BaseFetchFallback, WorktreeRecord}
use lib_python_worktree.Saved.Values.{
  Value, null, bool, int, float, not_finite, text, list, dict, Entries, end, entry, Items, Read,
  get, truthy, as_text, as_nat, as_int, as_float, as_dict, as_list, optional, or_default, required,
  items_of, texts_of, entries_of, text_items, nat_items, to_entries, or_null,
}

-- `_STOP_DETAIL_MAX_PIDS`
abbrev pub max_pids : ℕ
max_pids = 32

-- `_BASE_FETCH_STDERR_MAX_CHARS`
abbrev pub max_stderr : ℕ
max_stderr = 2000

unfoldable pub stop_detail_to_dict : Option StopDetail → Value
stop_detail_to_dict none = null
stop_detail_to_dict (some x) = dict (
    entry (text "reason") (text x.reason) (
      entry (text "message") (text x.message) (
        entry (text "role") (or_null text x.role) (
          entry (text "survivor_pids") (list (nat_items (take max_pids x.survivor_pids))) (
            entry (text "survivor_count") (int (pos x.survivor_count)) (
              entry (text "truncated_at") (or_null (λ n. int (pos n)) x.truncated_at) (
                entry (text "skipped_passes") (list (text_items x.skipped_passes))
                  (entry (text "kill_orphans_may_help") (bool x.kill_orphans_may_help) end))))))))

unfoldable pub setup_outcome_to_dict : Option SetupOutcome → Value
setup_outcome_to_dict none = null
setup_outcome_to_dict (some x) = dict (
    entry (text "status") (text x.status) (
      entry (text "message") (text x.message) (
        entry (text "completed_at") (or_null text x.completed_at) (
          entry (text "steps_run") (int (pos x.steps_run)) (
            entry (text "failed_step_index") (or_null (λ n. int (pos n)) x.failed_step_index) (
              entry (text "failed_step_name") (or_null text x.failed_step_name) (
                entry (text "log_path") (or_null text x.log_path) (
                  entry (text "returncode") (or_null int x.returncode)
                    (entry (text "timed_out") (bool x.timed_out) end)))))))))

unfoldable pub base_fetch_fallback_to_dict : Option BaseFetchFallback → Value
base_fetch_fallback_to_dict none = null
base_fetch_fallback_to_dict (some x) = dict (
    entry (text "reason") (text x.reason) (
      entry (text "base") (text x.base) (
        entry (text "message") (text x.message) (
          entry (text "returncode") (or_null int x.returncode) (
            entry (text "stderr") (or_null (λ s. text (take_chars max_stderr s)) x.stderr)
              (entry (text "elapsed_sec") (or_null float x.elapsed_sec) end))))))

unfoldable pub record_to_dict : WorktreeRecord → Entries
record_to_dict r = entry (text "id") (text r.id) (
    entry (text "repo_root") (text r.repo_root) (
      entry (text "branch") (or_null text r.branch) (
        entry (text "path") (text r.path) (
          entry (text "status") (text r.status) (
            entry (text "ports") (dict (to_entries (λ n. int (pos n)) r.ports)) (
              entry (text "pids") (dict (to_entries (λ n. int (pos n)) r.pids)) (
                entry (text "branch_created_by_us") (bool r.branch_created_by_us) (
                  entry (text "returncode") (or_null int r.returncode) (
                    entry (text "start_log_paths") (dict (to_entries text r.start_log_paths)) (
                      entry (text "backing") (text r.backing) (
                        entry (text "job_names") (dict (to_entries text r.job_names)) (
                          entry (text "variants") (dict (to_entries text r.variants)) (
                            entry (text "start_times") (dict (to_entries float r.start_times)) (
                              entry (text "stop_detail") (stop_detail_to_dict r.stop_detail) (
                                entry (text "setup_outcome") (setup_outcome_to_dict r.setup_outcome)
                                  (entry (text "teardown_ran") (bool r.teardown_ran) (
                                    entry (text "base_fetch_fallback")
                                      (base_fetch_fallback_to_dict r.base_fetch_fallback)
                                      end)))))))))))))))))

-- `_start_log_paths_from_dict`: what is not a text is skipped. The entries have distinct keys.
unfoldable pub text_entries : Entries → Dict String
text_entries end = []
text_entries (entry (text k) (text v) d) = (k, v) ∷ text_entries d
text_entries (entry (text k) _ d) = text_entries d
text_entries (entry _ _ d) = text_entries d

unfoldable pub start_log_paths_from_dict : Option Value → Dict String
start_log_paths_from_dict (some (dict d)) = text_entries d
start_log_paths_from_dict _ = []

-- `str(stderr)[:_BASE_FETCH_STDERR_MAX_CHARS]` of a text.
abbrev pub as_stderr : Value → Read String
as_stderr v = as_text v >>= λ s. ok (take_chars max_stderr s)

-- `.replace("\\", "/")`
abbrev pub slashes : String → String
slashes s = replace_char 92 "/" s

module _ (is_zero : ℕ → Bool) (float_of : Value → Option ℕ) where
  -- The value of an entry of `start_times`: a Boolean and what has no finite float are dropped.
  unfoldable pub time_of : Value → Option ℕ
  time_of (bool b) = none
  time_of (float x) = some x
  time_of not_finite = none
  time_of v = float_of v

  unfoldable pub time_entries : Entries → Dict ℕ
  time_entries end = []
  time_entries (entry (text k) v d) =
      let rest = time_entries d in elim (time_of v) [ none ↦ rest | some x ↦ (k, x) ∷ rest ]
  time_entries (entry _ v d) = time_entries d

  unfoldable pub start_times_from_dict : Option Value → Dict ℕ
  start_times_from_dict (some (dict d)) = time_entries d
  start_times_from_dict _ = []

  -- `dict(d.get(k) or {})`
  unfoldable pub dict_or_empty : {A : Type 0} → (Value → Read A) → Option Value → Read (Dict A)
  dict_or_empty read none = ok []
  dict_or_empty read (some v) =
      if truthy is_zero v then (as_dict v >>= λ d. entries_of read d) else ok []

  -- `tuple(d.get(k) or ())`
  unfoldable pub list_or_empty :
      {A : Type 0} → (Items → Read (List A)) → Option Value → Read (List A)
  list_or_empty read none = ok []
  list_or_empty read (some v) = if truthy is_zero v then (as_list v >>= λ vs. read vs) else ok []

  -- `bool(d.get(k, False))`
  unfoldable pub flag : Option Value → Bool
  flag none = false
  flag (some v) = truthy is_zero v

  -- `if not d: return None`, and otherwise the fields of the dict.
  unfoldable pub unless_empty : {A : Type 0} → (Entries → Read A) → Option Value → Read (Option A)
  unless_empty read none = ok none
  unless_empty read (some v) =
      if truthy is_zero v then (as_dict v >>= λ d. read d >>= λ a. ok (some a)) else ok none

  unfoldable pub stop_detail_of : Entries → Read StopDetail
  stop_detail_of d = do
    reason ← or_default as_text "" (get "reason" d)
    message ← or_default as_text "" (get "message" d)
    role ← optional as_text (get "role" d)
    pids ← list_or_empty (items_of as_nat) (get "survivor_pids" d)
    count ← or_default as_nat 0 (get "survivor_count" d)
    truncated ← optional as_nat (get "truncated_at" d)
    skipped ← list_or_empty texts_of (get "skipped_passes" d)
    ok (record {
      reason = reason;
      message = message;
      role = role;
      survivor_pids = take max_pids pids;
      survivor_count = count;
      truncated_at = truncated;
      skipped_passes = skipped;
      kill_orphans_may_help = flag (get "kill_orphans_may_help" d);
    })

  unfoldable pub setup_outcome_of : Entries → Read SetupOutcome
  setup_outcome_of d = do
    status ← or_default as_text "" (get "status" d)
    message ← or_default as_text "" (get "message" d)
    completed_at ← optional as_text (get "completed_at" d)
    steps_run ← or_default as_nat 0 (get "steps_run" d)
    index ← optional as_nat (get "failed_step_index" d)
    name ← optional as_text (get "failed_step_name" d)
    log_path ← optional as_text (get "log_path" d)
    returncode ← optional as_int (get "returncode" d)
    ok (record {
      status = status;
      message = message;
      completed_at = completed_at;
      steps_run = steps_run;
      failed_step_index = index;
      failed_step_name = name;
      log_path = log_path;
      returncode = returncode;
      timed_out = flag (get "timed_out" d);
    })

  unfoldable pub base_fetch_fallback_of : Entries → Read BaseFetchFallback
  base_fetch_fallback_of d = do
    stderr ← optional as_stderr (get "stderr" d)
    reason ← or_default as_text "" (get "reason" d)
    base ← or_default as_text "" (get "base" d)
    message ← or_default as_text "" (get "message" d)
    returncode ← optional as_int (get "returncode" d)
    elapsed_sec ← optional as_float (get "elapsed_sec" d)
    ok (record {
      reason = reason;
      base = base;
      message = message;
      returncode = returncode;
      stderr = stderr;
      elapsed_sec = elapsed_sec;
    })

  unfoldable pub record_from_dict : Entries → Read WorktreeRecord
  record_from_dict d = do
    id ← required "id" d >>= as_text
    repo_root ← required "repo_root" d >>= as_text
    branch ← optional as_text (get "branch" d)
    path ← required "path" d >>= as_text
    status ← or_default as_text "created" (get "status" d)
    ports ← dict_or_empty as_nat (get "ports" d)
    pids ← dict_or_empty as_nat (get "pids" d)
    returncode ← optional as_int (get "returncode" d)
    backing ← or_default as_text "worktree" (get "backing" d)
    job_names ← dict_or_empty as_text (get "job_names" d)
    variants ← dict_or_empty as_text (get "variants" d)
    stop_detail ← unless_empty stop_detail_of (get "stop_detail" d)
    setup_outcome ← unless_empty setup_outcome_of (get "setup_outcome" d)
    base_fetch_fallback ← unless_empty base_fetch_fallback_of (get "base_fetch_fallback" d)
    ok (record {
      id = id;
      repo_root = slashes repo_root;
      branch = branch;
      path = slashes path;
      status = status;
      ports = ports;
      pids = pids;
      branch_created_by_us = flag (get "branch_created_by_us" d);
      returncode = returncode;
      start_log_paths = start_log_paths_from_dict (get "start_log_paths" d);
      backing = backing;
      job_names = job_names;
      variants = variants;
      start_times = start_times_from_dict (get "start_times" d);
      stop_detail = stop_detail;
      setup_outcome = setup_outcome;
      teardown_ran = flag (get "teardown_ran" d);
      base_fetch_fallback = base_fetch_fallback;
      start_variants = [];
    })
