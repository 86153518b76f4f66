-- ===== src/Manager/Tests.antt =====
-- Removals, resolutions and starts of concrete worktrees.
use lib_python_worktree.Prelude.{
  ℕ, String, ◌≡◌, refl, subst, true, false, none, some, [], ◌∷◌, str_eq, if◌then◌else◌, ◌==◌,
}
use lib_python_worktree.Prelude.Int.{pos}
use lib_python_worktree.Prelude.Splitlines.{split_lines, split_after, is_break, put_first}
use lib_python_worktree.Prelude.Results.{ok, err}
use lib_python_worktree.Prelude.Dict.{lookup, insert, without, has_key}
use lib_python_worktree.Prelude.Lists.{has, contains, range}
use lib_python_worktree.Prelude.Repeats.{repeats}
use lib_python_worktree.Git.{Call, completed, is_exit}
use lib_python_worktree.Contract.{
  WorktreeContract, full, validate, fields_ok, all_ok, slot_ok, is_slug, port_ok, step_ok,
  isolation_none_forbids_lists, forbid_lists, ports_must_have_unique_names, raise_unless_empty,
  pinned_ports_must_be_unique, pins_of, start_steps_must_have_unique_names, names_of, at_end,
  is_lower, is_slug_tail, is_word, slot_names,
}
use lib_python_worktree.Contract.Laws.{IsWellFormed, validate-eq-ok}
use lib_python_worktree.Ports.{
  release, allocate, save_claims, claim_all, pass_one, pass_two, claim_pin, claim_free, first_free,
  holds, claim, reclaim, taken_by_others, in_slot_order, port_key,
}
use lib_python_worktree.Variants.{
  choose_step, select_step, exact_step, is_named, unnamed_steps, lone_step, or_tier,
  available_variants, unrepeated, step_names, default_reachable,
}
use lib_python_worktree.Runner.{build_step_command, resolve_shell, is_powershell}
use lib_python_worktree.Store.{WorktreeRecord, Records, new_record, get, list, add}
use lib_python_worktree.Store.Invariants.{IsKeyed}
use lib_python_worktree.Store
use lib_python_worktree.Checkout.{CheckoutInfo, Paths, classify_checkout}
use lib_python_worktree.Checkout
use lib_python_worktree.Reconcile.Heal.{Healing}
use lib_python_worktree.Reconcile
use lib_python_worktree.Lifecycle
use lib_python_worktree.Manager.Targets
use lib_python_worktree.Manager.Removals
use lib_python_worktree.Manager.Resolved
use lib_python_worktree.Manager.Resolved.{resolve_target-Ends}
use lib_python_worktree.Manager.Again.{resolve_target-IsDeepest, resolve_target_again}
use lib_python_worktree.Manager.Removable.{Resolves, resolve_removal_target-Resolves}
use lib_python_worktree.Manager.Sessions
use lib_python_worktree.Manager.Served.{IsSound}
use lib_python_worktree.Manager.Starts.{AllKeyed, AllKeyed-at, Starts, start-Starts}
use lib_python_worktree.Teardown.Samples.{polite, forceful, easy, start_world}
use lib_python_worktree.Manager.{Branch, State, branch_deleted, git_failed, not_found, remove}
use lib_python_worktree.Manager.Removal.{Ends, remove-Ends}

-- Git deletes the branch by force only.
abbrev feature_branch : Branch
feature_branch = record {
  name = some "feature";
  created_by_us = true;
  git_branch = λ force. elim force [ true ↦ branch_deleted | false ↦ git_failed true ];
}

abbrev tracked : State
tracked = record { world = start_world; branch_exists = true }

remove-Ends_example : Ends feature_branch tracked (remove easy feature_branch forceful tracked)
remove-Ends_example = remove-Ends easy feature_branch forceful tracked

abbrev untracked : State
untracked = record { world = record start_world { stored = none }; branch_exists = true }

not_found_run : remove easy feature_branch polite untracked ≡ (err not_found, untracked)
unfolding remove
not_found_run = refl

-- `/r` is the primary checkout; `/w` and `/w/in` are tracked worktrees, one inside the other.
abbrev exit_0 : String → Call
exit_0 out = completed (record { returncode = pos 0; stdout = out; stderr = "" })

abbrev paths : Paths
paths = record {
  resolved = λ p. some p;
  resolve = λ p. p;
  parent = λ p. if str_eq p "/r/.git" then "/r" else p;
  exists = λ p. true;
  is_dir = λ p. true;
  contains = λ root target. true;
  strip = λ s. s;
  rstrip = λ s. s;
  rev_parse = λ p.
      exit_0 (if str_eq p "/r" then "/r/.git\n/r/.git\n" else "/r/.git/worktrees/w\n/r/.git\n");
  worktree_list = λ root. exit_0 root;
  primary_id = λ p. "r-root";
  untracked_id = λ p. "untracked";
}

abbrev depth : String → ℕ
depth p = if str_eq p "/w/in" then 3 else 2

abbrev outer : WorktreeRecord
outer = new_record "wt-a" "/r" (some "a") "/w"

abbrev inner : WorktreeRecord
inner = new_record "wt-b" "/r" (some "b") "/w/in"

abbrev both : Records
both = ("wt-a", outer) ∷ ("wt-b", inner) ∷ []

abbrev inner_info : CheckoutInfo
inner_info = record { backing = "worktree"; repo_root = "/r"; checkout_path = "/w/in/src" }

inner_classified : classify_checkout paths "/w/in/src" ≡ ok inner_info
unfolding classify_checkout Checkout.info_from is_exit Checkout.info_of Checkout.non_empty_lines
    split_lines split_after is_break put_first
inner_classified = refl

inner_found :
    Targets.resolve_target paths depth none (some "/w/in/src") true both ≡ (ok inner, both)
unfolding Targets.resolve_target Targets.resolve_classified classify_checkout Checkout.info_from
    is_exit Checkout.info_of Checkout.non_empty_lines split_lines split_after is_break put_first
    Targets.resolve_checkout Targets.unless_mismatched Targets.mismatch Targets.existing_or_new
    Targets.existing_record Targets.deepest list Targets.encloses Targets.is_deeper
inner_found = refl

resolve_target-IsDeepest_example :
    Resolved.IsDeepest
      (λ r. depth (paths.resolve r.path))
      (Targets.encloses paths depth inner_info)
      (list both)
      (some inner)
resolve_target-IsDeepest_example =
    resolve_target-IsDeepest paths depth none "/w/in/src" true both both inner_info inner
      inner_classified refl inner_found

resolve_target_again_example :
    Targets.resolve_target paths depth none (some "/w/in/src") false both ≡ (ok inner, both)
resolve_target_again_example =
    resolve_target_again paths depth none (some "/w/in/src") true both both inner inner_found false

both-AllKeyed : AllKeyed both
unfolding has
both-AllKeyed = (refl, refl, (refl, refl, tt))

both-IsKeyed : IsKeyed both
both-IsKeyed = record { at = AllKeyed-at both both-AllKeyed }

-- The record of the primary checkout is made.
resolve_target-Ends_example :
    Resolved.Ends
      (some "r-root")
      true
      both
      (Targets.resolve_target paths depth (some "r-root") (some "/r") true both)
resolve_target-Ends_example =
    resolve_target-Ends paths depth (some "r-root") (some "/r") true both both-IsKeyed

-- Git lists one worktree, whose branch is the one that was stored as two letters.
abbrev healing : Healing
healing = record {
  worktree_list = λ root. completed (record {
    returncode = pos 0;
    stdout = "worktree /wt/a\nbranch refs/heads/ü\n";
    stderr = "";
  });
  strip = λ s. s;
  rstrip = λ s. s;
  resolve = λ p. p;
  encode = λ s. some (195 ∷ 188 ∷ []);
  decode = λ codec bytes. some "Ã¼";
  works = true;
}

abbrev seen : Reconcile.Outside
seen = record {
  exists = λ path. true;
  same_path = λ p q. str_eq p q;
  pid_status = λ pid start. some true;
  declared_slots = none;
  healing = healing;
}

abbrev stored : Removals.Stored
stored = record { records = both; allocated = [] }

-- No record of the primary checkout: the listing is asked.
resolve_removal_target-Resolves_example :
    Resolves paths depth true seen none
      (some "/r")
      stored
      (Removals.resolve_removal_target paths depth true seen none (some "/r") stored)
resolve_removal_target-Resolves_example =
    resolve_removal_target-Resolves paths depth true seen none (some "/r") stored both-IsKeyed

abbrev dev : WorktreeContract
dev = record {
  version = 1;
  isolation = full;
  setup = [];
  teardown = [];
  ports = record { name = "web"; port = some 8080 } ∷ record { name = "api"; port = none } ∷ [];
  start = record { run = "make serve"; name = none; shell = none } ∷ [];
  stop = [];
  seed_postprocess = [];
}

abbrev outside : Sessions.Outside
outside = record {
  paths = paths;
  depth = depth;
  contract = λ root. some dev;
  in_use = λ port. false;
  shuffle = λ slot ports. ports;
  low = 9000;
  high = 9001;
  windows = false;
  is_space = λ c. c == 32;
  is_word = λ c. false;
  encode = λ t. t;
  process = record {
    pid_status = λ pid start. none;
    spawn = λ cmd. some (record { pid = 41; start_time = some 7; job_name = none; exit = none });
    log_path = λ id role. role;
  };
}

dev-validate : validate dev ≡ ok dev
unfolding validate fields_ok all_ok slot_ok is_slug port_ok step_ok isolation_none_forbids_lists
    forbid_lists ports_must_have_unique_names raise_unless_empty repeats has
    pinned_ports_must_be_unique pins_of contains start_steps_must_have_unique_names names_of at_end
    is_lower is_slug_tail is_word slot_names
dev-validate = refl

outside-IsSound : IsSound outside
outside-IsSound = record {
  shuffle_keeps = λ s ps p. refl;
  accepted = λ root c e.
      let same : dev ≡ c = cc in subst IsWellFormed same (validate-eq-ok dev dev-validate).1;
}

abbrev request : Sessions.StartRequest
request = record {
  id = some "wt-b";
  checkout_path = none;
  role = "main";
  variant = "default";
  allow_setup_failed = false;
}

-- The record has a stale slot and an old port of the pinned one.
abbrev stale : WorktreeRecord
stale = record inner { ports = ("old", 9001) ∷ ("web", 9000) ∷ [] }

abbrev before : Removals.Stored
before = record {
  records = ("wt-b", stale) ∷ [];
  allocated = ("wt-b:old", 9001) ∷ ("wt-b:web", 9000) ∷ [];
}

abbrev serving : WorktreeRecord
serving = record inner {
  ports = ("web", 8080) ∷ ("api", 9000) ∷ [];
  status = "running";
  pids = ("main", 41) ∷ [];
  start_log_paths = ("main", "main") ∷ [];
  variants = ("main", "default") ∷ [];
  start_times = ("main", 7) ∷ [];
}

abbrev after : Removals.Stored
after = record {
  records = ("wt-b", serving) ∷ [];
  allocated = ("wt-b:web", 8080) ∷ ("wt-b:api", 9000) ∷ [];
}

before-AllKeyed : AllKeyed before.records
unfolding has
before-AllKeyed = (refl, refl, tt)

start_run :
    Sessions.start outside request before
    ≡ (ok (record serving { start_variants = "default" ∷ [] }), after)
unfolding Sessions.start Sessions.start_target Targets.resolve_target Targets.resolve_id get lookup
    Sessions.start_resolved Sessions.start_loaded Sessions.start_under Sessions.and_then
    Sessions.prune_undeclared Sessions.undeclared_slots Reconcile.undeclared has
    Sessions.update_record Sessions.updated Store.update has_key insert without
    Sessions.without_slots release Sessions.allocate_needed Sessions.needs_alloc Sessions.is_needed
    Sessions.disagrees Sessions.needed_pins Sessions.granted Sessions.update_ports allocate
    save_claims claim_all pass_one pass_two claim_pin claim_free first_free holds claim reclaim
    taken_by_others in_slot_order contains range port_key Sessions.start_steps Sessions.start_chosen
    Sessions.start_built Sessions.start_process Sessions.command Sessions.ended
    Sessions.with_variants Sessions.name_or choose_step select_step exact_step is_named
    unnamed_steps lone_step or_tier available_variants unrepeated step_names default_reachable
    build_step_command resolve_shell is_powershell Lifecycle.start Lifecycle.start_tracked
    Lifecycle.start_spawned Lifecycle.is_running Lifecycle.started Lifecycle.saved
    Lifecycle.set_or_pop Lifecycle.status_of Lifecycle.pid_or_zero Lifecycle.is_true
start_run = refl

start-Starts_example : Starts outside request (record serving { start_variants = "default" ∷ [] })
start-Starts_example =
    start-Starts outside outside-IsSound request before after _ before-AllKeyed start_run
