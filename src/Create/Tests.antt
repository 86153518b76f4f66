-- ===== src/Create/Tests.antt =====
-- Runs of `create`.
use lib_python_worktree.Git.{is_exit, Call, completed}
use lib_python_worktree.Prelude.Texts.{char_count, replace_char, has_prefix, drop_chars}
use lib_python_worktree.Prelude.{
  ℕ, String, ◌≡◌, ◌⊎◌, refl, Bool, true, false, none, some, [], ◌∷◌, ◌==◌, leb,
}
use lib_python_worktree.Prelude.Int.{pos}
use lib_python_worktree.Prelude.Dict.{lookup, insert, without, has_key}
use lib_python_worktree.Prelude.Lists.{has, contains, range}
use lib_python_worktree.Contract.{WorktreeContract, full, slot_names, pins, add_pins}
use lib_python_worktree.Runner.{exited}
use lib_python_worktree.Create.Git.{
  parse_already_checked_out, conflict_here, conflict_reason, conflict_path, behind_reason, quoted,
  to_apostrophe, behind, is_path_prunable, scan_lines, scan_line, flush,
}
use lib_python_worktree.Create.Types.{State, Outside}
use lib_python_worktree.Create.Bases.{choose_base, branch_exists, current_branch, fetch_base}
use lib_python_worktree.Create.Persisting.{
  persist_or_roll_back, persist, persist_from, allocate_ports, make_record, track, committed,
  roll_back, remove_text,
}
use lib_python_worktree.Create.Steps.{
  create, create_in, create_branch, after_base, after_add, added, finish,
}
use lib_python_worktree.Ports.{
  allocate, save_claims, claim_all, pass_one, claim_pin, holds, port_key, taken_by_others, pass_two,
  claim_free, first_free, claim, in_slot_order, release,
}
use lib_python_worktree.Store.{find_by_branch}
use lib_python_worktree.Store.{add as add_record}
use lib_python_worktree.Create.Tracked.{IsQuiet, IsTracked, IsRestored, IsLeft, create-IsAtomic}
use lib_python_worktree.Create.Branches.{create-has}

conflict :
    parse_already_checked_out "hint\nfatal: 'feat' is already used by worktree at 'C:/w/feat'\n"
    ≡ some ("feat", "C:/w/feat")
unfolding parse_already_checked_out conflict_here behind has_prefix quoted to_apostrophe drop_chars
    char_count conflict_reason behind_reason conflict_path
conflict = refl

prunable :
    is_path_prunable
      (λ s. s)
      (λ s. s)
      "C:/w/feat"
      (some (
        "worktree C:/repo" ∷ "branch refs/heads/main" ∷ "" ∷ "worktree C:/w/feat" ∷ "prunable gone"
        ∷ "" ∷ []))
    ≡ some true
unfolding is_path_prunable scan_lines flush scan_line has_prefix replace_char drop_chars
prunable = refl

abbrev exit_0 : String → Call
exit_0 out = completed (record { returncode = pos 0; stdout = out; stderr = "" })

abbrev two_slots : WorktreeContract
two_slots = record {
  version = 1;
  isolation = full;
  setup = record { run = "npm ci"; name = none; shell = none } ∷ [];
  teardown = [];
  ports = record { name = "web"; port = none } ∷ record { name = "db"; port = some 9002 } ∷ [];
  start = [];
  stop = [];
  seed_postprocess = [];
}

-- Git works, the ports are 9000 to 9003; state.yaml can be written or not, and the setup step ends so.
abbrev outside : Bool → ℕ → Outside
outside writes exit = record {
  repo = some "/r";
  strip = λ s. s;
  lower = λ s. s;
  rev_parse = exit_0 "main";
  fetch = λ base. exit_0 "";
  during_fetch = λ bs. bs;
  add_tree = λ args. exit_0 "";
  leaves_tree = λ c. true;
  leaves_branch = λ c. true;
  list_trees = none;
  contract = some two_slots;
  contract_again = some two_slots;
  in_use = λ p. p == 9001;
  shuffle = λ s ps. ps;
  low = 9000;
  high = 9003;
  new_id = "r-feat-1";
  target = "/w/r-feat-1";
  message = λ reason. reason;
  log_path = λ index name. name;
  now = "now";
  writes_add = writes;
  writes_update = true;
  removes_tree = true;
  releases = true;
  deletes_branch = true;
  host = record {
    windows = false;
    is_space = λ c. c == 32;
    is_word = λ c. leb 97 c;
    encode = λ s. s;
    show = λ n. "0";
    spawn = λ index argv. exited (pos exit);
  };
}

abbrev before : State
before = record { records = []; ports = []; branches = "main" ∷ []; trees = "/r" ∷ [] }

before-IsQuiet : IsQuiet (outside false 0) before
unfolding lookup has
before-IsQuiet = record {
  shuffle = λ x ps p. refl;
  keys = λ k e. refl;
  tree = refl;
  branches = refl;
  removes_tree = refl;
  releases = refl;
  deletes_branch = refl;
}

create-IsAtomic_example :
    IsTracked (outside false 0) (create (outside false 0) "feat" none true before).1
    ⊎ IsRestored before (create (outside false 0) "feat" none true before).1
    ⊎ IsLeft (outside false 0) "feat" before (create (outside false 0) "feat" none true before).1
create-IsAtomic_example = create-IsAtomic (outside false 0) "feat" none true before before-IsQuiet

main_there : has "main" before.branches ≡ true
unfolding has
main_there = refl

create-has_example :
    has "main" (create (outside false 0) "feat" (some "main") true before).1.branches ≡ true
create-has_example =
    create-has (outside false 0) "feat" (some "main") true "main" before (λ h. h) main_there

undone_run : (create (outside false 0) "feat" none true before).1 ≡ before
unfolding create create_in find_by_branch create_branch choose_base branch_exists has current_branch
    is_exit after_base fetch_base after_add added finish persist_or_roll_back persist persist_from
    allocate_ports allocate save_claims claim_all pass_one lookup claim_pin holds port_key contains
    taken_by_others pass_two claim_free first_free claim in_slot_order insert slot_names pins
    make_record track committed add_record roll_back remove_text release without add_pins range
    has_key has_prefix
undone_run = refl
