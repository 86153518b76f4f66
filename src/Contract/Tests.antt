-- ===== src/Contract/Tests.antt =====
-- The contract's validators on concrete contracts.
use lib_python_worktree.Prelude.{◌≡◌, ◌↔◌, refl, true, false, none, some, [], ◌∷◌}
use lib_python_worktree.Prelude.Results.{ok, err}
use lib_python_worktree.Prelude.Lists.{contains, has}
use lib_python_worktree.Prelude.Repeats.{repeats}
use lib_python_worktree.Contract.{
  all_ok, at_end, fields_ok, forbid_lists, is_lower, is_slug_tail, is_word,
  isolation_none_forbids_lists, names_of, offenders, pinned_ports_must_be_unique, pins_of, port_ok,
  ports_must_have_unique_names, raise_unless_empty, slot_ok, start_steps_must_have_unique_names,
  step_ok, WorktreeContract, full, isolation_none, validate, is_slug, duplicate_pins,
  forbidden_fields,
}
use lib_python_worktree.Contract.Laws.{IsWellFormed, validate_iff}
use lib_python_worktree.Contract.Newline.{has_line_feed}

abbrev web_db : WorktreeContract
web_db = record {
  version = 1;
  isolation = full;
  setup = [];
  teardown = record { run = "make clean"; name = none; shell = none } ∷ [];
  ports = record { name = "web"; port = none } ∷ record { name = "db"; port = some 8003 } ∷ [];
  start = [];
  stop = [];
  seed_postprocess = [];
}

validate_run : validate web_db ≡ ok web_db
unfolding validate is_slug repeats has contains fields_ok all_ok step_ok slot_ok port_ok
    isolation_none_forbids_lists forbid_lists ports_must_have_unique_names raise_unless_empty
    pinned_ports_must_be_unique pins_of start_steps_must_have_unique_names names_of at_end is_lower
    is_slug_tail is_word offenders
validate_run = refl

validate_refusal :
    validate (record web_db { isolation = isolation_none })
    ≡ err (forbidden_fields ("teardown" ∷ "ports" ∷ []))
unfolding validate fields_ok all_ok step_ok slot_ok is_slug port_ok isolation_none_forbids_lists
    forbid_lists raise_unless_empty offenders
validate_refusal = refl

validate_pins :
    validate (record web_db {
      ports = record { name = "a"; port = some 1 } ∷ record { name = "b"; port = some 1 } ∷ [];
    })
    ≡ err (duplicate_pins (1 ∷ []))
unfolding validate fields_ok all_ok step_ok slot_ok is_slug port_ok isolation_none_forbids_lists
    forbid_lists ports_must_have_unique_names raise_unless_empty repeats has
    pinned_ports_must_be_unique pins_of contains
validate_pins = refl

abbrev bare : WorktreeContract
bare = record web_db { isolation = isolation_none; teardown = []; ports = [] }

validate_iff_example : (validate web_db ≡ ok web_db) ↔ IsWellFormed web_db
validate_iff_example = validate_iff web_db

plain_name : has_line_feed "web" ≡ false
unfolding has_line_feed
plain_name = refl

accepted_name : is_slug "web" ≡ true
unfolding is_slug
accepted_name = refl
