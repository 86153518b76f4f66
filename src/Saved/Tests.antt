-- ===== src/Saved/Tests.antt =====
-- Records and files as YAML has them.
use lib_python_worktree.Prelude.{ℕ, Bool, ◌≡◌, refl, true, Option, none, some, [], ◌∷◌, ◌==◌, arith}
use lib_python_worktree.Prelude.Int.{pos, negsuc}
use lib_python_worktree.Prelude.Results.{ok, err}
use lib_python_worktree.Prelude.Texts.{has_char, char_count, replace_char}
use lib_python_worktree.Store.{WorktreeRecord, new_record}
use lib_python_worktree.Store
use lib_python_worktree.Saved.Values.{
  Value, null, bool, float, not_finite, text, Entries, end, entry, missing_key, required, get,
  as_text, or_default, optional,
}
use lib_python_worktree.Saved.Records.{
  record_to_dict, record_from_dict, time_entries, time_of, dict_or_empty, unless_empty, flag,
  start_log_paths_from_dict, start_times_from_dict,
}
use lib_python_worktree.Saved.Roundtrip.{IsSaved, record_roundtrip}
use lib_python_worktree.Saved.Stable.{record_from_dict_again}
use lib_python_worktree.Saved.Files.{
  File, load_state, state_to_value, yaml_add, yaml_update, yaml_remove,
}
use lib_python_worktree.Saved.Refined.{Refines, load_state-state_to_value, yaml_store-Refines}

abbrev is_zero : ℕ → Bool
is_zero x = x == 0

abbrev no_float : Value → Option ℕ
no_float v = none

abbrev stuck : WorktreeRecord
stuck = record (new_record "wt-a" "/repo" (some "feature") "/wt/a") {
  status = "stop_incomplete";
  ports = ("web", 8000) ∷ [];
  pids = ("web", 41) ∷ [];
  returncode = some (negsuc 8);
  start_times = ("web", 7) ∷ [];
  stop_detail = some (record {
    reason = "survivors";
    message = "one process survived";
    role = some "web";
    survivor_pids = 41 ∷ [];
    survivor_count = 1;
    truncated_at = none;
    skipped_passes = [];
    kill_orphans_may_help = true;
  });
  base_fetch_fallback = some (record {
    reason = "fetch_failed";
    base = "main";
    message = "git fetch failed";
    returncode = some (pos 128);
    stderr = some "fatal";
    elapsed_sec = none;
  });
  start_variants = "dev" ∷ [];
}

stuck-IsSaved : IsSaved is_zero no_float stuck
unfolding has_char char_count
stuck-IsSaved = record { repo_root = refl; path = refl; pids = omega arith; stderr = omega arith }

record_roundtrip_example :
    record_from_dict is_zero no_float (record_to_dict stuck)
    ≡ ok (record stuck { start_variants = [] })
record_roundtrip_example = record_roundtrip is_zero no_float stuck stuck-IsSaved

-- A record of an older engine, with backslashes.
abbrev legacy : Entries
legacy = entry (text "id") (text "wt-b") (
    entry (text "repo_root") (text "C:\\repo")
      (entry (text "path") (text "C:\\wt") (entry (text "start_times") null end)))

abbrev loaded : WorktreeRecord
loaded = new_record "wt-b" "C:/repo" none "C:/wt"

legacy_read : record_from_dict is_zero no_float legacy ≡ ok loaded
unfolding record_from_dict required get as_text optional or_default dict_or_empty unless_empty
    replace_char flag start_log_paths_from_dict start_times_from_dict
legacy_read = refl

record_from_dict_again_example :
    record_from_dict is_zero no_float (record_to_dict loaded) ≡ ok loaded
record_from_dict_again_example = record_from_dict_again is_zero no_float legacy loaded legacy_read

no_id : record_from_dict is_zero no_float end ≡ err (missing_key "id")
unfolding record_from_dict required get
no_id = refl

-- A Boolean, `nan` and a key that is no text are dropped.
times :
    time_entries is_zero no_float (
      entry
        (text "a")
        (float 7)
        (entry (text "b") (bool true) (entry (text "c") not_finite (entry null (float 8) end))))
    ≡ ("a", 7) ∷ []
unfolding time_entries time_of
times = refl

abbrev saved_one : File
saved_one = some (state_to_value (("wt-b", loaded) ∷ []))

saved_one_loads : load_state is_zero no_float saved_one ≡ ok (("wt-b", loaded) ∷ [])
saved_one_loads =
    load_state-state_to_value is_zero no_float (("wt-b", loaded) ∷ [])
      (record_from_dict_again_example, tt)

yaml_store-Refines_example :
    Refines is_zero no_float true saved_one
      (yaml_add is_zero no_float true loaded saved_one)
      (Store.add loaded (("wt-b", loaded) ∷ []))
    × Refines is_zero no_float true saved_one
        (yaml_update is_zero no_float true loaded saved_one)
        (Store.update loaded (("wt-b", loaded) ∷ []))
    × Refines is_zero no_float true saved_one
        (yaml_remove is_zero no_float true "wt-b" saved_one)
        (let (popped, rest) = Store.remove "wt-b" (("wt-b", loaded) ∷ []) in (ok popped, rest))
yaml_store-Refines_example =
    yaml_store-Refines is_zero no_float true saved_one (("wt-b", loaded) ∷ []) loaded "wt-b"
      saved_one_loads record_from_dict_again_example
