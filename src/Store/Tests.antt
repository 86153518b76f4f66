-- ===== src/Store/Tests.antt =====
-- The store on concrete records.
use lib_python_worktree.Prelude.{◌≡◌, refl, some, [], ◌∷◌}
use lib_python_worktree.Prelude.Results.{err}
use lib_python_worktree.Prelude.Dict.{lookup, has_key}
use lib_python_worktree.Store.{WorktreeRecord, new_record, Records, add, already_tracked}

abbrev feature : WorktreeRecord
feature = record (new_record "wt-a" "/repo" (some "feature") "/wt/a") { ports = ("web", 8000) ∷ [] }

abbrev one_record : Records
one_record = ("wt-a", feature) ∷ []

add_twice : add feature one_record ≡ (err (already_tracked "wt-a"), one_record)
unfolding add has_key lookup
add_twice = refl
