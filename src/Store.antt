-- ===== src/Store.antt =====
-- core/state.py and core/yaml_store.py: the store of worktree records. `InMemoryStateStore` changes
-- its dict in place; `YamlStateStore` loads the dict from state.yaml, changes it and saves it under
-- the file's lock, so that one call is one step on the same dict.
mod Record
pub mod Invariants
pub mod Branches
mod Tests
pub use Record.{StopDetail, SetupOutcome, BaseFetchFallback, WorktreeRecord, new_record}
use lib_python_worktree.Prelude.{
  String, Bool, true, false, Option, none, some, List, [], ◌∷◌, ◌&&◌, not, if◌then◌else◌, str_eq,
}
use lib_python_worktree.Prelude.Results.{Result, ok, err}
use lib_python_worktree.Prelude.Dict.{Dict, lookup, insert, without, has_key}

abbrev pub Records : Type 0
Records = Dict WorktreeRecord

-- The `ValueError` of `add` and the `KeyError` of `update`.
pub data StoreError : Type 0 where
  already_tracked : (id : String) → StoreError
  not_tracked : (id : String) → StoreError

unfoldable pub add : WorktreeRecord → Records → Result StoreError (Unit {0}) × Records
add rec rs =
    if has_key rec.id rs then (err (already_tracked rec.id), rs) else (ok tt, insert rec.id rec rs)

unfoldable pub get : String → Records → Option WorktreeRecord
get id rs = lookup id rs

-- `records.pop(worktree_id, None)`
unfoldable pub remove : String → Records → Option WorktreeRecord × Records
remove id rs = (lookup id rs, without (str_eq id) rs)

-- `list(records.values())`
unfoldable pub list : Records → List WorktreeRecord
list [] = []
list ((_, rec) ∷ rs) = rec ∷ list rs

-- `rec.branch == branch`
unfoldable pub is_branch : Option String → String → Bool
is_branch none branch = false
is_branch (some b) branch = str_eq b branch

-- A record that is not the primary checkout, of that repository and on that branch.
unfoldable pub matches : String → String → WorktreeRecord → Bool
matches repo_root branch rec =
    not (str_eq rec.backing "primary")
    && str_eq rec.repo_root repo_root
    && is_branch rec.branch branch

unfoldable pub find_by_branch : String → String → Records → Option WorktreeRecord
find_by_branch repo_root branch [] = none
find_by_branch repo_root branch ((_, rec) ∷ rs) =
    if matches repo_root branch rec then some rec else find_by_branch repo_root branch rs

unfoldable pub update : WorktreeRecord → Records → Result StoreError (Unit {0}) × Records
update rec rs =
    if has_key rec.id rs then (ok tt, insert rec.id rec rs) else (err (not_tracked rec.id), rs)
