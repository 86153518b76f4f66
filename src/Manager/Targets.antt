-- ===== src/Manager/Targets.antt =====
-- core/manager.py: `_resolve_target` and `_resolve_removal_target`, which find the record that an id
-- or the path of a checkout means, with `list_repo` of the manager. pathlib and git are parameters;
-- `depth` is the number of the parts of a path.
use lib_python_worktree.Prelude.{
  ℕ, String, Bool, true, Option, none, some, List, [], ◌∷◌, ◌&&◌, ◌||◌, ltb, if◌then◌else◌, str_eq,
}
use lib_python_worktree.Prelude.Results.{Result, ok, err}
use lib_python_worktree.Store.{WorktreeRecord, Records, StoreError, new_record, get, list, add}
use lib_python_worktree.Checkout.{CheckoutInfo, ListError, Paths, classify_checkout}

-- `CheckoutTargetError` by its reason, `WorktreeNotFoundError`, `PrimaryCheckoutError`, and what the
-- classification, the listing and the store raise.
pub data TargetError : Type 0 where
  missing not_found : TargetError
  id_mismatch primary_checkout : (id : String) → TargetError
  no_listing : ListError → TargetError
  not_stored : StoreError → TargetError

module _ {A : Type 0} (key : A → ℕ) (passes : A → Bool) where
  -- `key(x) > best_depth`, which is -1 before anything is found.
  unfoldable pub is_deeper : A → Option A → Bool
  is_deeper x none = true
  is_deeper x (some best) = ltb (key best) (key x)

  -- The first entry with the greatest key among those that pass.
  unfoldable pub deepest : Option A → List A → Option A
  deepest best [] = best
  deepest best (x ∷ xs) = deepest (if passes x && is_deeper x best then some x else best) xs

-- `worktree_id is not None and resolved_id is not None and resolved_id != worktree_id`
unfoldable pub mismatch : Option String → Option String → Option String
mismatch (some id) (some resolved) = if str_eq resolved id then none else some resolved
mismatch _ _ = none

unfoldable pub added_record :
    WorktreeRecord
    → Result StoreError (Unit {0}) × Records
    → Result TargetError WorktreeRecord × Records
added_record rec (ok _, rs) = (ok rec, rs)
added_record rec (err e, rs) = (err (not_stored e), rs)

unfoldable pub resolve_id : Option String → Records → Result TargetError WorktreeRecord
resolve_id none rs = err missing
resolve_id (some id) rs = elim (get id rs) [ none ↦ err not_found | some rec ↦ ok rec ]

unfoldable pub unless_mismatched :
    Option String
    → Records
    → Result TargetError WorktreeRecord × Records
    → Result TargetError WorktreeRecord × Records
unless_mismatched (some resolved) rs rest = (err (id_mismatch resolved), rs)
unless_mismatched none rs rest = rest

module _ (o : Paths) (depth : String → ℕ) where
  -- The record is one of the repository's linked worktrees, and its path contains that of the
  -- checkout.
  unfoldable pub encloses : CheckoutInfo → WorktreeRecord → Bool
  encloses info rec =
      str_eq rec.backing "worktree"
      && str_eq rec.repo_root info.repo_root
      && (str_eq (o.resolve rec.path) info.checkout_path
          || o.contains (o.resolve rec.path) info.checkout_path)

  unfoldable pub existing_record : CheckoutInfo → Records → Option WorktreeRecord
  existing_record info rs =
      if str_eq info.backing "primary"
      then get (o.primary_id info.repo_root) rs
      else deepest (λ rec. depth (o.resolve rec.path)) (encloses info) none (list rs)

  unfoldable pub resolved_id : CheckoutInfo → Option WorktreeRecord → Option String
  resolved_id info existing =
      if str_eq info.backing "primary"
      then some (o.primary_id info.repo_root)
      else elim existing [ none ↦ none | some rec ↦ some rec.id ]

  unfoldable pub primary_record : CheckoutInfo → WorktreeRecord
  primary_record info =
      record (new_record (o.primary_id info.repo_root) info.repo_root none info.repo_root) {
        backing = "primary";
      }

  -- Behind the test of the ids.
  unfoldable pub existing_or_new :
      (materialise : Bool)
      → CheckoutInfo
      → Option WorktreeRecord
      → Records
      → Result TargetError WorktreeRecord × Records
  existing_or_new materialise info (some rec) rs = (ok rec, rs)
  existing_or_new materialise info none rs =
      if str_eq info.backing "primary" && materialise
      then added_record (primary_record info) (add (primary_record info) rs)
      else (err not_found, rs)

  -- Behind `classify_checkout`.
  unfoldable pub resolve_checkout :
      Option String
      → (materialise : Bool) → Records
      → CheckoutInfo
      → Result TargetError WorktreeRecord × Records
  resolve_checkout id materialise rs info =
      let existing = existing_record info rs in
      unless_mismatched (mismatch id (resolved_id info existing)) rs
        (existing_or_new materialise info existing rs)

  unfoldable pub resolve_classified :
      Option String
      → (materialise : Bool) → Records
      → Result ListError CheckoutInfo
      → Result TargetError WorktreeRecord × Records
  resolve_classified id materialise rs (err e) = (err (no_listing e), rs)
  resolve_classified id materialise rs (ok info) = resolve_checkout id materialise rs info

  -- `_resolve_target(worktree_id, checkout_path, materialise=materialise)`
  unfoldable pub resolve_target :
      (id checkout_path : Option String)
      → (materialise : Bool) → Records
      → Result TargetError WorktreeRecord × Records
  resolve_target id none materialise rs = (resolve_id id rs, rs)
  resolve_target id (some path) materialise rs =
      resolve_classified id materialise rs (classify_checkout o path)
