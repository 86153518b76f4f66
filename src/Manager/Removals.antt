-- ===== src/Manager/Removals.antt =====
-- core/manager.py: `_resolve_removal_target`, with the listing of the manager that it falls back to.
use lib_python_worktree.Prelude.{
  ℕ, String, Bool, true, false, Option, none, some, List, if◌then◌else◌, str_eq,
}
use lib_python_worktree.Prelude.Results.{Result, ok, err}
use lib_python_worktree.Prelude.Dict.{Dict}
use lib_python_worktree.Store.{WorktreeRecord, Records, list}
use lib_python_worktree.Checkout.{EnvironmentEntry, RepoListing, ListError, Paths, list_repo}
use lib_python_worktree.Reconcile
use lib_python_worktree.Manager.Targets.{
  TargetError, not_found, id_mismatch, primary_checkout, no_listing, deepest, mismatch, resolve_id,
  resolve_target,
}

-- The records of state.yaml and the allocations of ports.yaml.
pub record Stored : Type 0 where
  pub records : Records
  pub allocated : Dict ℕ

unfoldable pub removable :
    Option String → EnvironmentEntry → Result TargetError (WorktreeRecord × Bool)
removable id e =
    if str_eq e.rec.backing "primary"
    then err (primary_checkout e.rec.id)
    else elim (mismatch id (some e.rec.id)) [
      | some resolved ↦ err (id_mismatch resolved)
      | none ↦ ok (e.rec, e.tracked)
    ]

unfoldable pub as_tracked :
    Result TargetError WorktreeRecord → Result TargetError (WorktreeRecord × Bool)
as_tracked (ok rec) = ok (rec, true)
as_tracked (err e) = err e

unfoldable pub if_any :
    Option String → Option EnvironmentEntry → Result TargetError (WorktreeRecord × Bool)
if_any id none = err not_found
if_any id (some e) = removable id e

-- `reconciles` tells whether the store is one of YAML files and the manager may reconcile it.
module _ (o : Paths) (depth : String → ℕ) (reconciles : Bool) (seen : Reconcile.Outside) where
  -- The store behind `_list_reconciled`.
  unfoldable pub reconciled : Stored → Stored
  reconciled s =
      if reconciles
      then (let (rs, (ports, _)) = Reconcile.reconcile seen s.records s.allocated in
          record { records = rs; allocated = ports })
      else s

  -- `self.list_repo(path)`
  unfoldable pub list_reconciled_repo : String → Stored → Result ListError RepoListing × Stored
  list_reconciled_repo path s = let s' = reconciled s in (list_repo o path (list s'.records), s')

  -- The entry that is current and has the longest path.
  unfoldable pub current_entry : List EnvironmentEntry → Option EnvironmentEntry
  current_entry es = deepest (λ e. depth e.rec.path) (λ e. e.is_current) none es

  unfoldable pub of_listing :
      Option String → Result ListError RepoListing → Result TargetError (WorktreeRecord × Bool)
  of_listing id (err e) = err (no_listing e)
  of_listing id (ok l) = if_any id (current_entry l.entries)

  unfoldable pub list_target :
      Option String → String → Stored → Result TargetError (WorktreeRecord × Bool) × Stored
  list_target id path s =
      let (listing, s') = list_reconciled_repo path s in (of_listing id listing, s')

  -- `return record, True`, and the fallback of the one exception that is caught.
  unfoldable pub or_listed :
      Option String
      → String
      → Stored
      → Result TargetError WorktreeRecord
      → Result TargetError (WorktreeRecord × Bool) × Stored
  or_listed id path s (ok rec) = (ok (rec, true), s)
  or_listed id path s (err not_found) = list_target id path s
  or_listed id path s (err e) = (err e, s)

  -- `_resolve_removal_target(worktree_id, checkout_path)`
  unfoldable pub resolve_removal_target :
      (id checkout_path : Option String)
      → Stored
      → Result TargetError (WorktreeRecord × Bool) × Stored
  resolve_removal_target id none s = (as_tracked (resolve_id id s.records), s)
  resolve_removal_target id (some path) s =
      let (target, rs) = resolve_target o depth id (some path) false s.records in
      or_listed id path (record s { records = rs }) target
