-- ===== src/Reconcile.antt =====
-- core/yaml_store.py, `reconcile`: its first two phases, on the records of state.yaml and on the
-- allocations of ports.yaml; Reconcile.Heal has the third, the branch names.
pub mod Heal
pub mod Healed
pub mod Steps
pub mod Settled
pub mod Stale
pub mod Changed
pub mod Freed
pub mod Honest
mod Tests
use lib_python_worktree.Prelude.{
  ℕ, String, Bool, true, false, Option, none, some, List, [], ◌∷◌, ◌++◌, map, ◌&&◌, ◌||◌, not,
  if◌then◌else◌, str_eq,
}
use lib_python_worktree.Prelude.Dict.{Dict, lookup, without, has_key, keys}
use lib_python_worktree.Prelude.Lists.{has}
use lib_python_worktree.Ports.{port_key, owner_id}
use lib_python_worktree.Store.{WorktreeRecord, Records}
use lib_python_worktree.Reconcile.Heal.{Healing, heal_branches}

-- What `reconcile` sees of the outside, fixed for a call: `Path(p).exists()`, whether two paths
-- resolve to one, `_pid_status(pid, expected_start_time)`, the caller's `declared_slots`, and what the
-- third phase sees.
pub record Outside : Type 0 where
  pub exists : String → Bool
  pub same_path : String → String → Bool
  pub pid_status : ℕ → Option ℕ → Option Bool
  pub declared_slots : Option (String → Option (List String))
  pub healing : Healing

abbrev pub is_empty {ℓ} : {A : Type ℓ} → List A → Bool
is_empty [] = true
is_empty (_ ∷ _) = false

-- `verdict is False`
unfoldable pub is_false : Option Bool → Bool
is_false none = false
is_false (some b) = not b

-- `[s for s in names if s not in current]`, in the order of the record's dict.
unfoldable pub undeclared : List String → List String → List String
undeclared current [] = []
undeclared current (s ∷ ss) =
    let rest = undeclared current ss in if has s current then rest else s ∷ rest

module _ (o : Outside) where
  -- A primary checkout that is not recorded as one.
  unfoldable pub is_mislabelled : WorktreeRecord → Bool
  is_mislabelled rec = not (str_eq rec.backing "primary") && o.same_path rec.path rec.repo_root

  unfoldable pub heal_backing : WorktreeRecord → WorktreeRecord
  heal_backing rec = if is_mislabelled rec then record rec { backing = "primary" } else rec

  -- `declared_slots(rec.repo_root)`; `none` where nothing is known.
  unfoldable pub declared : WorktreeRecord → Option (List String)
  declared rec = elim o.declared_slots [ none ↦ none | some slots_of ↦ slots_of rec.repo_root ]

  -- `set(rec.ports) - set(current)`, for a record without a tracked pid.
  unfoldable pub stale_slots : WorktreeRecord → List String
  stale_slots rec =
      if is_empty rec.pids
      then elim (declared rec) [ none ↦ [] | some current ↦ undeclared current (keys rec.ports) ]
      else []

  unfoldable pub prune_ports : WorktreeRecord → WorktreeRecord
  prune_ports rec = record rec { ports = without (λ s. has s (stale_slots rec)) rec.ports }

  unfoldable pub mark_orphaned : WorktreeRecord → WorktreeRecord
  mark_orphaned rec =
      if o.exists rec.path
      then rec
      else if str_eq rec.status "orphaned"
      then rec
      else record rec { status = "orphaned"; stop_detail = none }

  -- The roles whose pid is dead or belongs to another process.
  unfoldable pub dead_roles : Dict ℕ → Dict ℕ → List String
  dead_roles start_times [] = []
  dead_roles start_times ((role, pid) ∷ pids) =
      let rest = dead_roles start_times pids in
      if is_false (o.pid_status pid (lookup role start_times)) then role ∷ rest else rest

  -- `if rec.status not in ("orphaned", "stop_incomplete")`
  unfoldable pub mark_stopped : WorktreeRecord → WorktreeRecord
  mark_stopped rec =
      if str_eq rec.status "orphaned" || str_eq rec.status "stop_incomplete"
      then rec
      else record rec { status = "stopped"; stop_detail = none }

  -- The body of the loop over the dead roles.
  unfoldable pub sweep_role : String → WorktreeRecord → WorktreeRecord
  unfolding mark_stopped
  sweep_role role rec = mark_stopped (record rec {
    pids = without (str_eq role) rec.pids;
    variants = without (str_eq role) rec.variants;
    start_times = without (str_eq role) rec.start_times;
  })

  unfoldable pub sweep_roles : List String → WorktreeRecord → WorktreeRecord
  sweep_roles [] rec = rec
  sweep_roles (role ∷ roles) rec = sweep_roles roles (sweep_role role rec)

  unfoldable pub sweep_dead : WorktreeRecord → WorktreeRecord
  sweep_dead rec = sweep_roles (dead_roles rec.start_times rec.pids) rec

  -- The body of the loop over the records.
  unfoldable pub reconcile_record : WorktreeRecord → WorktreeRecord
  reconcile_record rec = sweep_dead (mark_orphaned (prune_ports (heal_backing rec)))

  -- The loop has changed something of the record.
  unfoldable pub is_changed : WorktreeRecord → Bool
  is_changed rec =
      let pruned = prune_ports (heal_backing rec) in
      let marked = mark_orphaned pruned in
      is_mislabelled rec
      || not (is_empty (stale_slots (heal_backing rec)))
      || (not (o.exists pruned.path) && not (str_eq pruned.status "orphaned"))
      || not (is_empty (dead_roles marked.start_times marked.pids))

  -- The loop over the records.
  unfoldable pub reconcile_records : Records → Records
  reconcile_records [] = []
  reconcile_records ((id, rec) ∷ rs) = (id, reconcile_record rec) ∷ reconcile_records rs

  unfoldable pub any_changed : Records → Bool
  any_changed [] = false
  any_changed ((_, rec) ∷ rs) = is_changed rec || any_changed rs

  -- `if changed: store._save_state(records)`
  unfoldable pub save_changed : Records → Records
  save_changed rs = if any_changed rs then reconcile_records rs else rs

  -- `stale_port_keys`
  unfoldable pub stale_port_keys : Records → List String
  stale_port_keys [] = []
  stale_port_keys ((id, rec) ∷ rs) =
      map (port_key id) (stale_slots (heal_backing rec)) ++ stale_port_keys rs

  -- `to_free`: the keys whose owner is not tracked, then the stale keys of tracked records.
  unfoldable pub is_unowned : Records → String → Bool
  is_unowned rs key = not (has_key (owner_id key) rs)

  unfoldable pub unowned : Records → List String → List String
  unowned rs [] = []
  unowned rs (k ∷ ks) = let rest = unowned rs ks in if is_unowned rs k then k ∷ rest else rest

  unfoldable pub add_stale : Dict ℕ → List String → List String → List String
  add_stale allocated [] to_free = to_free
  add_stale allocated (k ∷ ks) to_free =
      add_stale allocated ks
        (if has_key k allocated && not (has k to_free) then to_free ++ k ∷ [] else to_free)

  unfoldable pub to_free : Records → Dict ℕ → List String
  to_free rs allocated = add_stale allocated (stale_port_keys rs) (unowned rs (keys allocated))

  -- What the call leaves: state.yaml, ports.yaml, and `freed_ports` of the report. The third phase finds
  -- in state.yaml what the first one has left there.
  unfoldable pub reconcile : Records → Dict ℕ → Records × (Dict ℕ × List String)
  reconcile rs allocated = (
    heal_branches o.healing (reconcile_records rs) (save_changed rs),
    (without (λ k. has k (to_free rs allocated)) allocated, to_free rs allocated),
  )
