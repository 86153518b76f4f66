-- ===== src/Reconcile/Stale.antt =====
-- Passes of `reconcile` over a record that a pass has settled.
use lib_python_worktree.Prelude.{
  ℕ, String, ◌≡◌, inl, inr, refl, sym, ap, ◌∙◌, true, false, ◌&&◌, not, List, [], ◌∷◌, arith,
  eq_iff, eq_refl, str_eq, Bool-cases, Option-cases,
}
use lib_python_worktree.Prelude.Dict.{
  Dict, without, has_key, keys, lookup-without, without_none, has-keys,
}
use lib_python_worktree.Prelude.Lists.{has}
use lib_python_worktree.Store.{WorktreeRecord}
use lib_python_worktree.Reconcile.{
  Outside, is_empty, is_mislabelled, heal_backing, declared, stale_slots, undeclared, prune_ports,
  mark_orphaned, dead_roles, sweep_roles, sweep_dead, reconcile_record,
}
use lib_python_worktree.Reconcile.Settled.{IsReconciled, reconcile_record-IsReconciled}

pub has-undeclared :
    (current : List String) (s : String) (ss : List String)
    → has s (undeclared current ss) ≡ (has s ss && not (has s current))
unfolding undeclared has
has-undeclared current s [] = refl
has-undeclared current s (t ∷ ts) = elim (Bool-cases (str_eq s t)) [
  | inl e ↦
      let same : s ≡ t = ground (arith, eq_iff s t) in
      rw same (ground (arith, has-undeclared current t ts, eq_refl t))
  | inr e ↦ ground (arith, has-undeclared current s ts)
]

pub has_nil : (s : String) → has s [] ≡ false
unfolding has
has_nil s = refl

pruned-declared :
    (current stale : List String) (ports : Dict ℕ) (s : String)
    → stale ≡ undeclared current (keys ports)
    → has s (keys (without (λ k. has k stale) ports)) ≡ true
    → has s (undeclared current (keys (without (λ k. has k stale) ports))) ≡ false
unfolding has_key
pruned-declared current stale ports s e m =
    let p = λ (k : String). has k stale in
    let known : has s stale ≡ (has s (keys ports) && not (has s current)) =
      ap (has s) e ∙ has-undeclared current s (keys ports) in
    ground (
      arith,
      has-undeclared current s (keys (without p ports)),
      has-keys s (without p ports),
      has-keys s ports,
      lookup-without p s ports,
    )

module _ (o : Outside) where
  -- A slot that pruning has left is not stale.
  stale_slots-pruned :
      (r : WorktreeRecord) (s : String)
      → has s (keys (prune_ports o r).ports) ≡ true
      → has s (stale_slots o (prune_ports o r)) ≡ false
  unfolding stale_slots prune_ports declared
  stale_slots-pruned r s m = elim (Bool-cases (is_empty r.pids)) [
    | inr some_pid ↦ rw (some_pid, stale_slots) (has_nil s)
    | inl no_pid ↦ elim (Option-cases (declared o r)) [
      | inl e ↦ rw (no_pid, e, stale_slots) (has_nil s)
      | inr (current, e) ↦
          rw (no_pid, e, stale_slots)
            (pruned-declared current (stale_slots o r) r.ports s (rw (no_pid, e, stale_slots) refl)
              m)
    ]
  ]

  prune_twice : (r : WorktreeRecord) → prune_ports o (prune_ports o r) ≡ prune_ports o r
  unfolding prune_ports
  prune_twice r =
      ap (λ d. record r { ports = d })
        (without_none (λ s. has s (stale_slots o (prune_ports o r))) (prune_ports o r).ports
          (stale_slots-pruned r))

  pub heal_backing-eq : (r : WorktreeRecord) → is_mislabelled o r ≡ false → heal_backing o r ≡ r
  unfolding heal_backing
  heal_backing-eq r e = rw (e, heal_backing) refl

  pub mark_orphaned-eq :
      (r : WorktreeRecord)
      → (o.exists r.path ≡ false → r.status ≡ "orphaned")
      → mark_orphaned o r ≡ r
  unfolding mark_orphaned
  mark_orphaned-eq r h = elim (Bool-cases (o.exists r.path)) [
    | inl e ↦ rw (e, mark_orphaned) refl
    | inr e ↦ ground (arith, h e, eq_iff r.status "orphaned")
  ]

  pub sweep_dead-eq :
      (r : WorktreeRecord) → dead_roles o r.start_times r.pids ≡ [] → sweep_dead o r ≡ r
  unfolding sweep_dead sweep_roles
  sweep_dead-eq r e = ap (λ ds. sweep_roles o ds r) e

  pruned_missing :
      (r : WorktreeRecord)
      → IsReconciled o r
      → o.exists (prune_ports o r).path ≡ false
      → (prune_ports o r).status ≡ "orphaned"
  unfolding prune_ports
  pruned_missing r q = q.missing

  pruned_living :
      (r : WorktreeRecord)
      → IsReconciled o r
      → dead_roles o (prune_ports o r).start_times (prune_ports o r).pids ≡ []
  unfolding prune_ports
  pruned_living r q = q.living

  -- A pass over a settled record only prunes its ports.
  reconcile_record-settled :
      (r : WorktreeRecord) → IsReconciled o r → reconcile_record o r ≡ prune_ports o r
  unfolding reconcile_record
  reconcile_record-settled r q =
      ap (λ x. sweep_dead o (mark_orphaned o (prune_ports o x))) (heal_backing-eq r q.labelled)
      ∙ ap (sweep_dead o) (mark_orphaned-eq (prune_ports o r) (pruned_missing r q))
      ∙ sweep_dead-eq (prune_ports o r) (pruned_living r q)

  prune_ports-IsReconciled :
      (r : WorktreeRecord) → IsReconciled o r → IsReconciled o (prune_ports o r)
  unfolding prune_ports is_mislabelled
  prune_ports-IsReconciled r q = record {
    labelled = q.labelled;
    missing = q.missing;
    living = q.living;
  }

  -- A third pass of `reconcile` over a record, with the outside unchanged, changes nothing.
  pub reconcile_record_thrice :
      (r : WorktreeRecord)
      → reconcile_record o (reconcile_record o (reconcile_record o r))
        ≡ reconcile_record o (reconcile_record o r)
  reconcile_record_thrice r =
      let a = reconcile_record o r in
      let q = reconcile_record-IsReconciled o r in
      let second = reconcile_record-settled a q in
      ap (reconcile_record o) second
      ∙ reconcile_record-settled (prune_ports o a) (prune_ports-IsReconciled a q)
      ∙ prune_twice a
      ∙ sym second
