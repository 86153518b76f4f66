-- ===== src/Reconcile/Changed.antt =====
-- The first phase saves the state file only when a record has changed, and then with what the loop
-- made of all; what a call leaves there in the end.
use lib_python_worktree.Prelude.{
  ℕ, String, ◌≡◌, inl, inr, refl, sym, ap, ◌∙◌, subst, Bool, true, false, ◌&&◌, ◌||◌, not, Option,
  some, List, [], ◌∷◌, arith, eq_iff, str_eq, Bool-cases,
}
use lib_python_worktree.Prelude.Dict.{Dict, lookup, without, without_none}
use lib_python_worktree.Prelude.Lists.{has}
use lib_python_worktree.Store.{WorktreeRecord, Records}
use lib_python_worktree.Reconcile.{
  Outside, is_empty, is_mislabelled, heal_backing, stale_slots, prune_ports, reconcile_record,
  is_changed, reconcile_records, any_changed, save_changed, reconcile,
}
use lib_python_worktree.Reconcile.Healed.{IsHealed, same, set_branch, heal_branches-AllHealed}
use lib_python_worktree.Reconcile.Settled.{IsReconciled, reconcile_record-IsReconciled}
use lib_python_worktree.Reconcile.Stale.{heal_backing-eq, mark_orphaned-eq, sweep_dead-eq, has_nil}

is_empty-eq-true {ℓ} : {A : Type ℓ} (xs : List A) → is_empty xs ≡ true → xs ≡ []
is_empty-eq-true [] e = refl
is_empty-eq-true (x ∷ xs) e = absurd (cc)

none_of :
    (a b c d : Bool)
    → a || b || c || d ≡ false
    → (a ≡ false) × (b ≡ false) × (c ≡ false) × (d ≡ false)
none_of a b c d e = ground arith

not-false : (a : Bool) → not a ≡ false → a ≡ true
not-false a e = ground arith

not-and-false : (a b : Bool) → not a && not b ≡ false → a ≡ false → b ≡ true
not-and-false a b e f = ground arith

or-false : (a b : Bool) → a || b ≡ false → (a ≡ false) × (b ≡ false)
or-false a b e = ground arith

module _ (o : Outside) where
  prune_ports-eq : (r : WorktreeRecord) → stale_slots o r ≡ [] → prune_ports o r ≡ r
  unfolding prune_ports
  prune_ports-eq r e =
      ap (λ (ss : List String). record r { ports = without (λ s. has s ss) r.ports }) e
      ∙ ap (λ (d : Dict ℕ). record r { ports = d })
          (without_none (λ s. has s []) r.ports (λ k _. has_nil k))

  -- A record that the loop does not report as changed is as it was.
  is_changed-eq-false : (r : WorktreeRecord) → is_changed o r ≡ false → reconcile_record o r ≡ r
  unfolding is_changed reconcile_record
  is_changed-eq-false r e =
      let (labelled, fresh, present, living) = none_of _ _ _ _ e in
      let healed = heal_backing-eq o r labelled in
      let pruned = prune_ports-eq (heal_backing o r) (is_empty-eq-true _ (not-false _ fresh)) in
      let start = pruned ∙ healed in
      let marked =
        mark_orphaned-eq o (prune_ports o (heal_backing o r))
          (λ gone. (eq_iff _ "orphaned").0 (not-and-false _ _ present gone)) in
      sweep_dead-eq o _ (is_empty-eq-true _ (not-false _ living)) ∙ marked ∙ start

  unchanged : (rs : Records) → any_changed o rs ≡ false → reconcile_records o rs ≡ rs
  unfolding any_changed reconcile_records
  unchanged [] e = refl
  unchanged ((id, rec) ∷ rs) e =
      let (first, rest) = or-false _ _ e in
      ap (λ (x : WorktreeRecord). (id, x) ∷ reconcile_records o rs) (is_changed-eq-false rec first)
      ∙ ap (λ (xs : Records). (id, rec) ∷ xs) (unchanged rs rest)

  save_changed-eq : (rs : Records) → save_changed o rs ≡ reconcile_records o rs
  unfolding save_changed
  save_changed-eq rs = elim (Bool-cases (any_changed o rs)) [
    | inl e ↦ rw (e, save_changed) refl
    | inr e ↦ rw (e, save_changed) (sym (unchanged rs e))
  ]

  get-reconcile_records :
      (rs : Records) (id : String) (r : WorktreeRecord)
      → lookup id (reconcile_records o rs) ≡ some r
      → (rec : WorktreeRecord) × (lookup id rs ≡ some rec) × (r ≡ reconcile_record o rec)
  unfolding reconcile_records lookup
  get-reconcile_records [] id r e = absurd (cc)
  get-reconcile_records ((j, rec) ∷ rs) id r e = elim (Bool-cases (str_eq j id)) [
    | inl hit ↦ (rec, ground arith, ground arith)
    | inr other ↦
        let (rec', found, made) = get-reconcile_records rs id r (ground arith) in
        (rec', ground arith, made)
  ]

  branch-IsReconciled :
      (r : WorktreeRecord) (branch : Option String)
      → IsReconciled o r
      → IsReconciled o (record r { branch = branch })
  unfolding is_mislabelled
  branch-IsReconciled r branch h = record {
    labelled = h.labelled;
    missing = h.missing;
    living = h.living;
  }

  -- The third phase changes nothing that the first one settles.
  IsHealed-IsReconciled :
      (old new : WorktreeRecord)
      → IsHealed o.healing old new
      → IsReconciled o old
      → IsReconciled o new
  IsHealed-IsReconciled old _ same h = h
  IsHealed-IsReconciled old _ (set_branch healed _) h =
      branch-IsReconciled _ _ (IsHealed-IsReconciled old _ healed h)

  -- Each record that a call leaves in state.yaml is the loop's result for a record that was there
  -- under the same id, but perhaps for its branch: it has been set, if at all, to one of which the
  -- branch before was a wrong decoding. And it is settled: labelled as a primary checkout where it is
  -- one, orphaned where its path is gone, and without a role whose pid is known to be dead.
  pub reconcile-IsReconciled :
      (rs : Records) (allocated : Dict ℕ) (id : String) (r : WorktreeRecord)
      → lookup id (reconcile o rs allocated).0 ≡ some r
      → ((rec : WorktreeRecord) × (lookup id rs ≡ some rec)
          × IsHealed o.healing (reconcile_record o rec) r)
        × IsReconciled o r
  unfolding reconcile
  reconcile-IsReconciled rs allocated id r e =
      let (mid, (there, healed)) =
        heal_branches-AllHealed o.healing (reconcile_records o rs) (save_changed o rs) id r e in
      let (rec, found, made) =
        get-reconcile_records rs id mid (ap (lookup id) (sym (save_changed-eq rs)) ∙ there) in
      (
        (rec, found, subst (λ m. IsHealed o.healing m r) made healed),
        IsHealed-IsReconciled mid r healed
            (subst (IsReconciled o) (sym made) (reconcile_record-IsReconciled o rec)),
      )
