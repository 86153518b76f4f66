-- ===== src/Manager/Again.antt =====
-- A target is found among the linked worktrees by its path, and found again.
use lib_python_worktree.Prelude.{
  ℕ, String, ◌≡◌, ◌⊎◌, inl, inr, refl, sym, ap, ◌∙◌, Bool, true, false, Option, none, some, ◌&&◌,
  str_eq, arith, eq_refl, Bool-cases,
}
use lib_python_worktree.Prelude.Results.{Result, ok, err}
use lib_python_worktree.Prelude.Dict.{insert, lookup, lookup-insert}
use lib_python_worktree.Store.{WorktreeRecord, Records, get, list}
use lib_python_worktree.Checkout.{CheckoutInfo, ListError, Paths, classify_checkout}
use lib_python_worktree.Manager.Targets
use lib_python_worktree.Manager.Resolved.{IsDeepest, deepest-IsDeepest, add-absent}

module _ (o : Paths) (depth : String → ℕ) (info : CheckoutInfo) where
  -- The record is the new one, and is inserted.
  abbrev New : (rs rs' : Records) → (rec new : WorktreeRecord) → Type 0
  New rs rs' rec new = (rec ≡ new) × (rs' ≡ insert new.id new rs)

  -- Where a record that is returned comes from: it was there, or it is new.
  abbrev Found : (materialise : Bool) → (rs rs' : Records) → WorktreeRecord → Type 0
  Found materialise rs rs' rec =
      ((Targets.existing_record o depth info rs ≡ some rec) × (rs' ≡ rs))
      ⊎ ((Targets.existing_record o depth info rs ≡ none)
          × (str_eq info.backing "primary" ≡ true)
          × New rs rs' rec (Targets.primary_record o depth info))

  existing_or_new-eq-ok :
      (materialise : Bool) (rs rs' : Records) (rec : WorktreeRecord)
      (existing : Option WorktreeRecord)
      → Targets.existing_record o depth info rs ≡ existing
      → Targets.existing_or_new o depth materialise info existing rs ≡ (ok rec, rs')
      → Found materialise rs rs' rec
  unfolding Targets.existing_or_new Targets.added_record Targets.existing_record
      Targets.primary_record
  existing_or_new-eq-ok materialise rs rs' rec (some r) e h =
      let same : r ≡ rec = cc in inl (e ∙ ap some same, cc)
  existing_or_new-eq-ok materialise rs rs' rec none e h =
      elim (Bool-cases (str_eq info.backing "primary" && materialise)) [
        | inr q ↦ absurd (cc (rw q at h))
        | inl q ↦
            let is_primary : str_eq info.backing "primary" ≡ true = ground (arith, q) in
            let new = Targets.primary_record o depth info in
            let added = ap (Targets.added_record new) (add-absent new rs (rw is_primary at e)) in
            inr (e, is_primary, new_is (sym added ∙ rw q at h))
      ]
    where
      new_is :
          {new : WorktreeRecord} {rs'' : Records}
          → (let x : Result Targets.TargetError WorktreeRecord × Records = (ok new, rs'') in x)
            ≡ (ok rec, rs')
          → (rec ≡ new) × (rs' ≡ rs'')
      new_is q = (cc, cc)

  resolve_checkout-eq-ok :
      (id : Option String) (materialise : Bool) (rs rs' : Records) (rec : WorktreeRecord)
      → Targets.resolve_checkout o depth id materialise rs info ≡ (ok rec, rs')
      → (Targets.mismatch id
            (Targets.resolved_id o depth info (Targets.existing_record o depth info rs))
          ≡ none)
        × Found materialise rs rs' rec
  unfolding Targets.resolve_checkout Targets.unless_mismatched
  resolve_checkout-eq-ok id materialise rs rs' rec h =
      let (m, rest) = matched _ _ h in (m, existing_or_new-eq-ok materialise rs rs' rec _ refl rest)
    where
      matched :
          (m : Option String) (rest : Result Targets.TargetError WorktreeRecord × Records)
          → Targets.unless_mismatched m rs rest ≡ (ok rec, rs')
          → (m ≡ none) × (rest ≡ (ok rec, rs'))
      matched none rest h = (refl, h)
      matched (some resolved) rest h = absurd (cc h)

  -- On a store with the record, the same record is found, and nothing is changed.
  existing-resolve_checkout :
      (id : Option String) (materialise : Bool) (rs : Records) (rec : WorktreeRecord)
      → Targets.existing_record o depth info rs ≡ some rec
      → Targets.mismatch id (Targets.resolved_id o depth info (some rec)) ≡ none
      → Targets.resolve_checkout o depth id materialise rs info ≡ (ok rec, rs)
  unfolding Targets.resolve_checkout Targets.existing_or_new Targets.unless_mismatched
  existing-resolve_checkout id materialise rs rec h m = rw (h, m) refl

  resolve_checkout_again :
      (id : Option String) (materialise : Bool) (rs rs' : Records) (rec : WorktreeRecord)
      → Targets.resolve_checkout o depth id materialise rs info ≡ (ok rec, rs')
      → (m : Bool) → Targets.resolve_checkout o depth id m rs' info ≡ (ok rec, rs')
  unfolding Targets.existing_record Targets.resolved_id Targets.primary_record get
  resolve_checkout_again id materialise rs rs' rec h m =
      let (matched, found) = resolve_checkout-eq-ok id materialise rs rs' rec h in
      elim found [
        | inl (e, same) ↦ rw same (existing-resolve_checkout id m rs rec e (rw e at matched))
        | inr (e, is_primary, (new, inserted)) ↦
            existing-resolve_checkout id m rs' rec (rw is_primary (there new inserted))
              (rw is_primary (rw is_primary at matched))
      ]
    where
      there :
          {new : WorktreeRecord}
          → rec ≡ new
          → rs' ≡ insert new.id new rs
          → lookup new.id rs' ≡ some rec
      there {new} same inserted =
          rw (inserted, same) (ground (arith, lookup-insert new.id new.id new rs, eq_refl new.id))

module _ (o : Paths) (depth : String → ℕ) where
  classified-resolve_target :
      (id : Option String) (path : String) (materialise : Bool) (rs : Records) (info : CheckoutInfo)
      → classify_checkout o path ≡ ok info
      → Targets.resolve_target o depth id (some path) materialise rs
        ≡ Targets.resolve_checkout o depth id materialise rs info
  unfolding Targets.resolve_target Targets.resolve_classified
  classified-resolve_target id path materialise rs info c =
      ap (Targets.resolve_classified o depth id materialise rs) c

  -- A path in a linked worktree: the record that is returned is of a linked worktree of the same
  -- repository that contains the path, and of none of these is the path longer.
  pub resolve_target-IsDeepest :
      (id : Option String) (path : String) (materialise : Bool) (rs rs' : Records)
      (info : CheckoutInfo) (rec : WorktreeRecord)
      → classify_checkout o path ≡ ok info
      → str_eq info.backing "primary" ≡ false
      → Targets.resolve_target o depth id (some path) materialise rs ≡ (ok rec, rs')
      → IsDeepest
          (λ r. depth (o.resolve r.path))
          (Targets.encloses o depth info)
          (list rs)
          (some rec)
  unfolding Targets.existing_record
  resolve_target-IsDeepest id path materialise rs rs' info rec c n h =
      let resolved = sym (classified-resolve_target id path materialise rs info c) ∙ h in
      let (_, found) = resolve_checkout-eq-ok o depth info id materialise rs rs' rec resolved in
      elim found [
        | inl (e, _) ↦ deepest-IsDeepest _ _ (list rs) (some rec) (rw n at e)
        | inr (_, is_primary, _) ↦ absurd (cc (n, is_primary))
      ]

  -- Whatever id and path a record has been found for, on the store that this leaves the same record
  -- is found for them, whether a record of a primary checkout may be made or not, and nothing is
  -- changed: `stop` finds what `start` has found or made.
  pub resolve_target_again :
      (id path : Option String) (materialise : Bool) (rs rs' : Records) (rec : WorktreeRecord)
      → Targets.resolve_target o depth id path materialise rs ≡ (ok rec, rs')
      → (m : Bool) → Targets.resolve_target o depth id path m rs' ≡ (ok rec, rs')
  unfolding Targets.resolve_target Targets.resolve_classified
  resolve_target_again id none materialise rs rs' rec h m =
      let found : Targets.resolve_id id rs ≡ ok rec = ap (λ p. p.0) h in
      let same : rs ≡ rs' = ap (λ p. p.1) h in rw (sym same, found) refl
  resolve_target_again id (some path) materialise rs rs' rec h m =
      again (classify_checkout o path) refl
    where
      again :
          (classified : Result ListError CheckoutInfo)
          → classify_checkout o path ≡ classified
          → Targets.resolve_target o depth id (some path) m rs' ≡ (ok rec, rs')
      again (err e) c = absurd (cc (rw c at h))
      again (ok info) c =
          classified-resolve_target id path m rs' info c
          ∙ resolve_checkout_again o depth info id materialise rs rs' rec
              (sym (classified-resolve_target id path materialise rs info c) ∙ h) m
