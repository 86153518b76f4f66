-- ===== src/Manager/Removable.antt =====
-- What `_resolve_removal_target` finds: never a primary checkout that is not tracked.
use lib_python_worktree.Prelude.{
  ℕ, String, ◌≡◌, ◌⊎◌, inl, inr, refl, sym, ap, subst, Bool, true, false, Option, none, some, List,
  str_eq, Bool-cases, Option-cases,
}
use lib_python_worktree.Prelude.Results.{Result, ok, err}
use lib_python_worktree.Prelude.Lists.{Any}
use lib_python_worktree.Store.{WorktreeRecord, Records, list}
use lib_python_worktree.Store.Invariants.{IsKeyed}
use lib_python_worktree.Checkout.{EnvironmentEntry, RepoListing, ListError, Paths, list_repo}
use lib_python_worktree.Reconcile
use lib_python_worktree.Manager.Targets
use lib_python_worktree.Manager.Removals
use lib_python_worktree.Manager.Resolved.{
  IsNamed, IsDeepest, Ends, deepest-IsDeepest, resolve_target-Ends, mismatch-IsNamed,
  resolve_id-Ends,
}

module _ (o : Paths) (depth : String → ℕ) (reconciles : Bool) (seen : Reconcile.Outside) where
  -- The target is an entry of the listing: the one with the longest path among the current ones.
  abbrev pub IsListed : List EnvironmentEntry → WorktreeRecord → (tracked : Bool) → Type 0
  IsListed es rec tracked =
      (e : EnvironmentEntry) × (IsDeepest (λ e. depth e.rec.path) (λ e. e.is_current) es (some e)
        × (str_eq e.rec.backing "primary" ≡ false)
        × (rec ≡ e.rec)
        × (tracked ≡ e.tracked))

  abbrev pub Listing : Option String → Removals.Stored → WorktreeRecord → (tracked : Bool) → Type 0
  Listing none s rec tracked = ⊥
  Listing (some path) s rec tracked =
      (l : RepoListing) × ((list_repo o path (list s.records) ≡ ok l)
        × IsListed l.entries rec tracked)

  -- What a removal's resolution may come back with, from a store.
  abbrev pub Resolves :
      (id path : Option String)
      → Removals.Stored
      → Result Targets.TargetError (WorktreeRecord × Bool) × Removals.Stored
      → Type 0
  Resolves id path s (err e, s') = (s' ≡ s) ⊎ (s' ≡ Removals.reconciled o depth reconciles seen s)
  Resolves id path s (ok (rec, tracked), s') =
      IsNamed id rec
      × (((s' ≡ s) × (tracked ≡ true) × Any (λ r. r ≡ rec) (list s.records))
          ⊎ ((s' ≡ Removals.reconciled o depth reconciles seen s) × Listing path s' rec tracked))

  removable-eq-ok :
      (id : Option String) (e : EnvironmentEntry) (rec : WorktreeRecord) (tracked : Bool)
      → Removals.removable id e ≡ ok (rec, tracked)
      → IsNamed id rec
        × (str_eq e.rec.backing "primary" ≡ false)
        × (rec ≡ e.rec)
        × (tracked ≡ e.tracked)
  unfolding Removals.removable
  removable-eq-ok id e rec tracked h = elim (Bool-cases (str_eq e.rec.backing "primary")) [
    | inl p ↦ absurd (cc (rw p at h))
    | inr p ↦ elim (Option-cases (Targets.mismatch id (some e.rec.id))) [
      | inr (resolved, m) ↦ absurd (cc (rw (p, m) at h))
      | inl m ↦
          let same : e.rec ≡ rec = cc (rw (p, m) at h) in
          let marked : e.tracked ≡ tracked = cc (rw (p, m) at h) in
          (
            mismatch-IsNamed id rec m (ap (λ (r : WorktreeRecord). r.id) (sym same)),
            p,
            sym same,
            sym marked,
          )
    ]
  ]

  of_listing-eq-ok :
      (id : Option String) (listing : Result ListError RepoListing) (rec : WorktreeRecord)
      (tracked : Bool)
      → Removals.of_listing o depth reconciles seen id listing ≡ ok (rec, tracked)
      → IsNamed id rec × (l : RepoListing) × ((listing ≡ ok l) × IsListed l.entries rec tracked)
  unfolding Removals.of_listing Removals.current_entry Removals.if_any
  of_listing-eq-ok id (err e) rec tracked h = absurd (cc h)
  of_listing-eq-ok id (ok l) rec tracked h =
      let (e, (found, removed)) = if_any-eq-ok _ h in
      let (named, p, same, marked) = removable-eq-ok id e rec tracked removed in
      (named, l, (refl, (e, (deepest-IsDeepest _ _ l.entries (some e) found, p, same, marked))))
    where
      if_any-eq-ok :
          (found : Option EnvironmentEntry)
          → Removals.if_any id found ≡ ok (rec, tracked)
          → (e : EnvironmentEntry) × ((found ≡ some e)
              × (Removals.removable id e ≡ ok (rec, tracked)))
      if_any-eq-ok none q = absurd (cc q)
      if_any-eq-ok (some e) q = (e, (refl, q))

  list_target-Resolves :
      (id : Option String) (path : String) (s : Removals.Stored)
      → Resolves id (some path) s (Removals.list_target o depth reconciles seen id path s)
  unfolding Removals.list_target Removals.list_reconciled_repo
  list_target-Resolves id path s = resolves _ refl
    where
      s' : Removals.Stored
      s' = Removals.reconciled o depth reconciles seen s

      resolves :
          (r : Result Targets.TargetError (WorktreeRecord × Bool))
          → Removals.of_listing o depth reconciles seen id (list_repo o path (list s'.records)) ≡ r
          → Resolves id (some path) s (r, s')
      resolves (err e) q = inr refl
      resolves (ok (rec, tracked)) q =
          let (named, l, listed) = of_listing-eq-ok id _ rec tracked q in
          (named, inr (refl, (l, listed)))

  or_listed-Resolves :
      (id : Option String) (path : String) (s : Removals.Stored)
      (target : Result Targets.TargetError WorktreeRecord)
      → Ends id false s.records (target, s.records)
      → Resolves id (some path) s (Removals.or_listed o depth reconciles seen id path s target)
  unfolding Removals.or_listed
  or_listed-Resolves id path s (ok rec) (named, inl (_, stored)) = (named, inl (refl, refl, stored))
  or_listed-Resolves id path s (ok rec) (named, inr (m, _, _, _)) = absurd (cc m)
  or_listed-Resolves id path s (err Targets.not_found) h = list_target-Resolves id path s
  or_listed-Resolves id path s (err e) h = inl refl

  -- A resolution that may not make a record changes no record.
  Ends-unchanged :
      (id : Option String) (rs rs' : Records) (target : Result Targets.TargetError WorktreeRecord)
      → Ends id false rs (target, rs')
      → rs' ≡ rs
  Ends-unchanged id rs rs' (err e) h = h
  Ends-unchanged id rs rs' (ok rec) (_, inl (same, _)) = same
  Ends-unchanged id rs rs' (ok rec) (_, inr (m, _, _, _)) = absurd (cc m)

  -- On a store whose records stand at their own ids, whatever id and path are given: the store is
  -- left as it was, or as a listing has reconciled it. A record that is returned has the id, if one
  -- is given. Either it is one of the store and marked as tracked; or it is that of an entry of the
  -- repository's listing that is no primary checkout, with the mark of the entry, and no current
  -- entry has a longer path.
  pub resolve_removal_target-Resolves :
      (id path : Option String) (s : Removals.Stored)
      → IsKeyed s.records
      → Resolves id path s (Removals.resolve_removal_target o depth reconciles seen id path s)
  unfolding Removals.resolve_removal_target Removals.as_tracked
  resolve_removal_target-Resolves id none s keyed =
      by_id _ (resolve_id-Ends o depth id false s.records keyed)
    where
      by_id :
          (target : Result Targets.TargetError WorktreeRecord)
          → Ends id false s.records (target, s.records)
          → Resolves id none s (Removals.as_tracked target, s)
      by_id (err e) h = inl refl
      by_id (ok rec) (named, inl (_, stored)) = (named, inl (refl, refl, stored))
      by_id (ok rec) (named, inr (m, _, _, _)) = absurd (cc m)
  resolve_removal_target-Resolves id (some path) s keyed =
      by_path _ _ (resolve_target-Ends o depth id (some path) false s.records keyed)
    where
      by_path :
          (target : Result Targets.TargetError WorktreeRecord) (rs : Records)
          → Ends id false s.records (target, rs)
          → Resolves id (some path) s (
              Removals.or_listed o depth reconciles seen id path (record s { records = rs }) target)
      by_path target rs h =
          let same = Ends-unchanged id s.records rs target h in
          subst
            (λ (x : Records). Resolves id (some path) s (
              Removals.or_listed o depth reconciles seen id path (record s { records = x }) target))
            (sym same)
            (or_listed-Resolves id path s target
              (subst (λ x. Ends id false s.records (target, x)) same h))
