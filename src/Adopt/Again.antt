-- ===== src/Adopt/Again.antt =====
-- A second call of `adopt` over what a first has imported.
use lib_python_worktree.Prelude.{
  ℕ, String, ◌≡◌, inl, inr, refl, ap, subst, true, List, [], ◌∷◌, arith, eq_refl, Bool-cases,
}
use lib_python_worktree.Prelude.Results.{Result, ok, err, >>=-eq-ok}
use lib_python_worktree.Prelude.Dict.{has_key}
use lib_python_worktree.Prelude.Lists.{has, length}
use lib_python_worktree.Store.{Records, StoreError}
use lib_python_worktree.Adopt.{
  Candidate, has_branch, Adoption, import_candidate, is_tracked, adopt_candidate, adopt_all, start,
  adopt,
}
use lib_python_worktree.Adopt.Covered.{
  IsPathUnique, InStep, adopt_all-InStep, start-InStep, same_adoption,
}

module _ (root : String) where
  abbrev AllTracked : (ℕ → String → String) → List Candidate → Adoption → Type 0
  AllTracked ids [] a = Unit
  AllTracked ids (c ∷ cs) a = (is_tracked root ids c a ≡ true) × AllTracked ids cs a

  module _ (new_id : ℕ → String → String) where
    -- What is tracked stays so, and an imported candidate is.
    import_candidate-tracked :
        (id : String) (c d : Candidate) (a : Adoption) {a' : Adoption}
        → import_candidate root new_id id c a ≡ ok a'
        → (is_tracked root new_id c a' ≡ true)
          × (is_tracked root new_id d a ≡ true → is_tracked root new_id d a' ≡ true)
    unfolding import_candidate is_tracked has has_branch
    import_candidate-tracked id c d a {a'} h = elim (Bool-cases (has_key id a.records)) [
      | inl e ↦ absurd (cc (rw e at h))
      | inr e ↦
          subst
            (λ x.
              (is_tracked root new_id c x ≡ true)
              × (is_tracked root new_id d a ≡ true → is_tracked root new_id d x ≡ true))
            (same_adoption root new_id (rw e at h))
            (ground (arith, eq_refl (c.0)), λ t. ground arith)
    ]

    adopt_candidate-tracked :
        (c d : Candidate) (a : Adoption) {a' : Adoption}
        → adopt_candidate root new_id c a ≡ ok a'
        → (is_tracked root new_id c a' ≡ true)
          × (is_tracked root new_id d a ≡ true → is_tracked root new_id d a' ≡ true)
    unfolding adopt_candidate
    adopt_candidate-tracked c d a h = elim (Bool-cases (is_tracked root new_id c a)) [
      | inl e ↦
          subst
            (λ x.
              (is_tracked root new_id c x ≡ true)
              × (is_tracked root new_id d a ≡ true → is_tracked root new_id d x ≡ true))
            (same_adoption root new_id (rw e at h)) (e, λ t. t)
      | inr e ↦ import_candidate-tracked (new_id (length a.adopted) (c.1)) c d a (rw e at h)
    ]

    adopt_all-keeps :
        (cs : List Candidate) (d : Candidate) (a : Adoption) {a' : Adoption}
        → adopt_all root new_id cs a ≡ ok a'
        → is_tracked root new_id d a ≡ true
        → is_tracked root new_id d a' ≡ true
    unfolding adopt_all
    adopt_all-keeps [] d a h t =
        subst (λ x. is_tracked root new_id d x ≡ true) (same_adoption root new_id h) t
    adopt_all-keeps (c ∷ cs) d a h t =
        let (a₁, first, rest) =
          >>=-eq-ok (adopt_candidate root new_id c a) (adopt_all root new_id cs) h in
        adopt_all-keeps cs d a₁ rest ((adopt_candidate-tracked c d a first).1 t)

    adopt_all-AllTracked :
        (cs : List Candidate) (a : Adoption) {a' : Adoption}
        → adopt_all root new_id cs a ≡ ok a'
        → AllTracked new_id cs a'
    unfolding adopt_all
    adopt_all-AllTracked [] a h = tt
    adopt_all-AllTracked (c ∷ cs) a h =
        let (a₁, first, rest) =
          >>=-eq-ok (adopt_candidate root new_id c a) (adopt_all root new_id cs) h in
        (
          adopt_all-keeps cs c a₁ rest ((adopt_candidate-tracked c c a first).0),
          adopt_all-AllTracked cs a₁ rest,
        )

    adopt_all-eq-ok :
        (cs : List Candidate) (a : Adoption)
        → AllTracked new_id cs a
        → adopt_all root new_id cs a ≡ ok a
    unfolding adopt_all adopt_candidate
    adopt_all-eq-ok [] a q = refl
    adopt_all-eq-ok (c ∷ cs) a (t, q) = rw t (adopt_all-eq-ok cs a q)

  -- Tracked at the end of a call is tracked at the start of the next, which may draw other ids.
  start-AllTracked :
      (ids more_ids : ℕ → String → String) (cs : List Candidate) (a : Adoption)
      → InStep root ids a
      → AllTracked ids cs a
      → AllTracked more_ids cs (start root more_ids a.records)
  unfolding is_tracked
  start-AllTracked ids more_ids [] a s q = tt
  start-AllTracked ids more_ids (c ∷ cs) a s (t, q) =
      (ground (arith, s.paths (c.0), s.branches (c.1)), start-AllTracked ids more_ids cs a s q)

  -- Where no path is tracked under two ids and a call of `adopt` has returned, a second call over
  -- the same worktrees adopts nothing and leaves the records as they are, whatever ids it would
  -- draw.
  pub adopt_again :
      (ids more_ids : ℕ → String → String) (cs : List Candidate) (rs rs' : Records)
      (adopted : List String)
      → IsPathUnique rs
      → adopt root ids cs rs ≡ (ok adopted, rs')
      → adopt root more_ids cs rs' ≡ (ok [], rs')
  unfolding adopt
  adopt_again ids more_ids cs rs rs' adopted u h =
      go (adopt_all root ids cs (start root ids rs)) refl h
    where
      again :
          (a : Adoption)
          → adopt_all root ids cs (start root ids rs) ≡ ok a
          → adopt root more_ids cs a.records ≡ (ok [], a.records)
      again a e =
          rw
            (
              adopt_all-eq-ok more_ids cs (start root more_ids a.records) (
                  start-AllTracked ids more_ids cs a
                    (adopt_all-InStep root ids cs (start root ids rs) e
                      (start-InStep root ids rs u))
                    (adopt_all-AllTracked ids cs (start root ids rs) e)),
              adopt,
            )
            refl

      go :
          (x : Result StoreError Adoption)
          → adopt_all root ids cs (start root ids rs) ≡ x
          → ◌≡◌ {A = Result StoreError (List String) × Records}
              (elim x [ ok a ↦ (ok a.adopted, a.records) | err e ↦ (err e, rs) ])
              (ok adopted, rs')
          → adopt root more_ids cs rs' ≡ (ok [], rs')
      go (ok a) e h =
          subst (λ x. adopt root more_ids cs x ≡ (ok [], x)) (ap (λ p. p.1) h) (again a e)
      go (err x) e h = absurd (cc)
