-- ===== src/Adopt/Kept.antt =====
-- What a call of `adopt` leaves of the records that are there.
use lib_python_worktree.Prelude.{
  ℕ, String, ◌≡◌, refl, ap, subst, false, some, List, [], ◌∷◌, arith, str_eq-cases, inl, inr,
  Bool-cases,
}
use lib_python_worktree.Prelude.Results.{Result, ok, err, >>=-eq-ok}
use lib_python_worktree.Prelude.Dict.{lookup, insert, has_key, lookup-insert}
use lib_python_worktree.Prelude.Lists.{length}
use lib_python_worktree.Store.{WorktreeRecord, Records, StoreError}
use lib_python_worktree.Adopt.{
  Candidate, Adoption, adopted_record, import_candidate, is_tracked, adopt_candidate, adopt_all,
  start, adopt,
}
use lib_python_worktree.Adopt.Covered.{same_adoption}

module _ (root : String) (new_id : ℕ → String → String) (k : String) (r : WorktreeRecord) where
  insert-keeps :
      (id : String) (s : WorktreeRecord) (rs : Records)
      → has_key id rs ≡ false
      → lookup k rs ≡ some r
      → lookup k (insert id s rs) ≡ some r
  unfolding has_key
  insert-keeps id s rs fresh e = elim (str_eq-cases id k) [
    | inl same ↦ absurd (cc (ap (λ x. lookup x rs) same, fresh, e))
    | inr other ↦ ground (arith, lookup-insert id k s rs)
  ]

  import_candidate-keeps :
      (id : String) (c : Candidate) (a : Adoption) {a' : Adoption}
      → import_candidate root new_id id c a ≡ ok a'
      → lookup k a.records ≡ some r
      → lookup k a'.records ≡ some r
  unfolding import_candidate
  import_candidate-keeps id c a h t = elim (Bool-cases (has_key id a.records)) [
    | inl e ↦ absurd (cc (rw e at h))
    | inr e ↦
        subst (λ (x : Adoption). lookup k x.records ≡ some r)
          (same_adoption root new_id (rw e at h))
          (insert-keeps id (adopted_record root new_id id c) a.records e t)
  ]

  adopt_candidate-keeps :
      (c : Candidate) (a : Adoption) {a' : Adoption}
      → adopt_candidate root new_id c a ≡ ok a'
      → lookup k a.records ≡ some r
      → lookup k a'.records ≡ some r
  unfolding adopt_candidate
  adopt_candidate-keeps c a h t = elim (Bool-cases (is_tracked root new_id c a)) [
    | inl e ↦
        subst (λ (x : Adoption). lookup k x.records ≡ some r)
          (same_adoption root new_id (rw e at h)) t
    | inr e ↦ import_candidate-keeps (new_id (length a.adopted) (c.1)) c a (rw e at h) t
  ]

  adopt_all-lookup :
      (cs : List Candidate) (a : Adoption) {a' : Adoption}
      → adopt_all root new_id cs a ≡ ok a'
      → lookup k a.records ≡ some r
      → lookup k a'.records ≡ some r
  unfolding adopt_all
  adopt_all-lookup [] a h t =
      subst (λ (x : Adoption). lookup k x.records ≡ some r) (same_adoption root new_id h) t
  adopt_all-lookup (c ∷ cs) a h t =
      let (a₁, first, rest) =
        >>=-eq-ok (adopt_candidate root new_id c a) (adopt_all root new_id cs) h in
      adopt_all-lookup cs a₁ rest (adopt_candidate-keeps c a first t)

  -- A record that is tracked before a call of `adopt` is the same after it, whatever git lists,
  -- whatever ids are drawn, and whether the call returns or raises.
  pub lookup-adopt :
      (cs : List Candidate) (rs : Records)
      → lookup k rs ≡ some r
      → lookup k (adopt root new_id cs rs).1 ≡ some r
  unfolding adopt
  lookup-adopt cs rs t = go (adopt_all root new_id cs (start root new_id rs)) refl
    where
      go :
          (x : Result StoreError Adoption)
          → adopt_all root new_id cs (start root new_id rs) ≡ x
          → lookup k (
              let y : Result StoreError (List String) × Records = elim x [
                | ok a ↦ (ok a.adopted, a.records)
                | err e ↦ (err e, rs)
              ] in
              y.1)
            ≡ some r
      go (ok a) e = adopt_all-lookup cs (start root new_id rs) e t
      go (err e) _ = t
