-- ===== src/Adopt/Covered.antt =====
-- The sets of existing paths and branches keep step with the records, and so no path is tracked
-- twice.
use lib_python_worktree.Prelude.{
  ℕ, String, ◌≡◌, ◌⊎◌, inl, inr, refl, sym, ap, ◌∙◌, subst, true, false, ◌&&◌, ◌||◌, some, List, [],
  ◌∷◌, arith, eq_iff, eq_refl, str_eq, str_eq-cases, Bool-cases,
}
use lib_python_worktree.Prelude.Results.{Result, ok, err, >>=-eq-ok}
use lib_python_worktree.Prelude.Dict.{lookup, insert, has_key, lookup-insert}
use lib_python_worktree.Prelude.Lists.{has, length}
use lib_python_worktree.Store.{WorktreeRecord, Records, StoreError, is_branch}
use lib_python_worktree.Adopt.{
  Candidate, paths_of, branches_of, has_branch, Adoption, adopted_record, import_candidate,
  is_tracked, adopt_candidate, adopt_all, start, adopt,
}

-- No path is tracked under two ids.
pub record IsPathUnique (rs : Records) : Type 0 where
  pub alone :
      (j k : String) (r s : WorktreeRecord)
      → lookup j rs ≡ some r
      → lookup k rs ≡ some s
      → r.path ≡ s.path
      → j ≡ k

true_ne_false : true ≡ false → ⊥
true_ne_false e = ground arith

has-paths_of :
    (k : String) (rs : Records) (r : WorktreeRecord)
    → lookup k rs ≡ some r
    → has r.path (paths_of rs) ≡ true
unfolding lookup paths_of has
has-paths_of k [] r e = absurd (cc)
has-paths_of k ((j, s) ∷ rs) r e = elim (Bool-cases (str_eq j k)) [
  | inl same ↦
      let found : s ≡ r = ground arith in
      subst (λ (x : WorktreeRecord). str_eq x.path s.path || has x.path (paths_of rs) ≡ true) found
        (ground (arith, eq_refl s.path))
  | inr other ↦ ground (arith, has-paths_of k rs r)
]

paths_of-insert :
    (p k : String) (r : WorktreeRecord) (rs : Records)
    → has_key k rs ≡ false
    → has p (paths_of (insert k r rs)) ≡ (str_eq p r.path || has p (paths_of rs))
unfolding insert paths_of has has_key lookup
paths_of-insert p k r [] e = refl
paths_of-insert p k r ((j, s) ∷ rs) e = ground (arith, paths_of-insert p k r rs)

branches_of-insert :
    (root b k : String) (r : WorktreeRecord) (rs : Records)
    → has_key k rs ≡ false
    → has_branch root b (branches_of (insert k r rs))
      ≡ ((str_eq r.repo_root root && is_branch r.branch b) || has_branch root b (branches_of rs))
unfolding insert branches_of has_branch has_key lookup
branches_of-insert root b k r [] e = refl
branches_of-insert root b k r ((j, s) ∷ rs) e = ground (arith, branches_of-insert root b k r rs)

module _ (root : String) (new_id : ℕ → String → String) where
  -- The sets are those of the records so far.
  pub record InStep (a : Adoption) : Type 0 where
    pub paths : (p : String) → has p a.existing_paths ≡ has p (paths_of a.records)
    pub branches :
        (b : String)
        → has_branch root b a.existing_branches ≡ has_branch root b (branches_of a.records)
    pub unique : IsPathUnique a.records

  pub same_adoption : {x y : Adoption} → ◌≡◌ {A = Result StoreError Adoption} (ok x) (ok y) → x ≡ y
  same_adoption e = ground arith

  untracked_path :
      (c : Candidate) (a : Adoption)
      → is_tracked root new_id c a ≡ false
      → has (c.0) a.existing_paths ≡ false
  unfolding is_tracked
  untracked_path c a e = ground arith

  insert-IsPathUnique :
      (id : String) (rec : WorktreeRecord) (rs : Records)
      → has rec.path (paths_of rs) ≡ false
      → IsPathUnique rs
      → IsPathUnique (insert id rec rs)
  insert-IsPathUnique id rec rs fresh u = record {
    alone = λ j k r s er es same. elim (inserted j r er) [
      | inl (ej, er') ↦ elim (inserted k s es) [
        | inl (ek, es') ↦ sym ej ∙ ek
        | inr es' ↦ absurd (clash k s es' (ap (λ (x : WorktreeRecord). x.path) er' ∙ same))
      ]
      | inr er' ↦ elim (inserted k s es) [
        | inl (ek, es') ↦
            absurd (clash j r er' (ap (λ (x : WorktreeRecord). x.path) es' ∙ sym same))
        | inr es' ↦ u.alone j k r s er' es' same
      ]
    ];
  }
    where
      clash : (k : String) (s : WorktreeRecord) → lookup k rs ≡ some s → rec.path ≡ s.path → ⊥
      clash k s e same =
          true_ne_false
            (sym (has-paths_of k rs s e) ∙ ap (λ p. has p (paths_of rs)) (sym same) ∙ fresh)

      inserted :
          (k : String) (s : WorktreeRecord)
          → lookup k (insert id rec rs) ≡ some s
          → ((id ≡ k) × (rec ≡ s)) ⊎ (lookup k rs ≡ some s)
      inserted k s e = elim (str_eq-cases id k) [
        | inl same ↦ inl (same, ground (arith, lookup-insert id k rec rs, eq_iff id k))
        | inr other ↦ inr (ground (arith, lookup-insert id k rec rs))
      ]

  import_candidate-InStep :
      (id : String) (c : Candidate) (a : Adoption) {a' : Adoption}
      → import_candidate root new_id id c a ≡ ok a'
      → has (c.0) a.existing_paths ≡ false
      → InStep a
      → InStep a'
  unfolding import_candidate adopted_record has has_branch
  import_candidate-InStep id c a {a'} h fresh q = elim (Bool-cases (has_key id a.records)) [
    | inl e ↦ absurd (cc (rw e at h))
    | inr e ↦ subst InStep (same_adoption (rw e at h)) (record {
      paths = λ p.
          ground
            (arith, q.paths p, paths_of-insert p id (adopted_record root new_id id c) a.records e);
      branches = λ b. ground (
        arith,
        q.branches b,
        branches_of-insert root b id (adopted_record root new_id id c) a.records e,
      );
      unique =
          insert-IsPathUnique id (adopted_record root new_id id c) a.records
            (sym (q.paths (c.0)) ∙ fresh) q.unique;
    })
  ]

  pub adopt_candidate-InStep :
      (c : Candidate) (a : Adoption) {a' : Adoption}
      → adopt_candidate root new_id c a ≡ ok a'
      → InStep a
      → InStep a'
  unfolding adopt_candidate
  adopt_candidate-InStep c a h q = elim (Bool-cases (is_tracked root new_id c a)) [
    | inl e ↦ subst InStep (same_adoption (rw e at h)) q
    | inr e ↦
        import_candidate-InStep (new_id (length a.adopted) (c.1)) c a (rw e at h)
          (untracked_path c a e) q
  ]

  pub adopt_all-InStep :
      (cs : List Candidate) (a : Adoption) {a' : Adoption}
      → adopt_all root new_id cs a ≡ ok a'
      → InStep a
      → InStep a'
  unfolding adopt_all
  adopt_all-InStep [] a h q = subst InStep (same_adoption h) q
  adopt_all-InStep (c ∷ cs) a h q =
      let (a₁, first, rest) =
        >>=-eq-ok (adopt_candidate root new_id c a) (adopt_all root new_id cs) h in
      adopt_all-InStep cs a₁ rest (adopt_candidate-InStep c a first q)

  pub start-InStep : (rs : Records) → IsPathUnique rs → InStep (start root new_id rs)
  start-InStep rs u = record { paths = λ p. refl; branches = λ b. refl; unique = u }

  -- If no path is tracked under two ids, none is after a call of `adopt`, whatever git lists, whatever
  -- ids are drawn, and whether it returns or raises.
  pub adopt-IsPathUnique :
      (cs : List Candidate) (rs : Records)
      → IsPathUnique rs
      → IsPathUnique (adopt root new_id cs rs).1
  unfolding adopt
  adopt-IsPathUnique cs rs u = go (adopt_all root new_id cs (start root new_id rs)) refl
    where
      go :
          (x : Result StoreError Adoption)
          → adopt_all root new_id cs (start root new_id rs) ≡ x
          → IsPathUnique (
              let y : Result StoreError (List String) × Records = elim x [
                | ok a ↦ (ok a.adopted, a.records)
                | err e ↦ (err e, rs)
              ] in
              y.1)
      go (ok a) e = (adopt_all-InStep cs (start root new_id rs) e (start-InStep rs u)).unique
      go (err e) _ = u
