-- ===== src/Store/Branches.antt =====
-- Which records check out a branch of a repository.
use lib_python_worktree.Prelude.{
  String, ◌≡◌, ◌⊎◌, inl, inr, true, false, none, some, [], ◌∷◌, arith, eq_iff, str_eq-cases,
  Bool-cases, Option-cases, sym, ◌∙◌, subst₂,
}
use lib_python_worktree.Prelude.Dict.{lookup, insert, has_key, lookup-insert}
use lib_python_worktree.Store

find_by_branch-eq-none :
    (root branch : String) (rs : Store.Records) (k : String) (rec : Store.WorktreeRecord)
    → Store.find_by_branch root branch rs ≡ none
    → Store.get k rs ≡ some rec
    → Store.matches root branch rec ≡ false
unfolding Store.find_by_branch Store.get lookup
find_by_branch-eq-none root branch [] k rec f e = ground arith
find_by_branch-eq-none root branch ((j, r) ∷ rs) k rec f e =
    ground (arith, find_by_branch-eq-none root branch rs k rec)

true_ne_false : true ≡ false → ⊥
true_ne_false e = ground arith

some-injective : {a b : String} → some a ≡ some b → a ≡ b
some-injective e = ground arith

find_by_branch-matches :
    (root branch : String) (rs : Store.Records) (rec : Store.WorktreeRecord)
    → Store.find_by_branch root branch rs ≡ some rec
    → Store.matches root branch rec ≡ true
unfolding Store.find_by_branch
find_by_branch-matches root branch [] rec f = ground arith
find_by_branch-matches root branch ((j, r) ∷ rs) rec f =
    elim (Bool-cases (Store.matches root branch r)) [
      | inl m ↦ let same : r ≡ rec = ground arith in rw (← same) m
      | inr m ↦ find_by_branch-matches root branch rs rec (ground arith)
    ]

-- Two records of one repository that are not primary checkouts are not on one branch.
pub record IsUnique (rs : Store.Records) : Type 0 where
  pub alone :
      (root branch j k : String) (r s : Store.WorktreeRecord)
      → Store.get j rs ≡ some r
      → Store.get k rs ≡ some s
      → Store.matches root branch r ≡ true
      → Store.matches root branch s ≡ true
      → j ≡ k

matches-eq-true :
    (root branch : String) (r : Store.WorktreeRecord)
    → Store.matches root branch r ≡ true
    → (r.repo_root ≡ root) × (r.branch ≡ some branch)
unfolding Store.matches Store.is_branch
matches-eq-true root branch r m = elim (Option-cases r.branch) [
  | inl e ↦ ground arith
  | inr (b, e) ↦ ground (arith, eq_iff r.repo_root root, eq_iff b branch)
]

same_branch :
    (root branch root' branch' : String) (r s : Store.WorktreeRecord)
    → Store.matches root branch r ≡ true
    → Store.matches root' branch' r ≡ true
    → Store.matches root branch s ≡ true
    → Store.matches root' branch' s ≡ true
same_branch root branch root' branch' r s m m' n =
    let (p, b) = matches-eq-true root branch r m in
    let (p', b') = matches-eq-true root' branch' r m' in
    subst₂ (λ x y. Store.matches x y s ≡ true) (sym p ∙ p') (some-injective (sym b ∙ b')) n

some-clash :
    (root branch : String) (rec s : Store.WorktreeRecord) (root' branch' : String) (k : String)
    (rs : Store.Records)
    → Store.matches root branch rec ≡ true
    → Store.find_by_branch root branch rs ≡ none
    → Store.get k rs ≡ some s
    → Store.matches root' branch' rec ≡ true
    → Store.matches root' branch' s ≡ true
    → ⊥
some-clash root branch rec s root' branch' k rs m missing e mr ms = true_ne_false (
    sym (same_branch root' branch' root branch rec s mr m ms)
    ∙ find_by_branch-eq-none root branch rs k s missing e)

-- What `find_by_branch` returns is a tracked record that matches; where it returns nothing, no
-- tracked record matches.
pub find_by_branch_lem :
    (root branch : String) (rs : Store.Records)
    → ((k : String) (rec : Store.WorktreeRecord)
        → Store.find_by_branch root branch rs ≡ none
        → Store.get k rs ≡ some rec
        → Store.matches root branch rec ≡ false)
      × ((rec : Store.WorktreeRecord)
          → Store.find_by_branch root branch rs ≡ some rec
          → Store.matches root branch rec ≡ true)
find_by_branch_lem root branch rs =
    (find_by_branch-eq-none root branch rs, find_by_branch-matches root branch rs)

-- Adding a record on a branch for which `find_by_branch` finds nothing keeps the branches apart.
pub add-IsUnique :
    (root branch : String) (rec : Store.WorktreeRecord) (rs : Store.Records)
    → Store.matches root branch rec ≡ true
    → Store.find_by_branch root branch rs ≡ none
    → IsUnique rs
    → IsUnique (Store.add rec rs).1
unfolding Store.add Store.get
add-IsUnique root branch rec rs m missing q = elim (Bool-cases (has_key rec.id rs)) [
  | inl e ↦ rw e q
  | inr e ↦ rw e (record {
    alone = λ root' branch' j k r s er es mr ms. elim (added j r er) [
      | inl (ej, er') ↦ elim (added k s es) [
        | inl (ek, es') ↦ sym ej ∙ ek
        | inr es' ↦ absurd (clash s root' branch' k es' (rw er' mr) ms)
      ]
      | inr er' ↦ elim (added k s es) [
        | inl (ek, es') ↦ absurd (clash r root' branch' j er' (rw es' ms) mr)
        | inr es' ↦ q.alone root' branch' j k r s er' es' mr ms
      ]
    ];
  })
]
  where
    clash :
        (s : Store.WorktreeRecord) (root' branch' k : String)
        → Store.get k rs ≡ some s
        → Store.matches root' branch' rec ≡ true
        → Store.matches root' branch' s ≡ true
        → ⊥
    clash s root' branch' k e mr ms =
        some-clash root branch rec s root' branch' k rs m missing e mr ms

    added :
        (k : String) (s : Store.WorktreeRecord)
        → Store.get k (insert rec.id rec rs) ≡ some s
        → ((rec.id ≡ k) × (rec ≡ s)) ⊎ (Store.get k rs ≡ some s)
    added k s e = elim (str_eq-cases rec.id k) [
      | inl same ↦ inl (same, ground (arith, lookup-insert rec.id k rec rs, eq_iff rec.id k))
      | inr other ↦ inr (ground (arith, lookup-insert rec.id k rec rs))
    ]
