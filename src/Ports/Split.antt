-- ===== src/Ports/Split.antt =====
-- The slots of a call are those that `pinned` names, in order, and the others.
use lib_python_worktree.Prelude.{
  ℕ, String, ◌≡◌, refl, ◌∙◌, false, none, some, List, [], ◌∷◌, ◌++◌, map, arith, eq_iff,
  Option-cases, inl, inr,
}
use lib_python_worktree.Prelude.Dict.{Dict, lookup}
use lib_python_worktree.Prelude.Lists.{has, has-append, has-map, IsDistinct}

-- The slots of a call that are pinned, and the others.
unfoldable pub pinned_slots : Dict ℕ → List String → List String
pinned_slots pinned [] = []
pinned_slots pinned (slot ∷ slots) = elim (lookup slot pinned) [
  | none ↦ pinned_slots pinned slots
  | some _ ↦ slot ∷ pinned_slots pinned slots
]

unfoldable pub free_slots : Dict ℕ → List String → List String
free_slots pinned [] = []
free_slots pinned (slot ∷ slots) = elim (lookup slot pinned) [
  | none ↦ slot ∷ free_slots pinned slots
  | some _ ↦ free_slots pinned slots
]

module _ (f : String → String) (pinned : Dict ℕ) where
  pub has-split :
      (k : String) (slots : List String)
      → has k (map f (pinned_slots pinned slots) ++ map f (free_slots pinned slots))
        ≡ has k (map f slots)
  unfolding has pinned_slots free_slots
  has-split k [] = refl
  has-split k (slot ∷ slots) = elim (Option-cases (lookup slot pinned)) [
    | inl e ↦
        rw (e, pinned_slots, free_slots)
          (ground (
            arith,
            has-split k slots,
            has-append k (map f (pinned_slots pinned slots)) (map f (free_slots pinned slots)),
            has-append k (map f (pinned_slots pinned slots))
                (f slot ∷ map f (free_slots pinned slots)),
          ))
    | inr (p, e) ↦ rw (e, pinned_slots, free_slots) (ground (arith, has-split k slots))
  ]

IsDistinct-middle :
    (x : String) (xs ys : List String)
    → has x (xs ++ ys) ≡ false
    → IsDistinct (xs ++ ys)
    → IsDistinct (xs ++ x ∷ ys)
unfolding has
IsDistinct-middle x [] ys h d = (h, d)
IsDistinct-middle x (y ∷ xs) ys h d = ground (
  arith,
  IsDistinct-middle x xs ys,
  has-append y xs ys,
  has-append y xs (x ∷ ys),
  eq_iff x y,
  eq_iff y x,
)

module _ (f : String → String) (inj : (s t : String) → f s ≡ f t → s ≡ t) (pinned : Dict ℕ) where
  pub IsDistinct-split :
      (slots : List String)
      → IsDistinct slots
      → IsDistinct (map f (pinned_slots pinned slots) ++ map f (free_slots pinned slots))
  unfolding has pinned_slots free_slots
  IsDistinct-split [] d = tt
  IsDistinct-split (slot ∷ slots) d = elim (Option-cases (lookup slot pinned)) [
    | inl e ↦
        rw (e, pinned_slots, free_slots)
          (IsDistinct-middle (f slot) (map f (pinned_slots pinned slots))
            (map f (free_slots pinned slots)) absent (IsDistinct-split slots d.1))
    | inr (p, e) ↦ rw (e, pinned_slots, free_slots) (absent, IsDistinct-split slots d.1)
  ]
    where
      absent :
          has (f slot) (map f (pinned_slots pinned slots) ++ map f (free_slots pinned slots))
          ≡ false
      absent = has-split f pinned (f slot) slots ∙ has-map f inj slot slots ∙ d.0
