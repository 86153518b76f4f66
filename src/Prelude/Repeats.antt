-- ===== src/Prelude/Repeats.antt =====
-- The loop that collects duplicates: `if x in seen: duplicates.append(x)`, then `seen.add(x)`.
use Prim.Native.Nat.{ℕ}
use Prim.Native.String.{String}
use mathlib.Core.Path.{◌≡◌, refl}
use mathlib.Core.Logic.{◌↔◌, inl, inr}
use mathlib.Core.Bool.{Bool, false, ◌||◌}
use mathlib.Core.List.{List, [], ◌∷◌}
use native.Mathlib.Omega.{arith}
use text.Mathlib.Text.{◌==◌ as str_eq}
use text.Mathlib.TextEquality.{eq_iff}
use lib_python_worktree.Prelude.Tests.{◌==◌, if◌then◌else◌, Bool-cases}
use lib_python_worktree.Prelude.Lists.{contains, has, IsDistinct}

module _ {ℓ} {A : Type ℓ} (mem : A → List A → Bool) where
  unfoldable pub repeats : List A → List A → List A
  repeats seen [] = []
  repeats seen (x ∷ xs) = let rest = repeats (x ∷ seen) xs in if mem x seen then x ∷ rest else rest

  abbrev pub Fresh : List A → List A → Type 0
  Fresh seen [] = Unit
  Fresh seen (x ∷ xs) = (mem x seen ≡ false) × Fresh seen xs

  abbrev pub Distinct : List A → Type 0
  Distinct [] = Unit
  Distinct (x ∷ xs) = (mem x xs ≡ false) × Distinct xs

str_eq_comm : (s t : String) → str_eq s t ≡ str_eq t s
str_eq_comm s t = ground (arith, eq_iff s t, eq_iff t s)

Fresh-has-nil : (xs : List String) → Fresh has [] xs
unfolding has
Fresh-has-nil [] = tt
Fresh-has-nil (x ∷ xs) = (refl, Fresh-has-nil xs)

Fresh-contains-nil : (xs : List ℕ) → Fresh contains [] xs
unfolding contains
Fresh-contains-nil [] = tt
Fresh-contains-nil (x ∷ xs) = (refl, Fresh-contains-nil xs)

module _ {ℓ} {A : Type ℓ} (mem : A → List A → Bool) (eq : A → A → Bool)
    (mem-nil : (a : A) → mem a [] ≡ false)
    (mem-cons : (a b : A) (l : List A) → mem a (b ∷ l) ≡ (eq a b || mem a l))
    (eq_comm : (a b : A) → eq a b ≡ eq b a) where
  Fresh-cons :
      (x : A) (seen xs : List A)
      → Fresh mem (x ∷ seen) xs ↔ ((mem x xs ≡ false) × Fresh mem seen xs)
  Fresh-cons x seen [] = ((λ _. (mem-nil x, tt)), λ _. tt)
  Fresh-cons x seen (y ∷ xs) =
      let (to, back) = Fresh-cons x seen xs in
      (
        (λ h.
            let (a, b) = to h.1 in ground (arith, mem-cons y x seen, mem-cons x y xs, eq_comm x y)),
        λ h. ground (arith, mem-cons y x seen, mem-cons x y xs, eq_comm x y, back),
      )

  repeats-nil :
      (seen xs : List A) → (repeats mem seen xs ≡ []) ↔ (Fresh mem seen xs × Distinct mem xs)
  unfolding repeats
  repeats-nil seen [] = ((λ _. (tt, tt)), λ _. refl)
  repeats-nil seen (x ∷ xs) =
      let (to, back) = repeats-nil (x ∷ seen) xs in
      let (to', back') = Fresh-cons x seen xs in
      (
        (λ h. elim (Bool-cases (mem x seen)) [
          | inl e ↦ absurd (cc (rw e at h))
          | inr e ↦
              let (fresh, distinct) = to (rw e at h) in
              let (here, there) = to' fresh in ((e, there), (here, distinct))
        ]),
        λ h. rw h.0.0 (back (back' (h.1.0, h.0.1), h.1.1)),
      )

Distinct-IsDistinct : (xs : List String) → Distinct has xs ↔ IsDistinct xs
Distinct-IsDistinct [] = ((λ h. h), λ h. h)
Distinct-IsDistinct (x ∷ xs) =
    let (to, back) = Distinct-IsDistinct xs in ((λ h. (h.0, to h.1)), λ h. (h.0, back h.1))

-- Nothing repeats exactly when no text stands twice.
pub repeats-IsDistinct : (xs : List String) → (repeats has [] xs ≡ []) ↔ IsDistinct xs
unfolding has
repeats-IsDistinct xs =
    let (to, back) = repeats-nil has str_eq (λ a. refl) (λ a b l. refl) str_eq_comm [] xs in
    let (out, into) = Distinct-IsDistinct xs in
    ((λ h. out (to h).1), λ h. back (Fresh-has-nil xs, into h))

-- Nothing repeats exactly when no number stands twice.
pub repeats-contains : (xs : List ℕ) → (repeats contains [] xs ≡ []) ↔ Distinct contains xs
unfolding contains
repeats-contains xs =
    let (to, back) =
      repeats-nil contains ◌==◌ (λ a. refl) (λ a b l. refl) (λ a b. ground arith) [] xs in
    ((λ h. (to h).1), λ h. back (Fresh-contains-nil xs, h))
