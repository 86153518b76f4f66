-- ===== src/Prelude/Lists.antt =====
-- Membership tests on lists that stand for Python lists and sets.
use Prim.Native.Nat.{ℕ, zero, suc, ◌+◌, ◌≤◌}
use Prim.Native.String.{String}
use mathlib.Core.Path.{◌≡◌, refl, ap}
use mathlib.Core.Logic.{◌⊎◌, inl, inr}
use mathlib.Core.Bool.{Bool, false, ◌||◌}
use mathlib.Core.List.{List, [], ◌∷◌, ◌++◌, map}
use text.Mathlib.TextEquality.{eq_iff}
use native.Mathlib.Omega.{arith}
use text.Mathlib.Text.{◌==◌ as str_eq}
use lib_python_worktree.Prelude.Tests.{ltb, ◌==◌, if◌then◌else◌}

-- `p in ps`
unfoldable pub contains : ℕ → List ℕ → Bool
contains p [] = false
contains p (q ∷ qs) = p == q || contains p qs

-- `s in ss`
unfoldable pub has : String → List String → Bool
has s [] = false
has s (t ∷ ts) = str_eq s t || has s ts

-- No text stands twice.
abbrev pub IsDistinct : List String → Type 0
IsDistinct [] = Unit
IsDistinct (s ∷ ss) = (has s ss ≡ false) × IsDistinct ss

module _ {ℓ} {A : Type ℓ} where
  abbrev pub length : List A → ℕ
  length [] = 0
  length (x ∷ xs) = suc (length xs)

-- `list(range(low, low + n))`
unfoldable pub range : ℕ → ℕ → List ℕ
range low zero = []
range low (suc n) = low ∷ range (low + 1) n

pub contains-range :
    (p low n : ℕ) → contains p (range low n) ≡ (if ltb p low then false else ltb p (low + n))
unfolding contains range
contains-range p low zero = ground arith
contains-range p low (suc n) = ground (arith, contains-range p (low + 1) n)

pub has-map :
    (f : String → String)
    → ((s t : String) → f s ≡ f t → s ≡ t)
    → (s : String) (ts : List String) → has (f s) (map f ts) ≡ has s ts
unfolding has
has-map f inj s [] = refl
has-map f inj s (t ∷ ts) =
    ground (arith, has-map f inj s ts, eq_iff (f s) (f t), eq_iff s t, inj s t)

pub has-append : (s : String) (ts us : List String) → has s (ts ++ us) ≡ (has s ts || has s us)
unfolding has
has-append s [] us = refl
has-append s (t ∷ ts) us = ground (arith, has-append s ts us)

module _ {ℓ} {A : Type ℓ} where
  -- `xs[:n]`
  unfoldable pub take : ℕ → List A → List A
  take zero xs = []
  take (suc n) [] = []
  take (suc n) (x ∷ xs) = x ∷ take n xs

  pub take_all : (n : ℕ) (xs : List A) → length xs ≤ n → take n xs ≡ xs
  unfolding take
  take_all zero [] h = refl
  take_all zero (x ∷ xs) h = absurd (omega arith)
  take_all (suc n) [] h = refl
  take_all (suc n) (x ∷ xs) h = ap (λ l. x ∷ l) (take_all n xs (omega arith))

  pub length-take : (n : ℕ) (xs : List A) → length (take n xs) ≤ n
  unfolding take
  length-take zero xs = omega arith
  length-take (suc n) [] = omega arith
  length-take (suc n) (x ∷ xs) = omega (arith, length-take n xs)

-- Some entry of the list has `P`.
abbrev pub Any {ℓ} : {A : Type ℓ} → (A → Type 0) → List A → Type 0
Any P [] = ⊥
Any P (x ∷ xs) = P x ⊎ Any P xs

-- Every entry of the list has `P`.
abbrev pub All {ℓ} : {A : Type ℓ} → (A → Type 0) → List A → Type 0
All P [] = Unit
All P (x ∷ xs) = P x × All P xs

module _ {ℓ} {A : Type ℓ} (P : A → Type 0) where
  pub Any-append_left : (xs ys : List A) → Any P xs → Any P (xs ++ ys)
  Any-append_left [] ys p = absurd p
  Any-append_left (x ∷ xs) ys (inl p) = inl p
  Any-append_left (x ∷ xs) ys (inr p) = inr (Any-append_left xs ys p)

  pub Any-append_right : (xs ys : List A) → Any P ys → Any P (xs ++ ys)
  Any-append_right [] ys p = p
  Any-append_right (x ∷ xs) ys p = inr (Any-append_right xs ys p)

  pub All-append : (xs ys : List A) → All P xs → All P ys → All P (xs ++ ys)
  All-append [] ys p q = q
  All-append (x ∷ xs) ys (p, ps) q = (p, All-append xs ys ps q)
