-- ===== src/Prelude/Dict.antt =====
-- A Python dict with text keys, in insertion order.
use Prim.Native.String.{String}
use mathlib.Core.Path.{◌≡◌, refl}
use mathlib.Core.Bool.{Bool, true, false, ◌||◌}
use mathlib.Core.Option.{Option, none, some}
use mathlib.Core.List.{List, [], ◌∷◌}
use native.Mathlib.Omega.{arith}
use text.Mathlib.Text.{◌==◌ as str_eq}
use text.Mathlib.TextEquality.{eq_iff}
use text.Mathlib.TextPositions.{eq_refl}
use lib_python_worktree.Prelude.Lists.{has}
use lib_python_worktree.Prelude.Tests.{if◌then◌else◌}

abbrev pub Dict {ℓ} : Type ℓ → Type ℓ
Dict V = List (String × V)

module _ {ℓ} {V : Type ℓ} where
  -- `d.get(k)`
  unfoldable pub lookup : String → Dict V → Option V
  lookup k [] = none
  lookup k ((j, v) ∷ d) = if str_eq j k then some v else lookup k d

  -- `d[k] = v`
  unfoldable pub insert : String → V → Dict V → Dict V
  insert k v [] = (k, v) ∷ []
  insert k v ((j, w) ∷ d) = if str_eq j k then (k, v) ∷ d else (j, w) ∷ insert k v d

  -- `del d[k]` for each key that passes the test
  unfoldable pub without : (String → Bool) → Dict V → Dict V
  without p [] = []
  without p ((j, v) ∷ d) = let rest = without p d in if p j then rest else (j, v) ∷ rest

  -- `d.keys()`
  abbrev pub keys : Dict V → List String
  keys [] = []
  keys ((j, _) ∷ d) = j ∷ keys d

  pub lookup-insert :
      (k j : String) (v : V) (d : Dict V)
      → lookup j (insert k v d) ≡ (if str_eq k j then some v else lookup j d)
  unfolding lookup insert
  lookup-insert k j v [] = refl
  lookup-insert k j v ((i, w) ∷ d) =
      ground (arith, eq_iff k j, eq_iff i k, eq_iff i j, lookup-insert k j v d)

  pub lookup-without :
      (p : String → Bool) (j : String) (d : Dict V)
      → lookup j (without p d) ≡ (if p j then none else lookup j d)
  unfolding lookup without
  lookup-without p j [] = ground arith
  lookup-without p j ((i, w) ∷ d) = ground (arith, eq_iff i j, lookup-without p j d)

  pub lookup-nil : (k : String) (v : V) → lookup k [] ≡ some v → ⊥
  unfolding lookup
  lookup-nil k v h = cc

  -- `k in d`
  unfoldable pub has_key : String → Dict V → Bool
  has_key k d = elim (lookup k d) [ none ↦ false | some _ ↦ true ]

  pub has_key-insert :
      (k j : String) (v : V) (d : Dict V)
      → has_key j (insert k v d) ≡ (if str_eq k j then true else has_key j d)
  unfolding has_key
  has_key-insert k j v d = ground (arith, lookup-insert k j v d)

  pub has_key-eq-true :
      (k : String) (d : Dict V) → has_key k d ≡ true → (v : V) × (lookup k d ≡ some v)
  unfolding has_key
  has_key-eq-true k d h = ground arith

  pub without-without : (p : String → Bool) (d : Dict V) → without p (without p d) ≡ without p d
  unfolding without
  without-without p [] = refl
  without-without p ((i, w) ∷ d) = ground (arith, without-without p d)

  pub without-cong :
      (p q : String → Bool) → ((k : String) → p k ≡ q k) → (d : Dict V) → without p d ≡ without q d
  unfolding without
  without-cong p q same [] = refl
  without-cong p q same ((i, w) ∷ d) = ground (arith, same i, without-cong p q same d)

  -- Deleting twice deletes what passes either test.
  pub without_twice :
      (p q : String → Bool) (d : Dict V) → without p (without q d) ≡ without (λ k. q k || p k) d
  unfolding without
  without_twice p q [] = refl
  without_twice p q ((i, w) ∷ d) = ground (arith, without_twice p q d)

  -- `k in d.keys()`
  pub has-keys : (k : String) (d : Dict V) → has k (keys d) ≡ has_key k d
  unfolding has has_key lookup
  has-keys k [] = refl
  has-keys k ((i, w) ∷ d) = ground (arith, eq_iff i k, eq_iff k i, has-keys k d)

  -- Deleting keys that are not there changes nothing.
  pub without_none :
      (p : String → Bool) (d : Dict V)
      → ((k : String) → has k (keys d) ≡ true → p k ≡ false)
      → without p d ≡ d
  unfolding without has
  without_none p [] h = refl
  without_none p ((i, w) ∷ d) h =
      let fresh : p i ≡ false = h i (ground (arith, eq_refl i)) in
      ground (arith, without_none p d (λ k m. h k (ground arith)))
