-- ===== src/Prelude/Results.antt =====
-- A call that returns or raises.
use mathlib.Core.Path.{◌≡◌, refl}
use mathlib.Core.Logic.{◌⊎◌, inl, inr}

pub data Result {ℓ κ} (E : Type ℓ) (A : Type κ) : Type (ℓ ⊔ κ) where
  ok : A → Result E A
  err : E → Result E A

module _ {ℓ κ ι} {E : Type ℓ} {A : Type κ} {B : Type ι} where
  infixl 5 ◌>>=◌
  abbrev pub ◌>>=◌ : Result E A → (A → Result E B) → Result E B
  call >>= rest = elim call [ err raised ↦ err raised | ok value ↦ rest value ]

  -- A block has returned: so have its first call and, on what that returned, the rest.
  pub >>=-eq-ok :
      (call : Result E A) (rest : A → Result E B) {y : B}
      → (call >>= rest) ≡ ok y
      → (x : A) × (call ≡ ok x) × (rest x ≡ ok y)
  >>=-eq-ok (err raised) rest e = cc
  >>=-eq-ok (ok value) rest e = (value, refl, e)

  -- A block has raised: its first call has, or the rest on what that returned.
  pub >>=-eq-err :
      (call : Result E A) (rest : A → Result E B) {raised : E}
      → (call >>= rest) ≡ err raised
      → (call ≡ err raised) ⊎ ((x : A) × (call ≡ ok x) × (rest x ≡ err raised))
  >>=-eq-err (err first) rest e = inl (cc)
  >>=-eq-err (ok value) rest e = inr (value, refl, e)

module _ {ℓ κ} {E : Type ℓ} {A : Type κ} where
  pub ok-eq-ok : {x y : A} → (let x' : Result E A = ok x in x') ≡ ok y → x ≡ y
  ok-eq-ok e = cc
