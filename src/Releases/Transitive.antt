-- ===== src/Releases/Transitive.antt =====
-- The precedence of versions is transitive.
use lib_python_worktree.Prelude.{
  ℕ, ◌≡◌, refl, sym, ◌∙◌, subst, ◌⊎◌, inl, inr, Bool, true, false, List, [], ◌∷◌, arith, Bool-cases,
}
use lib_python_worktree.Releases.{Part, Key, less_part, less_parts, less_then, less_key}
use lib_python_worktree.Releases.Precedence.{less_part_irrefl, less_part_total, less_part_trans}

less_part_asym : (p q : Part) → less_part p q ≡ true → less_part q p ≡ true → ⊥
less_part_asym p q h k = ground (arith, less_part_trans p q p h k, less_part_irrefl p)

-- The first parts decide, or they are equal and the rest decides.
less_parts-cases :
    (p q : Part) (ps qs : List Part)
    → less_parts (p ∷ ps) (q ∷ qs) ≡ true
    → (less_part p q ≡ true) ⊎ ((p ≡ q) × (less_parts ps qs ≡ true))
unfolding less_parts
less_parts-cases p q ps qs h = elim (Bool-cases (less_part p q)) [
  | inl e ↦ inl e
  | inr e ↦ elim (Bool-cases (less_part q p)) [
    | inl f ↦ ground (arith)
    | inr f ↦ inr (less_part_total p q e f, ground arith)
  ]
]

less_parts-first :
    (p q : Part) (ps qs : List Part) → less_part p q ≡ true → less_parts (p ∷ ps) (q ∷ qs) ≡ true
unfolding less_parts
less_parts-first p q ps qs e = rw (e, less_parts) refl

less_parts-rest :
    (p : Part) (ps qs : List Part) → less_parts ps qs ≡ true → less_parts (p ∷ ps) (p ∷ qs) ≡ true
unfolding less_parts
less_parts-rest p ps qs e = rw (less_part_irrefl p, less_parts, e) refl

less_parts_trans :
    (ps qs rs : List Part)
    → less_parts ps qs ≡ true
    → less_parts qs rs ≡ true
    → less_parts ps rs ≡ true
unfolding less_parts
less_parts_trans ps qs [] h k = ground arith
less_parts_trans ps [] (r ∷ rs) h k = ground arith
less_parts_trans [] (q ∷ qs) (r ∷ rs) h k = refl
less_parts_trans (p ∷ ps) (q ∷ qs) (r ∷ rs) h k = elim (less_parts-cases p q ps qs h) [
  | inl pq ↦ elim (less_parts-cases q r qs rs k) [
    | inl qr ↦ less_parts-first p r ps rs (less_part_trans p q r pq qr)
    | inr (same, _) ↦ less_parts-first p r ps rs (subst (λ x. less_part p x ≡ true) same pq)
  ]
  | inr (same, h') ↦ elim (less_parts-cases q r qs rs k) [
    | inl qr ↦ less_parts-first p r ps rs (subst (λ x. less_part x r ≡ true) (sym same) qr)
    | inr (same', k') ↦
        subst (λ x. less_parts (p ∷ ps) (x ∷ rs) ≡ true) (same ∙ same')
          (less_parts-rest p ps rs (less_parts_trans ps qs rs h' k'))
  ]
]

less_then_trans :
    (a b c : ℕ) (ab bc ac : Bool)
    → (ab ≡ true → bc ≡ true → ac ≡ true)
    → less_then a b ab ≡ true
    → less_then b c bc ≡ true
    → less_then a c ac ≡ true
less_then_trans a b c ab bc ac t h k = ground (arith, t)

-- The precedence of versions is transitive: of the numeric triple, then a release above its
-- prereleases, then the parts of a prerelease one by one, numbers below texts and a shorter list
-- below a longer one that it begins.
pub less_key_trans : (i j k : Key) → less_key i j ≡ true → less_key j k ≡ true → less_key i k ≡ true
unfolding less_key
less_key_trans i j k = less_then_trans i.major j.major k.major _ _ _ (
    less_then_trans i.minor j.minor k.minor _ _ _ (
      less_then_trans i.patch j.patch k.patch _ _ _ (
        less_then_trans i.release j.release k.release _ _ _
          (less_parts_trans i.parts j.parts k.parts))))

less_parts_irrefl : (ps : List Part) → less_parts ps ps ≡ false
unfolding less_parts
less_parts_irrefl [] = refl
less_parts_irrefl (p ∷ ps) = ground (arith, less_part_irrefl p, less_parts_irrefl ps)

pub less_key_irrefl : (k : Key) → less_key k k ≡ false
unfolding less_key
less_key_irrefl k = ground (arith, less_parts_irrefl k.parts)
