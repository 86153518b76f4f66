-- ===== src/Checkout/Order.antt =====
-- The order of a listing.
use lib_python_worktree.Prelude.{
  String, ◌≡◌, inl, inr, ap, true, false, List, [], ◌∷◌, arith, Bool-cases,
}
use lib_python_worktree.Prelude.Lists.{All}
use lib_python_worktree.Prelude.Texts.{
  less_text, less_text_irrefl, less_text_total, less_text_trans,
}
use lib_python_worktree.Checkout.Listing.{EnvironmentEntry, less_pair, before, place, sort}

-- No entry comes before an earlier one.
abbrev pub IsSorted : List EnvironmentEntry → Type 0
IsSorted [] = Unit
IsSorted (x ∷ xs) = All (λ y. before y x ≡ false) xs × IsSorted xs

before_asym : (a b : EnvironmentEntry) → before a b ≡ true → before b a ≡ false
unfolding before less_pair
before_asym a b h =
    ground (arith, h, less_text_trans a.rec.path b.rec.path a.rec.path, less_text_irrefl a.rec.path)

less_text_connected :
    (s t u : String) → less_text u t ≡ false → less_text t s ≡ false → less_text u s ≡ false
less_text_connected s t u h k =
    ground (arith, h, k, less_text_trans t u s, less_text_total t u, ap (λ x. less_text x s))

before_connected :
    (a b c : EnvironmentEntry) → before c b ≡ false → before b a ≡ false → before c a ≡ false
unfolding before less_pair
before_connected a b c h k =
    ground (arith, h, k, less_text_connected a.rec.path b.rec.path c.rec.path)

All-place :
    (P : EnvironmentEntry → Type 0) (e : EnvironmentEntry) (es : List EnvironmentEntry)
    → P e
    → All P es
    → All P (place e es)
unfolding place
All-place P e [] p ps = (p, tt)
All-place P e (x ∷ xs) p (q, ps) = elim (Bool-cases (before x e)) [
  | inl b ↦ rw b (q, All-place P e xs p ps)
  | inr b ↦ rw b (p, (q, ps))
]

All-map_entries :
    (P Q : EnvironmentEntry → Type 0) (es : List EnvironmentEntry)
    → ((e : EnvironmentEntry) → P e → Q e)
    → All P es
    → All Q es
All-map_entries P Q [] f h = tt
All-map_entries P Q (e ∷ es) f (p, ps) = (f e p, All-map_entries P Q es f ps)

place-IsSorted :
    (e : EnvironmentEntry) (es : List EnvironmentEntry) → IsSorted es → IsSorted (place e es)
unfolding place
place-IsSorted e [] h = (tt, tt)
place-IsSorted e (x ∷ xs) (later, h) = elim (Bool-cases (before x e)) [
  | inl b ↦
      rw b
        (All-place (λ y. before y x ≡ false) e xs (before_asym x e b) later, place-IsSorted e xs h)
  | inr b ↦ rw b (
    (
      b,
      All-map_entries (λ y. before y x ≡ false) (λ y. before y e ≡ false) xs
          (λ y p. before_connected e x y p b) later,
    ),
    (later, h),
  )
]

pub sort-IsSorted : (es : List EnvironmentEntry) → IsSorted (sort es)
unfolding sort
sort-IsSorted [] = tt
sort-IsSorted (e ∷ es) = place-IsSorted e (sort es) (sort-IsSorted es)
