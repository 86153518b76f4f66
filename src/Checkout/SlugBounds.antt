-- ===== src/Checkout/SlugBounds.antt =====
-- Whatever the text, its slug is short and safe in a path.
use Prim.Native.Char.{Char, code}
use Prim.Native.Nat.{◌≤◌}
use lib_python_worktree.Prelude.{
  ℕ, suc, zero, String, ◌≡◌, refl, inl, inr, Bool, true, false, ◌&&◌, ◌||◌, ◌==◌, not,
  if◌then◌else◌, str_eq, arith, Bool-cases,
}
use lib_python_worktree.Prelude.Texts.{
  take_chars, char_count, char_count-take_chars, str_eq-cons_nil,
}
use lib_python_worktree.Checkout.Slug.{
  is_alnum, emit, dash_runs, lstrip_dashes, rstrip_dashes, slug_text, slug,
}

-- Letters, digits and single dashes; `after_dash` tells whether there is a dash in front.
unfoldable pub is_dashed : (after_dash : Bool) → String → Bool
is_dashed after_dash String.[] = true
is_dashed after_dash (String.◌∷◌ c s) =
    (is_alnum (code c) || ((code c == 45) && not after_dash))
    && is_dashed (not (is_alnum (code c))) s

unfoldable pub starts_alnum : String → Bool
starts_alnum String.[] = false
starts_alnum (String.◌∷◌ c s) = is_alnum (code c)

-- `[a-z0-9](-?[a-z0-9])*-?`, of 40 characters at most.
pub record IsSlug (s : String) : Type 0 where
  pub starts : starts_alnum s ≡ true
  pub dashed : is_dashed false s ≡ true
  pub short : char_count s ≤ 40

emit-is_dashed :
    (c : Char) (s : String) (keep in_run : Bool)
    → is_alnum (code c) ≡ keep
    → is_dashed (not keep) s ≡ true
    → is_dashed in_run (emit keep in_run c s) ≡ true
unfolding emit is_dashed is_alnum
emit-is_dashed c s true in_run e h = ground arith
emit-is_dashed c s false true e h = h
emit-is_dashed c s false false e h = h

dash_runs-is_dashed : (in_run : Bool) (s : String) → is_dashed in_run (dash_runs in_run s) ≡ true
unfolding dash_runs is_dashed
dash_runs-is_dashed in_run String.[] = refl
dash_runs-is_dashed in_run (String.◌∷◌ c s) =
    emit-is_dashed c (dash_runs (not (is_alnum (code c))) s) (is_alnum (code c)) in_run refl
      (dash_runs-is_dashed (not (is_alnum (code c))) s)

lstrip_dashes-is_dashed :
    (after_dash : Bool) (s : String)
    → is_dashed after_dash s ≡ true
    → is_dashed false (lstrip_dashes s) ≡ true
unfolding lstrip_dashes is_dashed is_alnum
lstrip_dashes-is_dashed after_dash String.[] h = refl
lstrip_dashes-is_dashed after_dash (String.◌∷◌ c s) h =
    ground (arith, lstrip_dashes-is_dashed (not (is_alnum (code c))) s)

lstrip_dashes-starts_alnum :
    (after_dash : Bool) (s : String)
    → is_dashed after_dash s ≡ true
    → str_eq (lstrip_dashes s) "" ≡ false
    → starts_alnum (lstrip_dashes s) ≡ true
unfolding lstrip_dashes is_dashed starts_alnum is_alnum
lstrip_dashes-starts_alnum after_dash String.[] h k = absurd (cc)
lstrip_dashes-starts_alnum after_dash (String.◌∷◌ c s) h k =
    ground (arith, lstrip_dashes-starts_alnum (not (is_alnum (code c))) s)

rstrip_dashes-is_dashed :
    (after_dash : Bool) (s : String)
    → is_dashed after_dash s ≡ true
    → is_dashed after_dash (rstrip_dashes s) ≡ true
unfolding rstrip_dashes is_dashed
rstrip_dashes-is_dashed after_dash String.[] h = refl
rstrip_dashes-is_dashed after_dash (String.◌∷◌ c s) h =
    let ih = rstrip_dashes-is_dashed (not (is_alnum (code c))) s in
    elim (Bool-cases ((code c == 45) && str_eq (rstrip_dashes s) "")) [
      | inl e ↦ rw e refl
      | inr e ↦ rw e (ground (arith, ih))
    ]

rstrip_dashes-starts_alnum :
    (s : String) → starts_alnum s ≡ true → starts_alnum (rstrip_dashes s) ≡ true
unfolding rstrip_dashes starts_alnum is_alnum
rstrip_dashes-starts_alnum String.[] h = h
rstrip_dashes-starts_alnum (String.◌∷◌ c s) h = ground arith

take_chars-is_dashed :
    (n : ℕ) (after_dash : Bool) (s : String)
    → is_dashed after_dash s ≡ true
    → is_dashed after_dash (take_chars n s) ≡ true
unfolding take_chars is_dashed
take_chars-is_dashed zero after_dash s h = refl
take_chars-is_dashed (suc n) after_dash String.[] h = refl
take_chars-is_dashed (suc n) after_dash (String.◌∷◌ c s) h =
    ground (arith, take_chars-is_dashed n (not (is_alnum (code c))) s)

take_chars-starts_alnum :
    (n : ℕ) (s : String) → starts_alnum s ≡ true → starts_alnum (take_chars (suc n) s) ≡ true
unfolding take_chars starts_alnum
take_chars-starts_alnum n String.[] h = h
take_chars-starts_alnum n (String.◌∷◌ c s) h = h

x-IsSlug : IsSlug (take_chars 40 "x")
unfolding take_chars is_dashed starts_alnum is_alnum char_count
x-IsSlug = record { starts = refl; dashed = refl; short = omega arith }

take_chars-IsSlug :
    (s : String) → is_dashed false s ≡ true → starts_alnum s ≡ true → IsSlug (take_chars 40 s)
take_chars-IsSlug s h k = record {
  starts = take_chars-starts_alnum 39 s k;
  dashed = take_chars-is_dashed 40 false s h;
  short = char_count-take_chars 40 s;
}

-- The text between the dashes, cut, or `x` for no text.
cut-IsSlug :
    (t : String)
    → is_dashed false t ≡ true
    → (str_eq t "" ≡ false → starts_alnum t ≡ true)
    → IsSlug (take_chars 40 (if str_eq (rstrip_dashes t) "" then "x" else rstrip_dashes t))
unfolding rstrip_dashes
cut-IsSlug String.[] h k = x-IsSlug
cut-IsSlug (String.◌∷◌ c t) h k = go (String.◌∷◌ c t) h (k (str_eq-cons_nil c t))
  where
    go :
        (u : String)
        → is_dashed false u ≡ true
        → starts_alnum u ≡ true
        → IsSlug (take_chars 40 (if str_eq (rstrip_dashes u) "" then "x" else rstrip_dashes u))
    go u h k = elim (Bool-cases (str_eq (rstrip_dashes u) "")) [
      | inl e ↦ rw e x-IsSlug
      | inr e ↦ rw e (
          take_chars-IsSlug (rstrip_dashes u) (rstrip_dashes-is_dashed false u h)
            (rstrip_dashes-starts_alnum u k))
    ]

-- Whatever `lower` makes of the text, its slug starts with a letter or a digit of ASCII, is made of
-- those and of single dashes, and has at most 40 characters.
pub slug-IsSlug : (lower : String → String) (value : String) → IsSlug (slug lower value)
unfolding slug slug_text
slug-IsSlug lower value =
    cut-IsSlug (lstrip_dashes (dash_runs false (lower value)))
      (lstrip_dashes-is_dashed false _ (dash_runs-is_dashed false (lower value)))
      (lstrip_dashes-starts_alnum false _ (dash_runs-is_dashed false (lower value)))
