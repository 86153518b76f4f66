-- ===== src/Prelude/Texts.antt =====
-- Operations on Python's `str`, character by character.
use Prim.Native.Nat.{ℕ, zero, suc, ◌≤◌}
use Prim.Native.Char.{Char, code}
use Prim.Native.String.{String}
use text.Mathlib.TextEquality.{Char-path, eq_iff}
use text.Mathlib.Text.{◌==◌ as str_eq}
use mathlib.Core.Bool.{Bool, true, false, ◌&&◌, ◌||◌}
use mathlib.Core.Path.{◌≡◌, refl, ap, ◌∙◌}
use mathlib.Core.Logic.{inl, inr}
use native.Mathlib.Omega.{arith}
use lib_python_worktree.Prelude.Tests.{◌==◌, ltb, if◌then◌else◌, Bool-cases}

-- `k.startswith(prefix)`, character by character
unfoldable pub has_prefix : String → String → Bool
has_prefix String.[] k = true
has_prefix (String.◌∷◌ c p) String.[] = false
has_prefix (String.◌∷◌ c p) (String.◌∷◌ d k) = (code c == code d) && has_prefix p k

-- `s[n:]`
unfoldable pub drop_chars : ℕ → String → String
drop_chars zero s = s
drop_chars (suc n) String.[] = String.[]
drop_chars (suc n) (String.◌∷◌ c s) = drop_chars n s

-- `len(s)`
unfoldable pub char_count : String → ℕ
char_count String.[] = zero
char_count (String.◌∷◌ c s) = suc (char_count s)

-- `s[:n]`
unfoldable pub take_chars : ℕ → String → String
take_chars zero s = String.[]
take_chars (suc n) String.[] = String.[]
take_chars (suc n) (String.◌∷◌ c s) = String.◌∷◌ c (take_chars n s)

-- `s.replace(chr(from), chr(to))`
unfoldable pub replace_char : ℕ → Char → String → String
replace_char from to String.[] = String.[]
replace_char from to (String.◌∷◌ c s) =
    String.◌∷◌ (if code c == from then to else c) (replace_char from to s)

-- `chr(c) in s`
unfoldable pub has_char : ℕ → String → Bool
has_char c String.[] = false
has_char c (String.◌∷◌ d s) = (code d == c) || has_char c s

-- `<` on texts, by code point.
unfoldable pub less_text : String → String → Bool
less_text s String.[] = false
less_text String.[] (String.◌∷◌ d t) = true
less_text (String.◌∷◌ c s) (String.◌∷◌ d t) =
    let rest = less_text s t in
    if ltb (code c) (code d) then true else if ltb (code d) (code c) then false else rest

pub take_chars_all : (n : ℕ) (s : String) → char_count s ≤ n → take_chars n s ≡ s
unfolding take_chars char_count
take_chars_all zero String.[] h = refl
take_chars_all zero (String.◌∷◌ c s) h = absurd (omega arith)
take_chars_all (suc n) String.[] h = refl
take_chars_all (suc n) (String.◌∷◌ c s) h = ap (String.◌∷◌ c) (take_chars_all n s (omega arith))

pub char_count-take_chars : (n : ℕ) (s : String) → char_count (take_chars n s) ≤ n
unfolding take_chars char_count
char_count-take_chars zero s = omega arith
char_count-take_chars (suc n) String.[] = omega arith
char_count-take_chars (suc n) (String.◌∷◌ c s) = omega (arith, char_count-take_chars n s)

pub replace_char_none :
    (from : ℕ) (to : Char) (s : String) → has_char from s ≡ false → replace_char from to s ≡ s
unfolding replace_char has_char
replace_char_none from to String.[] h = refl
replace_char_none from to (String.◌∷◌ c s) h = elim (Bool-cases (code c == from)) [
  | inl e ↦ absurd (cc (rw e at h))
  | inr e ↦ rw e (ap (String.◌∷◌ c) (replace_char_none from to s (rw e at h)))
]

pub has_char-replace_char :
    (from : ℕ) (to : Char) (s : String)
    → (code to == from) ≡ false
    → has_char from (replace_char from to s) ≡ false
unfolding replace_char has_char
has_char-replace_char from to String.[] h = refl
has_char-replace_char from to (String.◌∷◌ c s) h = elim (Bool-cases (code c == from)) [
  | inl e ↦ rw e (ground (arith, has_char-replace_char from to s h))
  | inr e ↦ rw e (ground (arith, has_char-replace_char from to s h))
]

pub less_text_irrefl : (s : String) → less_text s s ≡ false
unfolding less_text
less_text_irrefl String.[] = refl
less_text_irrefl (String.◌∷◌ c s) = ground (arith, less_text_irrefl s)

pub less_text_total : (s t : String) → less_text s t ≡ false → less_text t s ≡ false → s ≡ t
unfolding less_text
less_text_total String.[] String.[] h k = refl
less_text_total String.[] (String.◌∷◌ d t) h k = ground arith
less_text_total (String.◌∷◌ c s) String.[] h k = ground arith
less_text_total (String.◌∷◌ c s) (String.◌∷◌ d t) h k =
    let same : code c ≡ code d = ground arith in
    ap (λ x. String.◌∷◌ x s) (Char-path c d same)
    ∙ ap (String.◌∷◌ d) (less_text_total s t (ground arith) (ground arith))

pub less_text_trans :
    (s t u : String) → less_text s t ≡ true → less_text t u ≡ true → less_text s u ≡ true
unfolding less_text
less_text_trans s t String.[] h k = ground arith
less_text_trans s String.[] (String.◌∷◌ e u) h k = ground arith
less_text_trans String.[] (String.◌∷◌ d t) (String.◌∷◌ e u) h k = refl
less_text_trans (String.◌∷◌ c s) (String.◌∷◌ d t) (String.◌∷◌ e u) h k =
    ground (arith, less_text_trans s t u)

pub str_eq-cons_nil : (c : Char) (s : String) → str_eq (String.◌∷◌ c s) "" ≡ false
unfolding char_count
str_eq-cons_nil c s =
    let differ : String.◌∷◌ c s ≡ "" → ⊥ =
      λ e. let q : suc (char_count s) ≡ zero = ap char_count e in omega arith in
    ground (arith, eq_iff (String.◌∷◌ c s) "", differ)
