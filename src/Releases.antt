-- ===== src/Releases.antt =====
-- .github/scripts/prev_release_tag.py: the greatest released tag below a version, by semantic
-- version precedence. `digit_value` stands for the decimal value of a character that `\d` matches
-- and `int` reads, which Python takes from Unicode.
pub mod Precedence
pub mod Transitive
pub mod Greatest
mod Tests
use Prim.Native.Char.{Char, code}
use lib_python_worktree.Prelude.Texts.{less_text}
use lib_python_worktree.Prelude.{
  ℕ, zero, suc, ◌+◌, ◌-◌, ◌*◌, String, Bool, true, false, Option, none, some, List, [], ◌∷◌, map,
  ◌&&◌, ◌||◌, not, ltb, leb, ◌==◌, if◌then◌else◌,
}

-- `(major, minor, patch, prerelease-or-None)`
pub record ParsedVersion : Type 0 where
  pub major : ℕ
  pub minor : ℕ
  pub patch : ℕ
  pub prerelease : Option String

-- `(0, int(p))` or `(1, p)`
pub data Part : Type 0 where
  numeric : ℕ → Part
  alphanumeric : String → Part

-- `(major, minor, patch, 0 or 1, parts)`
pub record Key : Type 0 where
  pub major : ℕ
  pub minor : ℕ
  pub patch : ℕ
  pub release : ℕ
  pub parts : List Part

-- `$`: the end, or a line feed before it.
unfoldable pub is_end : String → Bool
is_end String.[] = true
is_end (String.◌∷◌ c String.[]) = code c == 10
is_end (String.◌∷◌ c (String.◌∷◌ d s)) = false

abbrev pub between : ℕ → ℕ → Char → Bool
between low high c = leb low (code c) && leb (code c) high

-- `[0-9]`, as `str.isdigit` on the characters that a prerelease may hold.
unfoldable pub is_digit : Char → Bool
is_digit c = between 48 57 c

-- `[0-9A-Za-z.-]`
unfoldable pub is_prerelease_char : Char → Bool
is_prerelease_char c =
    is_digit c || between 65 90 c || between 97 122 c || code c == 46 || code c == 45

-- `[0-9A-Za-z.-]*$`, the text in front of the end.
unfoldable pub read_run : String → Option String
read_run String.[] = some String.[]
read_run (String.◌∷◌ c s) =
    let rest = read_run s in
    if is_prerelease_char c
    then elim rest [ none ↦ none | some taken ↦ some (String.◌∷◌ c taken) ]
    else if is_end (String.◌∷◌ c s)
    then some String.[]
    else none

-- `(?:-([0-9A-Za-z.-]+))?$`; the outer `none` is no match.
unfoldable pub read_tail : String → Option (Option String)
read_tail String.[] = some none
read_tail (String.◌∷◌ c s) =
    if is_end (String.◌∷◌ c s)
    then some none
    else if code c == 45
    then elim (read_run s) [
      | none ↦ none
      | some String.[] ↦ none
      | some (String.◌∷◌ d taken) ↦ some (some (String.◌∷◌ d taken))
    ]
    else none

-- `\.`
unfoldable pub skip_dot : String → Option String
skip_dot String.[] = none
skip_dot (String.◌∷◌ c s) = if code c == 46 then some s else none

-- `value[1:] if value.startswith("v") else value`
unfoldable pub bare : String → String
bare String.[] = String.[]
bare (String.◌∷◌ c s) = if code c == 118 then s else String.◌∷◌ c s

-- `prerelease.split(".")`
abbrev pub add_to_first : Char → List String → List String
add_to_first c [] = String.◌∷◌ c String.[] ∷ []
add_to_first c (t ∷ ts) = String.◌∷◌ c t ∷ ts

unfoldable pub split_dots : String → List String
split_dots String.[] = String.[] ∷ []
split_dots (String.◌∷◌ c s) =
    let rest = split_dots s in if code c == 46 then String.[] ∷ rest else add_to_first c rest

-- `int(p)` of a text of digits, after `n`; `none` where a character is no digit.
unfoldable pub digits_value : ℕ → String → Option ℕ
digits_value n String.[] = some n
digits_value n (String.◌∷◌ c s) =
    let rest = digits_value (n * 10 + (code c - 48)) s in if is_digit c then rest else none

-- `(0, int(p)) if p.isdigit() else (1, p)`
unfoldable pub part_of : String → Part
part_of String.[] = alphanumeric String.[]
part_of (String.◌∷◌ c s) = elim (digits_value 0 (String.◌∷◌ c s)) [
  | some n ↦ numeric n
  | none ↦ alphanumeric (String.◌∷◌ c s)
]

unfoldable pub precedence_key : ParsedVersion → Key
precedence_key v = elim v.prerelease [
  | none ↦ record { major = v.major; minor = v.minor; patch = v.patch; release = 1; parts = [] }
  | some pre ↦ record {
    major = v.major;
    minor = v.minor;
    patch = v.patch;
    release = 0;
    parts = map part_of (split_dots pre);
  }
]

-- `<` on the tuples of a part.
unfoldable pub less_part : Part → Part → Bool
less_part (numeric m) (numeric n) = ltb m n
less_part (numeric m) (alphanumeric t) = true
less_part (alphanumeric s) (numeric n) = false
less_part (alphanumeric s) (alphanumeric t) = less_text s t

-- `<` on tuples: the first place where they differ decides, then the length.
unfoldable pub less_parts : List Part → List Part → Bool
less_parts ps [] = false
less_parts [] (q ∷ qs) = true
less_parts (p ∷ ps) (q ∷ qs) =
    let rest = less_parts ps qs in
    if less_part p q then true else if less_part q p then false else rest

abbrev pub less_then : ℕ → ℕ → Bool → Bool
less_then m n rest = if ltb m n then true else if ltb n m then false else rest

unfoldable pub less_key : Key → Key → Bool
less_key j k = less_then j.major k.major (
    less_then j.minor k.minor
      (less_then j.patch k.patch (less_then j.release k.release (less_parts j.parts k.parts))))

-- `None` ends the parse.
infixl 5 ◌>>=◌
abbrev ◌>>=◌ : {A B : Type 0} → Option A → (A → Option B) → Option B
found >>= rest = elim found [ some x ↦ rest x | none ↦ none ]

module _ (digit_value : Char → Option ℕ) where
  -- `\d*` after a number that begins with `n`.
  unfoldable pub read_digits : ℕ → String → ℕ × String
  read_digits n String.[] = (n, String.[])
  read_digits n (String.◌∷◌ c s) = elim (digit_value c) [
    | none ↦ (n, String.◌∷◌ c s)
    | some d ↦ read_digits (n * 10 + d) s
  ]

  -- `(\d+)`
  unfoldable pub read_number : String → Option (ℕ × String)
  read_number String.[] = none
  read_number (String.◌∷◌ c s) = elim (digit_value c) [
    | none ↦ none
    | some d ↦ some (read_digits d s)
  ]

  -- `_parse_semver`
  unfoldable pub parse_semver : String → Option ParsedVersion
  parse_semver value = do
    (major, s₁) ← read_number (bare value)
    s₂ ← skip_dot s₁
    (minor, s₃) ← read_number s₂
    s₄ ← skip_dot s₃
    (patch, s₅) ← read_number s₄
    prerelease ← read_tail s₅
    some (record { major = major; minor = minor; patch = patch; prerelease = prerelease })

  unfoldable pub key_of : String → Option Key
  key_of tag = elim (parse_semver tag) [ none ↦ none | some v ↦ some (precedence_key v) ]

  -- `best_key is None or key > best_key`
  abbrev pub improves : Option (String × Key) → Key → Bool
  improves none key = true
  improves (some (_, best)) key = less_key best key

  -- The loop over the tags.
  unfoldable pub best_below : Key → Option (String × Key) → List String → Option (String × Key)
  best_below target best [] = best
  best_below target best (tag ∷ tags) = elim (key_of tag) [
    | none ↦ best_below target best tags
    | some key ↦
        best_below target
          (if less_key key target && improves best key then some (tag, key) else best) tags
  ]

  unfoldable pub previous_tag : String → List String → Option String
  previous_tag version tags = elim (key_of version) [
    | none ↦ none
    | some target ↦ elim (best_below target none tags) [ none ↦ none | some (tag, _) ↦ some tag ]
  ]
