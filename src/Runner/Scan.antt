-- ===== src/Runner/Scan.antt =====
-- The walk over a run line against a character-by-character description of what is expanded.
use Prim.Native.Char.{Char, code}
use lib_python_worktree.Prelude.{
  ℕ, zero, suc, ◌≤◌, ◌<◌, String, ◌≡◌, refl, sym, ◌∙◌, inl, inr, Bool, true, false, Option, none,
  some, List, [], ◌∷◌, ◌&&◌, ◌||◌, not, ◌==◌, arith, if◌then◌else◌, Bool-cases, Option-cases,
}
use lib_python_worktree.Prelude.Texts.{char_count}
use lib_python_worktree.Runner.Quoting.{
  Quote, outside, single, double, skip_ticks, token_at, stops_parsing, at_dollar, at_ticks, walk,
}

abbrev pub is_some {ℓ} : {A : Type ℓ} → Option A → Bool
is_some none = false
is_some (some _) = true

abbrev pub is_nonempty {ℓ} : {A : Type ℓ} → List A → Bool
is_nonempty [] = false
is_nonempty (_ ∷ _) = true

module _ (is_space is_word : ℕ → Bool) where
  -- Whether the outer host expands something in the text. Within double quotes, `odd` tells that an
  -- odd number of backticks is right before, which takes the meaning of the next character.
  unfoldable pub expands : Quote → Bool → Bool → String → Bool
  expands state before odd String.[] = false
  expands double before odd (String.◌∷◌ c s) =
      let inside = expands double false false s in
      if code c == b'`'
      then expands double false (not odd) s
      else if code c == b'"'
      then (if odd then inside else expands outside false false s)
      else if code c == b'$'
      then (not odd && is_some (token_at is_word s)) || inside
      else inside
  expands single before odd (String.◌∷◌ c s) =
      expands (if code c == b'\'' then outside else single) false false s
  expands outside before odd (String.◌∷◌ c s) =
      not (stops_parsing is_space before (code c) s)
      && expands (if code c == b'\'' then single else if code c == b'"' then double else outside)
          (is_space (code c)) false s

  skip_ticks-le : (odd : Bool) (s : String) → char_count (skip_ticks odd s).1 ≤ char_count s
  unfolding skip_ticks char_count
  skip_ticks-le odd String.[] = omega arith
  skip_ticks-le odd (String.◌∷◌ c s) = elim (Bool-cases (code c == b'`')) [
    | inl e ↦ rw e (omega (arith, skip_ticks-le (not odd) s))
    | inr e ↦ rw e (omega arith)
  ]

  expands_tick :
      (odd : Bool) (c : Char) (s : String)
      → (code c == b'`') ≡ true
      → expands double false odd (String.◌∷◌ c s) ≡ expands double false (not odd) s
  unfolding expands
  expands_tick odd c s e = rw e refl

  -- A run of backticks counts by its parity.
  expands-skip_ticks :
      (odd : Bool) (s : String)
      → expands double false odd s ≡ expands double false (skip_ticks odd s).0 (skip_ticks odd s).1
  unfolding skip_ticks
  expands-skip_ticks odd String.[] = refl
  expands-skip_ticks odd (String.◌∷◌ c s) = elim (Bool-cases (code c == b'`')) [
    | inl e ↦ rw e (expands_tick odd c s e ∙ expands-skip_ticks (not odd) s)
    | inr e ↦ rw (e, skip_ticks) refl
  ]

  -- A run of backticks ends.
  abbrev NoTick : String → Type 0
  NoTick String.[] = Unit
  NoTick (String.◌∷◌ c s) = (code c == b'`') ≡ false

  skip_ticks-NoTick : (odd : Bool) (s : String) → NoTick (skip_ticks odd s).1
  unfolding skip_ticks
  skip_ticks-NoTick odd String.[] = tt
  skip_ticks-NoTick odd (String.◌∷◌ c s) = elim (Bool-cases (code c == b'`')) [
    | inl e ↦ rw e (skip_ticks-NoTick (not odd) s)
    | inr e ↦ rw e e
  ]

  -- The rest of the walk is right on shorter texts.
  abbrev Right : (Quote → Bool → String → List String) → ℕ → Type 0
  Right next n =
      (state : Quote) (before : Bool) (s : String)
      → char_count s < n
      → is_nonempty (next state before s) ≡ expands state before false s

  module _ (next : Quote → Bool → String → List String) (n : ℕ) (right : Right next n) where
    at_dollar_lem :
        (s : String)
        → char_count s < n
        → is_nonempty (at_dollar is_word next s)
          ≡ (is_some (token_at is_word s) || expands double false false s)
    unfolding at_dollar
    at_dollar_lem s h = elim (Option-cases (token_at is_word s)) [
      | inl e ↦ rw (e, at_dollar) (right double false s h)
      | inr (t, e) ↦ rw (e, at_dollar) refl
    ]

    at_ticks_lem :
        (odd : Bool) (s : String)
        → char_count s < n
        → NoTick s
        → is_nonempty (at_ticks is_word next odd s) ≡ expands double false odd s
    unfolding at_ticks char_count expands
    at_ticks_lem odd String.[] h t = right double false String.[] h
    at_ticks_lem odd (String.◌∷◌ c s) h t = ground (
      arith,
      right double false s,
      right outside false s,
      right double false (String.◌∷◌ c s),
      at_dollar_lem s,
    )

  expands-nil : (state : Quote) (before : Bool) → expands state before false String.[] ≡ false
  unfolding expands
  expands-nil outside before = refl
  expands-nil single before = refl
  expands-nil double before = refl

  walk-nil :
      (fuel : ℕ) (state : Quote) (before : Bool)
      → is_nonempty (walk is_space is_word (suc fuel) state before String.[])
        ≡ expands state before false String.[]
  unfolding walk
  walk-nil fuel state before = sym (expands-nil state before)

  module _ (fuel : ℕ) (right : Right (walk is_space is_word fuel) fuel) where
    walk-double :
        (before : Bool) (c : Char) (s : String)
        → char_count s < fuel
        → is_nonempty (walk is_space is_word (suc fuel) double before (String.◌∷◌ c s))
          ≡ expands double before false (String.◌∷◌ c s)
    unfolding walk expands skip_ticks
    walk-double before c s h = elim (Bool-cases (code c == b'`')) [
      | inl e ↦
          rw (e, skip_ticks)
            (at_ticks_lem (walk is_space is_word fuel) fuel right (skip_ticks true s).0
                (skip_ticks true s).1 (omega (arith, skip_ticks-le true s, h))
                (skip_ticks-NoTick true s)
              ∙ sym (expands-skip_ticks true s))
      | inr e ↦ rw e (
          ground (
            arith,
            right outside false s,
            right double false s,
            at_dollar_lem (walk is_space is_word fuel) fuel right s,
          ))
    ]

    walk-single :
        (before : Bool) (c : Char) (s : String)
        → char_count s < fuel
        → is_nonempty (walk is_space is_word (suc fuel) single before (String.◌∷◌ c s))
          ≡ expands single before false (String.◌∷◌ c s)
    unfolding walk expands
    walk-single before c s h = right _ false s h

    walk-outside :
        (before : Bool) (c : Char) (s : String)
        → char_count s < fuel
        → is_nonempty (walk is_space is_word (suc fuel) outside before (String.◌∷◌ c s))
          ≡ expands outside before false (String.◌∷◌ c s)
    unfolding walk expands
    walk-outside before c s h = elim (Bool-cases (stops_parsing is_space before (code c) s)) [
      | inl e ↦ rw e refl
      | inr e ↦ rw e (right _ _ s (omega arith))
    ]

  -- With more fuel than characters, the walk collects a token exactly if something is expanded.
  pub walk_lem :
      (fuel : ℕ) (state : Quote) (before : Bool) (s : String)
      → char_count s < fuel
      → is_nonempty (walk is_space is_word fuel state before s) ≡ expands state before false s
  unfolding char_count
  walk_lem zero state before s h = absurd (omega arith)
  walk_lem (suc fuel) state before String.[] h = walk-nil fuel state before
  walk_lem (suc fuel) double before (String.◌∷◌ c s) h =
      walk-double fuel (walk_lem fuel) before c s (omega arith)
  walk_lem (suc fuel) single before (String.◌∷◌ c s) h =
      walk-single fuel (walk_lem fuel) before c s (omega arith)
  walk_lem (suc fuel) outside before (String.◌∷◌ c s) h =
      walk-outside fuel (walk_lem fuel) before c s (omega arith)
