-- ===== src/Runner/Quoting.antt =====
-- `_ps_double_evaluated_tokens`. `is_space` and `is_word` stand for `\s` (`str.isspace`) and `\w`,
-- which Python reads by Unicode.
use Prim.Native.Char.{code}
use Prim.Native.String.{◌++◌}
use lib_python_worktree.Prelude.{
  ℕ, zero, suc, ◌+◌, String, Bool, true, false, Option, none, some, List, [], ◌∷◌, ◌&&◌, ◌||◌, not,
  leb, ◌==◌, if◌then◌else◌,
}
use lib_python_worktree.Prelude.Texts.{char_count, has_char}

-- The state of the walk.
pub data Quote : Type 0 where
  outside single double : Quote

-- `[A-Za-z_?^$]`
unfoldable pub starts_name : ℕ → Bool
starts_name c =
    (leb b'A' c && leb c b'Z')
    || (leb b'a' c && leb c b'z')
    || c == b'_'
    || c == b'?'
    || c == b'^'
    || c == b'$'

-- `[^}]*\}`: the text up to the first closing brace, and the rest.
unfoldable pub to_brace : String → Option (String × String)
to_brace String.[] = none
to_brace (String.◌∷◌ c s) =
    let rest = to_brace s in
    if code c == b'}'
    then some (String.◌∷◌ c String.[], s)
    else elim rest [ none ↦ none | some (t, s') ↦ some (String.◌∷◌ c t, s') ]

-- The run of backticks at the start: whether `odd` and their number are odd together, and the rest.
unfoldable pub skip_ticks : Bool → String → Bool × String
skip_ticks odd String.[] = (odd, String.[])
skip_ticks odd (String.◌∷◌ c s) =
    if code c == b'`' then skip_ticks (not odd) s else (odd, String.◌∷◌ c s)

-- `s.startswith("--%")` of a text whose first character is taken off, and what follows.
unfoldable pub after_stop : ℕ → String → Option String
after_stop c (String.◌∷◌ d (String.◌∷◌ e s)) =
    if c == b'-' && code d == b'-' && code e == b'%' then some s else none
after_stop c _ = none

module _ (is_space : ℕ → Bool) where
  -- The end of the text, or a space.
  unfoldable pub at_space : String → Bool
  at_space String.[] = true
  at_space (String.◌∷◌ c s) = is_space (code c)

  -- A standalone `--%`, where `before` tells that the start or a space is before it.
  unfoldable pub stops_parsing : Bool → ℕ → String → Bool
  stops_parsing before c s = elim (after_stop c s) [
    | none ↦ false
    | some rest ↦ before && at_space rest
  ]

module _ (is_word : ℕ → Bool) where
  -- `[\w:]*`: the longest run, and the rest.
  unfoldable pub name_run : String → String × String
  name_run String.[] = (String.[], String.[])
  name_run (String.◌∷◌ c s) =
      let (t, s') = name_run s in
      if is_word (code c) || code c == b':'
      then (String.◌∷◌ c t, s')
      else (String.[], String.◌∷◌ c s)

  -- `_PS_EXPANDABLE_TOKEN_RE` behind its dollar sign: the rest of the token, and what follows it.
  unfoldable pub token_at : String → Option (String × String)
  token_at String.[] = none
  token_at (String.◌∷◌ c s) =
      let braced = to_brace s in
      let (name, rest) = name_run s in
      if code c == b'{'
      then elim braced [ none ↦ none | some (t, s') ↦ some (String.◌∷◌ c t, s') ]
      else if code c == b'('
      then some (String.◌∷◌ c String.[], s)
      else if starts_name (code c)
      then some (String.◌∷◌ c name, rest)
      else none

  -- At a dollar sign within double quotes, with what is behind it; `next` is the rest of the walk.
  unfoldable pub at_dollar : (Quote → Bool → String → List String) → String → List String
  at_dollar next s = elim (token_at s) [
    | none ↦ next double false s
    | some (t, rest) ↦ ("$" ++ t) ∷ next double false rest
  ]

  -- Behind a run of backticks within double quotes.
  unfoldable pub at_ticks : (Quote → Bool → String → List String) → Bool → String → List String
  at_ticks next odd String.[] = next double false String.[]
  at_ticks next odd (String.◌∷◌ c s) =
      if code c == b'"'
      then next (if odd then double else outside) false s
      else if code c == b'$'
      then (if odd then next double false s else at_dollar next s)
      else next double false (String.◌∷◌ c s)

module _ (is_space is_word : ℕ → Bool) where
  -- The walk, one round of the loop for each unit of fuel; `before` tells that the position is the
  -- first or behind a space.
  unfoldable pub walk : ℕ → Quote → Bool → String → List String
  walk zero state before s = []
  walk (suc fuel) state before String.[] = []
  walk (suc fuel) double before (String.◌∷◌ c s) =
      let ticks = skip_ticks false (String.◌∷◌ c s) in
      let behind = at_ticks is_word (walk fuel) (ticks.0) (ticks.1) in
      let closed = walk fuel outside false s in
      let dollar = at_dollar is_word (walk fuel) s in
      let plain = walk fuel double false s in
      if code c == b'`'
      then behind
      else if code c == b'"'
      then closed
      else if code c == b'$'
      then dollar
      else plain
  walk (suc fuel) single before (String.◌∷◌ c s) =
      walk fuel (if code c == b'\'' then outside else single) false s
  walk (suc fuel) outside before (String.◌∷◌ c s) =
      let rest =
        walk fuel (if code c == b'\'' then single else if code c == b'"' then double else outside)
          (is_space (code c)) s in
      if stops_parsing is_space before (code c) s then [] else rest

-- `/` or a backslash
unfoldable pub is_separator : ℕ → Bool
is_separator c = c == b'/' || c == 92

unfoldable pub has_separator : String → Bool
has_separator String.[] = false
has_separator (String.◌∷◌ c s) = is_separator (code c) || has_separator s

-- What is behind the last separator, `(?:[^...]*[\\/])?` taken off.
unfoldable pub base_name : String → String
base_name String.[] = String.[]
base_name (String.◌∷◌ c s) =
    let rest = base_name s in
    if has_separator s then rest else if is_separator (code c) then s else String.◌∷◌ c s

-- `re.IGNORECASE` on the letters of the names; the long s counts as an s.
unfoldable pub fold : ℕ → ℕ
fold c = if leb b'A' c && leb c b'Z' then c + 32 else if c == 383 then b's' else c

unfoldable pub same_folded : String → String → Bool
same_folded String.[] String.[] = true
same_folded (String.◌∷◌ c s) (String.◌∷◌ d t) = fold (code c) == code d && same_folded s t
same_folded s t = false

-- `(?:powershell|pwsh)(?:\.exe)?`
unfoldable pub is_interpreter : String → Bool
is_interpreter s =
    same_folded s "powershell"
    || same_folded s "pwsh"
    || same_folded s "powershell.exe"
    || same_folded s "pwsh.exe"

-- The text up to the first double quote, and what is behind it.
unfoldable pub to_quote : String → Option (String × String)
to_quote String.[] = none
to_quote (String.◌∷◌ c s) =
    let rest = to_quote s in
    if code c == b'"'
    then some (String.[], s)
    else elim rest [ none ↦ none | some (t, s') ↦ some (String.◌∷◌ c t, s') ]

module _ (is_space : ℕ → Bool) where
  unfoldable pub skip_spaces : String → String
  skip_spaces String.[] = String.[]
  skip_spaces (String.◌∷◌ c s) =
      let rest = skip_spaces s in if is_space (code c) then rest else String.◌∷◌ c s

  -- The text up to the first space, and the rest.
  unfoldable pub to_space : String → String × String
  to_space String.[] = (String.[], String.[])
  to_space (String.◌∷◌ c s) =
      let (t, s') = to_space s in
      if is_space (code c) then (String.[], String.◌∷◌ c s) else (String.◌∷◌ c t, s')

  -- The first alternative of `_PS_NESTED_INTERPRETER_RE`, behind its opening quote.
  unfoldable pub quoted_rest : String → Option String
  quoted_rest s = elim (to_quote s) [
    | none ↦ none
    | some (t, rest) ↦
        if is_interpreter (base_name t) && at_space is_space rest then some rest else none
  ]

  -- The second alternative.
  unfoldable pub bare_rest : String → Option String
  bare_rest s =
      let (t, rest) = to_space s in
      if is_interpreter (base_name t) && not (has_char b'"' t) then some rest else none

  unfoldable pub first_token : String → Option String
  first_token String.[] = none
  first_token (String.◌∷◌ c s) =
      if code c == b'"' then quoted_rest s else bare_rest (String.◌∷◌ c s)

  -- What is behind the match of `_PS_NESTED_INTERPRETER_RE`, if it matches.
  unfoldable pub nested_rest : String → Option String
  nested_rest run_line = first_token (skip_spaces run_line)

module _ (is_space is_word : ℕ → Bool) where
  unfoldable pub double_evaluated_tokens : String → List String
  double_evaluated_tokens run_line = elim (nested_rest is_space run_line) [
    | none ↦ []
    | some rest ↦ walk is_space is_word (suc (char_count rest)) outside true rest
  ]
