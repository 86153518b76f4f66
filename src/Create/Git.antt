-- ===== src/Create/Git.antt =====
-- What `create` reads from the answers of git.
use lib_python_worktree.Prelude.{
  String, Bool, true, false, Option, none, some, List, [], ◌∷◌, ◌||◌, ◌==◌, if◌then◌else◌, str_eq,
}
use lib_python_worktree.Prelude.Texts.{has_prefix, drop_chars, char_count, replace_char}
use Prim.Native.Char.{code}

-- `needle in s`
unfoldable pub has_text : String → String → Bool
has_text needle String.[] = has_prefix needle String.[]
has_text needle (String.◌∷◌ c s) = has_prefix needle (String.◌∷◌ c s) || has_text needle s

-- What is behind a prefix.
unfoldable pub behind : String → String → Option String
behind p s = if has_prefix p s then some (drop_chars (char_count p) s) else none

-- `([^']+)'`: the text up to a quote, if there is one and the text is not empty, and the rest.
unfoldable pub to_apostrophe : String → Option (String × String)
to_apostrophe String.[] = none
to_apostrophe (String.◌∷◌ c s) =
    let rest = to_apostrophe s in
    if code c == b'\''
    then some (String.[], s)
    else elim rest [ none ↦ none | some (t, s') ↦ some (String.◌∷◌ c t, s') ]

unfoldable pub quoted : String → Option (String × String)
quoted s = elim (to_apostrophe s) [
  | none ↦ none
  | some (t, rest) ↦ if str_eq t "" then none else some (t, rest)
]

-- `(?:checked out|used by worktree) at '`
unfoldable pub behind_reason : String → Option String
behind_reason s = elim (behind "checked out at '" s) [
  | some rest ↦ some rest
  | none ↦ behind "used by worktree at '" s
]

-- `_ALREADY_CHECKED_OUT_RE` at the start of a text, in three parts.
unfoldable pub conflict_path : String → String → Option (String × String)
conflict_path branch s = elim (quoted s) [ none ↦ none | some (path, _) ↦ some (branch, path) ]

unfoldable pub conflict_reason : String → String → Option (String × String)
conflict_reason branch s = elim (behind " is already " s) [
  | none ↦ none
  | some rest ↦ elim (behind_reason rest) [ none ↦ none | some rest' ↦ conflict_path branch rest' ]
]

unfoldable pub conflict_here : String → Option (String × String)
conflict_here s = elim (behind "fatal: '" s) [
  | none ↦ none
  | some rest ↦ elim (quoted rest) [
    | none ↦ none
    | some (branch, rest') ↦ conflict_reason branch rest'
  ]
]

-- `_parse_already_checked_out`: the first match.
unfoldable pub parse_already_checked_out : String → Option (String × String)
parse_already_checked_out String.[] = none
parse_already_checked_out (String.◌∷◌ c s) =
    let rest = parse_already_checked_out s in
    elim (conflict_here (String.◌∷◌ c s)) [ some found ↦ some found | none ↦ rest ]

-- The local variables of `_is_path_prunable`.
pub record Scan : Type 0 where
  pub current_path : Option String
  pub current_prunable : Bool
  pub found : Option Bool

-- `_is_path_prunable` over the lines, stripped on the right; `strip` and `lower` are Python's.
module _ (strip lower : String → String) (target_norm : String) where
  unfoldable pub flush : Scan → Scan
  flush s = elim s.current_path [
    | none ↦ s
    | some path ↦
        if str_eq (lower (replace_char 92 "/" path)) target_norm
        then record s { found = some s.current_prunable }
        else s
  ]

  unfoldable pub scan_line : String → Scan → Scan
  scan_line line s =
      if str_eq line ""
      then record (flush s) { current_path = none; current_prunable = false }
      else if has_prefix "worktree " line
      then record (flush s) {
        current_path = some (strip (drop_chars 9 line));
        current_prunable = false;
      }
      else if has_prefix "prunable" line
      then record s { current_prunable = true }
      else s

  unfoldable pub scan_lines : List String → Scan → Scan
  scan_lines [] s = flush s
  scan_lines (line ∷ lines) s = scan_lines lines (scan_line line s)

  -- `none` where the listing has failed.
  unfoldable pub is_path_prunable : Option (List String) → Option Bool
  is_path_prunable none = none
  is_path_prunable (some lines) =
      (scan_lines lines
        (record { current_path = none; current_prunable = false; found = none })).found
