-- ===== src/Teardown/Dirt.antt =====
-- `_status_entries`, `_is_exempt_untracked` and `_real_dirt_paths`: which entries of
-- `git status --porcelain -z` are dirt that blocks a removal.
use lib_python_worktree.Prelude.{
  String, Bool, false, Option, none, some, List, [], ◌∷◌, ◌||◌, not, ltb, if◌then◌else◌, str_eq,
}
use lib_python_worktree.Prelude.Texts.{has_prefix, drop_chars, char_count}
use lib_python_worktree.Teardown.Types.{Probe, inconclusive, entries}

-- `[e for e in stdout.split("\0") if e]`
unfoldable pub non_empty : List String → List String
non_empty [] = []
non_empty (e ∷ es) = if str_eq e "" then non_empty es else e ∷ non_empty es

-- An empty list of entries is inconclusive too.
abbrev pub some_unless_empty : List String → Option (List String)
some_unless_empty [] = none
some_unless_empty (e ∷ es) = some (e ∷ es)

unfoldable pub status_entries : Probe → Option (List String)
status_entries inconclusive = none
status_entries (entries es) = some_unless_empty (non_empty es)

-- `_CONTRACT_DIR`, the first part of `CONTRACT_FILENAME`
abbrev pub contract_dir : String
contract_dir = ".seretos"

-- `path == _CONTRACT_DIR or path.startswith(contract_prefix)`
unfoldable pub in_contract_dir : String → Bool
in_contract_dir path = str_eq path contract_dir || has_prefix ".seretos/" path

unfoldable pub is_exempt_untracked : String → Bool
is_exempt_untracked entry =
    if ltb (char_count entry) 3 || not (has_prefix "??" entry)
    then false
    else in_contract_dir (drop_chars 3 entry)

-- `[entry[3:] for entry in entries if not _is_exempt_untracked(entry)]`
unfoldable pub dirt_of : List String → List String
dirt_of [] = []
dirt_of (e ∷ es) = if is_exempt_untracked e then dirt_of es else drop_chars 3 e ∷ dirt_of es

unfoldable pub real_dirt_paths : Option (List String) → List String
real_dirt_paths none = []
real_dirt_paths (some es) = dirt_of es
