-- ===== src/Checkout/Porcelain.antt =====
-- `_parse_worktree_porcelain` of checkout.py and `_parse_worktree_porcelain_ys` of yaml_store.py.
-- `strip` and `rstrip` are Python's.
use lib_python_worktree.Prelude.{
  String, Bool, true, false, none, some, List, [], ◌∷◌, ◌++◌, ◌||◌, if◌then◌else◌, str_eq,
}
use lib_python_worktree.Prelude.Texts.{has_prefix, drop_chars}
use lib_python_worktree.Prelude.Splitlines.{split_lines}
use lib_python_worktree.Adopt.{Block}

-- `{}`
abbrev pub no_keys : Block
no_keys = record { path = none; branch = none; detached = false; prunable = false }

-- `if current:`
unfoldable pub has_keys : Block → Bool
has_keys b = elim b.path [
  | some _ ↦ true
  | none ↦ elim b.branch [ some _ ↦ true | none ↦ b.detached || b.prunable ]
]

unfoldable pub branch_of_ref : String → String
branch_of_ref ref = if has_prefix "refs/heads/" ref then drop_chars 11 ref else ref

unfoldable pub block_if_any : Block → List Block
block_if_any b = if has_keys b then b ∷ [] else []

module _ (strip rstrip : String → String) where
  -- A line that is not empty.
  unfoldable pub read_line : String → Block → Block
  read_line line b =
      if has_prefix "worktree " line
      then record b { path = some (strip (drop_chars 9 line)) }
      else if has_prefix "branch " line
      then record b { branch = some (branch_of_ref (strip (drop_chars 7 line))) }
      else if str_eq line "detached"
      then record b { detached = true }
      else if has_prefix "prunable" line
      then record b { prunable = true }
      else b

  unfoldable pub current_after : String → Block → Block
  current_after line b = if str_eq line "" then no_keys else read_line line b

  -- What the line appends to `blocks`.
  unfoldable pub closed_by : String → Block → List Block
  closed_by line b = if str_eq line "" then block_if_any b else []

  unfoldable pub parse_from : Block → List String → List Block
  parse_from current [] = block_if_any current
  parse_from current (raw ∷ lines) =
      closed_by (rstrip raw) current ++ parse_from (current_after (rstrip raw) current) lines

  unfoldable pub parse_worktree_porcelain : String → List Block
  parse_worktree_porcelain stdout = parse_from no_keys (split_lines stdout)
