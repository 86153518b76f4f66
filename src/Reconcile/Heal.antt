-- ===== src/Reconcile/Heal.antt =====
-- core/yaml_store.py, the third phase of `reconcile`: branch names that a wrong decoding has spoilt are
-- set to what git says. What a pass changes, it changes in the records of a second load.
use Prim.Native.Char.{code}
use lib_python_worktree.Prelude.{
  ℕ, String, Bool, true, false, Option, none, some, List, [], ◌∷◌, ◌&&◌, ◌||◌, not, ltb,
  if◌then◌else◌, str_eq,
}
use lib_python_worktree.Prelude.Dict.{Dict, lookup, insert, has_key}
use lib_python_worktree.Prelude.Texts.{less_text}
use lib_python_worktree.Git.{Call, completed, timed_out, no_git, is_exit}
use lib_python_worktree.Adopt.{Block, or_empty}
use lib_python_worktree.Store.{WorktreeRecord, Records, is_branch}
use lib_python_worktree.Checkout.{parse_worktree_porcelain}

-- What the phase sees of the outside: `git worktree list --porcelain` in a repository, Python's text
-- operations, `encode("utf-8")` and `decode(codec)` (`none`: it raises), and whether the second lock,
-- the load and the save work.
pub record Healing : Type 0 where
  pub worktree_list : String → Call
  pub strip : String → String
  pub rstrip : String → String
  pub resolve : String → String
  pub encode : String → Option (List ℕ)
  pub decode : String → List ℕ → Option String
  pub works : Bool

-- `s.isascii()`
unfoldable pub is_ascii : String → Bool
is_ascii String.[] = true
is_ascii (String.◌∷◌ c s) = ltb (code c) 128 && is_ascii s

unfoldable pub is_candidate : WorktreeRecord → Bool
is_candidate rec =
    not (str_eq rec.backing "primary")
    && not (str_eq (or_empty rec.branch) "")
    && not (is_ascii (or_empty rec.branch))

-- The repository of each candidate.
unfoldable pub candidates_in : Records → Dict String
candidates_in [] = []
candidates_in ((id, rec) ∷ rs) =
    let rest = candidates_in rs in if is_candidate rec then (id, rec.repo_root) ∷ rest else rest

unfoldable pub place_root : String → List String → List String
place_root root [] = root ∷ []
place_root root (r ∷ rs) =
    let rest = place_root root rs in
    if str_eq root r then r ∷ rs else if less_text root r then root ∷ r ∷ rs else r ∷ rest

-- `sorted(set(candidates.values()))`
unfoldable pub sorted_roots : Dict String → List String
sorted_roots [] = []
sorted_roots ((_, root) ∷ d) = place_root root (sorted_roots d)

module _ (h : Healing) where
  -- `utf8_bytes.decode(codec) == stored`
  unfoldable pub decodes_to : String → List ℕ → String → Bool
  decodes_to codec bytes stored = elim (h.decode codec bytes) [
    | none ↦ false
    | some s ↦ str_eq s stored
  ]

  -- `_is_utf8_mojibake_of(stored, live)`
  unfoldable pub is_utf8_mojibake_of : (stored live : String) → Bool
  is_utf8_mojibake_of stored live = elim (h.encode live) [
    | none ↦ false
    | some bytes ↦ decodes_to "cp1252" bytes stored || decodes_to "latin-1" bytes stored
  ]

  -- The blocks of a repository; one whose call fails is skipped.
  unfoldable pub blocks_from : Call → List Block
  blocks_from (timed_out _) = []
  blocks_from no_git = []
  blocks_from (completed p) =
      if is_exit 0 p.returncode then parse_worktree_porcelain h.strip h.rstrip p.stdout else []

  -- `records_by_path`, with the id of the record in place of the record.
  unfoldable pub ids_by_path : Dict String → Records → Dict String → Dict String
  ids_by_path candidates [] d = d
  ids_by_path candidates ((id, rec) ∷ rs) d =
      ids_by_path candidates rs
        (if has_key id candidates then insert (h.resolve rec.path) id d else d)

  -- The record of the path has another branch, which is a wrong decoding of the live one.
  unfoldable pub is_spoilt : String → WorktreeRecord → Bool
  is_spoilt live rec =
      not (is_branch rec.branch live) && is_utf8_mojibake_of (or_empty rec.branch) live

  unfoldable pub heal_record : String → String → Option WorktreeRecord → Records → Records
  heal_record live id none rs = rs
  heal_record live id (some rec) rs =
      if is_spoilt live rec then insert id (record rec { branch = some live }) rs else rs

  unfoldable pub heal_path : String → Option String → Records → Records
  heal_path live none rs = rs
  heal_path live (some id) rs = heal_record live id (lookup id rs) rs

  -- The body of the loop over the blocks.
  unfoldable pub heal_block : Dict String → Block → Records → Records
  heal_block by_path b rs =
      if str_eq (or_empty b.path) "" || str_eq (or_empty b.branch) ""
      then rs
      else heal_path (or_empty b.branch) (lookup (h.resolve (or_empty b.path)) by_path) rs

  unfoldable pub heal_blocks : Dict String → List Block → Records → Records
  heal_blocks by_path [] rs = rs
  heal_blocks by_path (b ∷ bs) rs = heal_blocks by_path bs (heal_block by_path b rs)

  unfoldable pub heal_roots : Dict String → List String → Records → Records
  heal_roots by_path [] rs = rs
  heal_roots by_path (root ∷ roots) rs =
      heal_roots by_path roots (heal_blocks by_path (blocks_from (h.worktree_list root)) rs)

  -- The phase, from the records of the first load and those of state.yaml.
  unfoldable pub heal_branches : (records fresh : Records) → Records
  heal_branches records fresh =
      let candidates = candidates_in records in
      if h.works
      then heal_roots (ids_by_path candidates fresh []) (sorted_roots candidates) fresh
      else fresh
