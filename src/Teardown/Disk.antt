-- ===== src/Teardown/Disk.antt =====
-- What the phases do to the disk, and the calls that take time.
use lib_python_worktree.Prelude.{
  ℕ, ◌+◌, suc, Bool, true, false, Option, none, some, List, [], ◌∷◌, ◌++◌, ◌&&◌, not, if◌then◌else◌,
}
use lib_python_worktree.Prelude.Lists.{contains}
use lib_python_worktree.Teardown.Types.{Dir, absent, hollow, full, Call, Outside, World}

-- `os.path.exists`
unfoldable pub exists : Dir → Bool
exists absent = false
exists hollow = true
exists full = true

-- `os.path.isdir(p) and os.listdir(p)`
unfoldable pub has_content : Dir → Bool
has_content full = true
has_content hollow = false
has_content absent = false

-- `_target_is_absent`
unfoldable pub target_is_absent : Dir → Dir → Bool → Bool
target_is_absent checkout staged force =
    if exists checkout then false else if force then true else not (has_content staged)

module _ (o : Outside) where
  -- A call to the outside, which takes time.
  unfoldable pub calling : Call → World → World
  calling c w = record w { now = suc (w.now + o.delay w.now); calls = c ∷ w.calls }

  -- A directory may land on a free name, and on an empty directory except on Windows.
  unfoldable pub can_land : Dir → Bool
  can_land absent = true
  can_land hollow = not o.windows
  can_land full = false

  -- `os.rename(record.path, staged)`; `none` is an `OSError`.
  unfoldable pub rename_out : World → Option World
  unfolding can_land exists
  rename_out w =
      if exists w.checkout && can_land w.staged && o.renames_out w.now
      then some (record w { checkout = absent; staged = w.checkout })
      else none

  -- `os.rename(staged, record.path)`
  unfoldable pub rename_back : World → Option World
  unfolding can_land exists
  rename_back w =
      if exists w.staged && can_land w.checkout && o.renames_back w.now
      then some (record w { checkout = w.staged; staged = absent })
      else none

  -- `_delete_tree_ladder` on the staged tree: `rmtree`, `rmtree` after a chmod sweep, and on
  -- Windows `rmtree` of the extended path and the robocopy mirror; it goes on only while
  -- something is left.
  unfoldable pub windows_rungs : ℕ → Dir → Dir
  unfolding exists
  windows_rungs t d =
      let third = o.leaves 3 t d in if exists third then o.leaves 4 t third else third

  unfoldable pub delete_ladder : ℕ → Dir → Dir
  unfolding exists windows_rungs
  delete_ladder t d =
      let first = o.leaves 1 t d in
      let second = o.leaves 2 t first in
      if not (exists d)
      then d
      else if not (exists first)
      then first
      else if not (exists second)
      then second
      else if o.windows
      then windows_rungs t second
      else second

  unfoldable pub delete_staged : World → World
  unfolding delete_ladder
  delete_staged w = record w { staged = delete_ladder w.now w.staged }

-- `_merge_killed_pids`: a pid that is there keeps its entry, a new one is added at the end.
unfoldable pub merge_killed : List ℕ → List ℕ → List ℕ
merge_killed existing [] = existing
merge_killed existing (p ∷ ps) =
    merge_killed (if contains p existing then existing else existing ++ p ∷ []) ps

unfoldable pub add_killed : List ℕ → World → World
unfolding merge_killed
add_killed ps w = record w {
  rec = record w.rec { killed_pids = merge_killed w.rec.killed_pids ps };
}
