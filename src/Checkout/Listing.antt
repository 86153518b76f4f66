-- ===== src/Checkout/Listing.antt =====
-- `classify_checkout` and `list_repo`. Paths are texts, as POSIX gives them; pathlib and git are
-- parameters.
use lib_python_worktree.Prelude.{
  String, Bool, true, false, Option, none, some, List, [], ◌∷◌, ◌++◌, map, ◌||◌, not, if◌then◌else◌,
  str_eq,
}
use lib_python_worktree.Prelude.Results.{Result, ok, err, ◌>>=◌}
use lib_python_worktree.Prelude.Dict.{Dict, lookup, insert}
use lib_python_worktree.Prelude.Lists.{has}
use lib_python_worktree.Prelude.Texts.{less_text}
use lib_python_worktree.Git.{Call, completed, timed_out, no_git, is_exit}
use lib_python_worktree.Adopt.{Block}
use lib_python_worktree.Store.{WorktreeRecord, new_record}
use lib_python_worktree.Prelude.Splitlines.{split_lines}
use lib_python_worktree.Checkout.Porcelain.{parse_worktree_porcelain}

pub record CheckoutInfo : Type 0 where
  pub backing : String
  pub repo_root : String
  pub checkout_path : String

pub record EnvironmentEntry : Type 0 where
  pub rec : WorktreeRecord
  pub is_current : Bool
  pub tracked : Bool

pub record RepoListing : Type 0 where
  pub repo_root : String
  pub entries : List EnvironmentEntry

-- `InvalidRepoError`, by the place that raises it, `GitTimeoutError`, OSError of a missing git, and
-- the KeyError of a first block without a path.
pub data ListError : Type 0 where
  cannot_resolve does_not_exist not_a_directory not_a_repository unexpected_output listing_failed
        git_timeout os_error key_error :
      ListError

-- `resolved` is `expanduser` and `resolve`, which may raise OSError.
pub record Paths : Type 0 where
  pub resolved : String → Option String
  pub resolve : String → String
  pub parent : String → String
  pub exists : String → Bool
  pub is_dir : String → Bool
  pub contains : (root target : String) → Bool
  pub strip : String → String
  pub rstrip : String → String
  pub rev_parse : String → Call
  pub worktree_list : String → Call
  pub primary_id : String → String
  pub untracked_id : String → String

-- The part of a tuple comparison that is behind the first place.
unfoldable pub less_pair : (first second : Bool) → Bool → Bool
less_pair false true rest = true
less_pair true false rest = false
less_pair false false rest = rest
less_pair true true rest = rest

-- `key(a) < key(b)` for the key `(backing != "primary", path)`.
unfoldable pub before : EnvironmentEntry → EnvironmentEntry → Bool
before a b =
    less_pair (not (str_eq a.rec.backing "primary")) (not (str_eq b.rec.backing "primary"))
      (less_text a.rec.path b.rec.path)

unfoldable pub place : EnvironmentEntry → List EnvironmentEntry → List EnvironmentEntry
place e [] = e ∷ []
place e (x ∷ xs) = let rest = place e xs in if before x e then x ∷ rest else e ∷ x ∷ xs

-- `entries.sort`, which is stable.
unfoldable pub sort : List EnvironmentEntry → List EnvironmentEntry
sort [] = []
sort (e ∷ es) = place e (sort es)

-- `[ln.strip() for ln in lines if ln.strip()]`
unfoldable pub non_empty_lines : (String → String) → List String → List String
non_empty_lines strip [] = []
non_empty_lines strip (l ∷ ls) =
    let rest = non_empty_lines strip ls in if str_eq (strip l) "" then rest else strip l ∷ rest

module _ (o : Paths) where
  unfoldable pub info_of : String → List String → Result ListError CheckoutInfo
  info_of checkout_path [] = err unexpected_output
  info_of checkout_path (l ∷ []) = err unexpected_output
  info_of checkout_path (l ∷ m ∷ ls) = ok (record {
    backing = if str_eq (o.resolve l) (o.resolve m) then "primary" else "worktree";
    repo_root = o.resolve (o.parent (o.resolve m));
    checkout_path = checkout_path;
  })

  unfoldable pub info_from : String → Call → Result ListError CheckoutInfo
  info_from checkout_path (timed_out _) = err git_timeout
  info_from checkout_path no_git = err os_error
  info_from checkout_path (completed p) =
      if is_exit 0 p.returncode
      then info_of checkout_path (non_empty_lines o.strip (split_lines p.stdout))
      else err not_a_repository

  unfoldable pub classify_checkout : String → Result ListError CheckoutInfo
  classify_checkout path = elim (o.resolved path) [
    | none ↦ err cannot_resolve
    | some checkout_path ↦
        if not (o.exists checkout_path)
        then err does_not_exist
        else if not (o.is_dir checkout_path)
        then err not_a_directory
        else info_from checkout_path (o.rev_parse checkout_path)
  ]

  -- `records_by_path`, over the records that are left.
  unfoldable pub by_path : String → List WorktreeRecord → Dict WorktreeRecord → Dict WorktreeRecord
  by_path root [] d = d
  by_path root (r ∷ rs) d =
      by_path root rs (if str_eq r.repo_root root then insert (o.resolve r.path) r d else d)

  -- The branch of a tracked worktree, as git sees it.
  unfoldable pub refresh : Option String → WorktreeRecord → WorktreeRecord
  refresh none rec = rec
  refresh (some live) rec = if str_eq live "" then rec else record rec { branch = some live }

  unfoldable pub untracked : CheckoutInfo → Bool → Option String → String → WorktreeRecord
  untracked info true branch path =
      record (new_record (o.primary_id info.repo_root) info.repo_root none path) {
        backing = "primary";
      }
  untracked info false branch path = new_record (o.untracked_id path) info.repo_root branch path

  unfoldable pub live_entry :
      CheckoutInfo → Bool → Option String → String → Option WorktreeRecord → EnvironmentEntry
  live_entry info is_primary branch path (some rec) = record {
    rec = if is_primary then rec else refresh branch rec;
    is_current = o.contains path info.checkout_path;
    tracked = true;
  }
  live_entry info is_primary branch path none = record {
    rec = untracked info is_primary branch path;
    is_current = o.contains path info.checkout_path;
    tracked = false;
  }

  -- The resolved path of a block that is listed.
  unfoldable pub live_path : Block → Option String
  live_path b = elim b.path [
    | none ↦ none
    | some path ↦ if str_eq path "" || b.prunable then none else some (o.resolve path)
  ]

  -- `entries.append` and `live_paths.add`, in front of what the later blocks add.
  unfoldable pub append_live :
      CheckoutInfo
      → (primary_path : String) → Dict WorktreeRecord
      → (branch path : Option String) → List (String × EnvironmentEntry)
      → List (String × EnvironmentEntry)
  append_live info primary_path d branch none rest = rest
  append_live info primary_path d branch (some path) rest =
      (path, live_entry info (str_eq path primary_path) branch path (lookup path d)) ∷ rest

  -- The first loop, with the path of each entry.
  unfoldable pub live_entries :
      CheckoutInfo → String → Dict WorktreeRecord → List Block → List (String × EnvironmentEntry)
  live_entries info primary_path d [] = []
  live_entries info primary_path d (b ∷ bs) =
      append_live info primary_path d b.branch (live_path b) (live_entries info primary_path d bs)

  unfoldable pub as_orphaned : WorktreeRecord → WorktreeRecord
  as_orphaned rec = record rec { status = "orphaned" }

  -- The second loop.
  unfoldable pub orphaned_entries :
      CheckoutInfo → List String → Dict WorktreeRecord → List EnvironmentEntry
  orphaned_entries info live_paths [] = []
  orphaned_entries info live_paths ((path, rec) ∷ d) =
      let rest = orphaned_entries info live_paths d in
      if has path live_paths || str_eq rec.backing "primary"
      then rest
      else record {
        rec = as_orphaned rec;
        is_current = o.contains path info.checkout_path;
        tracked = true;
      }
        ∷ rest

  unfoldable pub listing : CheckoutInfo → String → Dict WorktreeRecord → List Block → RepoListing
  listing info primary_path d blocks =
      let live = live_entries info primary_path d blocks in
      record {
        repo_root = info.repo_root;
        entries = sort (map (λ p. p.1) live ++ orphaned_entries info (map (λ p. p.0) live) d);
      }

  -- `Path(blocks[0]["path"]).resolve() if blocks else info.repo_root`
  unfoldable pub primary_path_of : CheckoutInfo → List Block → Result ListError String
  primary_path_of info [] = ok info.repo_root
  primary_path_of info (b ∷ bs) = elim b.path [
    | none ↦ err key_error
    | some path ↦ ok (o.resolve path)
  ]

  unfoldable pub list_blocks :
      CheckoutInfo → List WorktreeRecord → List Block → Result ListError RepoListing
  list_blocks info records blocks = primary_path_of info blocks >>= λ primary_path.
      ok (listing info primary_path (by_path info.repo_root records []) blocks)

  unfoldable pub list_from :
      CheckoutInfo → List WorktreeRecord → Call → Result ListError RepoListing
  list_from info records (timed_out _) = err git_timeout
  list_from info records no_git = err os_error
  list_from info records (completed p) =
      if is_exit 0 p.returncode
      then list_blocks info records (parse_worktree_porcelain o.strip o.rstrip p.stdout)
      else err listing_failed

  unfoldable pub list_repo : String → List WorktreeRecord → Result ListError RepoListing
  list_repo path records =
      classify_checkout path >>= λ info. list_from info records (o.worktree_list info.repo_root)
