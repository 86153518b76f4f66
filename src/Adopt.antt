-- ===== src/Adopt.antt =====
-- core/yaml_store.py, `adopt`: the worktrees that git lists and the store does not track. `resolve`
-- stands for `Path(p).resolve()`, and `new_id` for the id that is made of the repository, the branch
-- and a random suffix, by how many have been adopted. The counters of the report are left out.
pub mod Covered
pub mod Again
pub mod Kept
mod Tests
use lib_python_worktree.Prelude.{
  ℕ, String, Bool, true, false, Option, none, some, List, [], ◌∷◌, ◌++◌, ◌&&◌, ◌||◌, not,
  if◌then◌else◌, str_eq,
}
use lib_python_worktree.Prelude.Results.{Result, ok, err, ◌>>=◌}
use lib_python_worktree.Prelude.Dict.{Dict, insert, has_key}
use lib_python_worktree.Prelude.Lists.{has, length}
use lib_python_worktree.Store.{
  WorktreeRecord, new_record, Records, StoreError, already_tracked, is_branch,
}

-- A block of `git worktree list --porcelain`.
pub record Block : Type 0 where
  pub path : Option String
  pub branch : Option String
  pub detached : Bool
  pub prunable : Bool

-- `(path, branch)`
abbrev pub Candidate : Type 0
Candidate = String × String

abbrev pub or_empty : Option String → String
or_empty none = ""
or_empty (some s) = s

module _ (resolve : String → String) where
  -- The loop over the blocks.
  unfoldable pub collect : List String → List Block → List Candidate
  collect skip_paths [] = []
  collect skip_paths (b ∷ bs) =
      let rest = collect skip_paths bs in
      let path = or_empty b.path in
      let branch = or_empty b.branch in
      if str_eq path ""
      then rest
      else if has (resolve path) skip_paths
      then rest
      else if b.prunable
      then rest
      else if b.detached || str_eq branch ""
      then rest
      else (resolve path, branch) ∷ rest

  -- The first block is the primary checkout.
  unfoldable pub candidates_of : String → List Block → List Candidate
  candidates_of main_path [] = []
  candidates_of main_path (b ∷ bs) = collect (resolve (or_empty b.path) ∷ main_path ∷ []) (b ∷ bs)

-- `{r.path for r in records.values()}`
unfoldable pub paths_of : Records → List String
paths_of [] = []
paths_of ((_, rec) ∷ rs) = rec.path ∷ paths_of rs

-- `{(r.repo_root, r.branch) for r in records.values()}`
unfoldable pub branches_of : Records → List (String × Option String)
branches_of [] = []
branches_of ((_, rec) ∷ rs) = (rec.repo_root, rec.branch) ∷ branches_of rs

-- `(repo_root_str, branch) in existing_branches`
unfoldable pub has_branch : String → String → List (String × Option String) → Bool
has_branch root branch [] = false
has_branch root branch ((r, b) ∷ bs) =
    str_eq r root && is_branch b branch || has_branch root branch bs

-- The local variables of the loop over the candidates.
pub record Adoption : Type 0 where
  pub records : Records
  pub existing_paths : List String
  pub existing_branches : List (String × Option String)
  pub adopted : List String

module _ (root : String) (new_id : ℕ → String → String) where
  unfoldable pub adopted_record : String → Candidate → WorktreeRecord
  adopted_record id (path, branch) = record (new_record id root (some branch) path) {
    status = "adopted";
  }

  -- `store._add_unlocked(records, record)` and the bookkeeping.
  unfoldable pub import_candidate : String → Candidate → Adoption → Result StoreError Adoption
  unfolding adopted_record
  import_candidate id c a =
      if has_key id a.records
      then err (already_tracked id)
      else ok (record {
        records = insert id (adopted_record id c) a.records;
        existing_paths = c.0 ∷ a.existing_paths;
        existing_branches = (root, some (c.1)) ∷ a.existing_branches;
        adopted = a.adopted ++ (id ∷ []);
      })

  unfoldable pub is_tracked : Candidate → Adoption → Bool
  is_tracked c a = has (c.0) a.existing_paths || has_branch root (c.1) a.existing_branches

  unfoldable pub adopt_candidate : Candidate → Adoption → Result StoreError Adoption
  adopt_candidate c a =
      if is_tracked c a then ok a else import_candidate (new_id (length a.adopted) (c.1)) c a

  unfoldable pub adopt_all : List Candidate → Adoption → Result StoreError Adoption
  adopt_all [] a = ok a
  adopt_all (c ∷ cs) a = adopt_candidate c a >>= λ a'. adopt_all cs a'

  abbrev pub start : Records → Adoption
  start rs = record {
    records = rs;
    existing_paths = paths_of rs;
    existing_branches = branches_of rs;
    adopted = [];
  }

  -- The section under the lock: the records are saved at its end, unless it has raised.
  unfoldable pub adopt : List Candidate → Records → Result StoreError (List String) × Records
  adopt cs rs = elim (adopt_all cs (start rs)) [
    | ok a ↦ (ok a.adopted, a.records)
    | err e ↦ (err e, rs)
  ]
