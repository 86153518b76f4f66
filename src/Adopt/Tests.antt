-- ===== src/Adopt/Tests.antt =====
-- `adopt` on a concrete listing: one worktree is tracked, one is detached and one is new.
use lib_python_worktree.Prelude.{
  ℕ, String, List, ◌≡◌, refl, true, false, none, some, [], ◌∷◌, arith, eq_iff,
}
use lib_python_worktree.Prelude.Results.{ok}
use lib_python_worktree.Prelude.Dict.{lookup, insert, has_key}
use lib_python_worktree.Prelude.Lists.{has}
use lib_python_worktree.Store.{WorktreeRecord, new_record, Records, is_branch}
use lib_python_worktree.Adopt.{
  Block, Candidate, collect, candidates_of, paths_of, branches_of, has_branch, adopted_record,
  import_candidate, is_tracked, adopt_candidate, adopt_all, adopt,
}
use lib_python_worktree.Adopt.Covered.{IsPathUnique, adopt-IsPathUnique}
use lib_python_worktree.Adopt.Again.{adopt_again}
use lib_python_worktree.Adopt.Kept.{lookup-adopt}

abbrev tracked : WorktreeRecord
tracked = new_record "wt-a" "/repo" (some "one") "/wt/a"

abbrev records : Records
records = ("wt-a", tracked) ∷ []

abbrev block : String → String → Block
block path branch = record {
  path = some path;
  branch = some branch;
  detached = false;
  prunable = false;
}

abbrev listing : List Block
listing =
    block "/repo" "main"
    ∷ block "/wt/a" "one"
    ∷ record { path = some "/wt/d"; branch = none; detached = true; prunable = false }
    ∷ block "/wt/b" "two"
    ∷ []

-- The id that a random suffix would make.
abbrev draw : ℕ → String → String
draw n branch = branch

abbrev draw_more : ℕ → String → String
draw_more n branch = "other"

abbrev found : List Candidate
found = ("/wt/a", "one") ∷ ("/wt/b", "two") ∷ []

collected : candidates_of (λ p. p) "/main" listing ≡ found
unfolding candidates_of collect has
collected = refl

records-IsPathUnique : IsPathUnique records
unfolding lookup
records-IsPathUnique = record {
  alone = λ j k r s er es same.
      ground (arith, eq_iff j "wt-a", eq_iff k "wt-a", eq_iff "wt-a" j, eq_iff "wt-a" k);
}

adopted_two : adopt "/repo" draw found records ≡ (
  ok ("two" ∷ []),
  ("wt-a", tracked) ∷ ("two", adopted_record "/repo" draw "two" ("/wt/b", "two")) ∷ [],
)
unfolding adopt adopt_all adopt_candidate is_tracked has paths_of has_branch branches_of is_branch
    import_candidate has_key lookup insert
adopted_two = refl

adopt-IsPathUnique_example : IsPathUnique (adopt "/repo" draw found records).1
adopt-IsPathUnique_example = adopt-IsPathUnique "/repo" draw found records records-IsPathUnique

adopt_again_example :
    adopt "/repo" draw_more found
      (("wt-a", tracked) ∷ ("two", adopted_record "/repo" draw "two" ("/wt/b", "two")) ∷ [])
    ≡ (ok [], ("wt-a", tracked) ∷ ("two", adopted_record "/repo" draw "two" ("/wt/b", "two")) ∷ [])
adopt_again_example =
    adopt_again "/repo" draw draw_more found records
      (("wt-a", tracked) ∷ ("two", adopted_record "/repo" draw "two" ("/wt/b", "two")) ∷ [])
      ("two" ∷ []) records-IsPathUnique adopted_two

lookup-adopt_example : lookup "wt-a" (adopt "/repo" draw found records).1 ≡ some tracked
unfolding lookup
lookup-adopt_example = lookup-adopt "/repo" draw "wt-a" tracked found records refl
