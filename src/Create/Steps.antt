-- ===== src/Create/Steps.antt =====
-- The steps of `create`.
use Prim.Native.String.{◌++◌ as join}
use lib_python_worktree.Git.{Completed, is_exit, Call, completed, timed_out, no_git}
use lib_python_worktree.Prelude.{
  String, Bool, true, false, Option, none, some, List, [], ◌∷◌, ◌&&◌, not, if◌then◌else◌, str_eq,
}
use lib_python_worktree.Prelude.Results.{Result, ok, err}
use lib_python_worktree.Prelude.Lists.{length}
use lib_python_worktree.Contract.{Step, full}
use lib_python_worktree.Store.{
  WorktreeRecord, Records, new_record, SetupOutcome, BaseFetchFallback, StoreError, find_by_branch,
}
use lib_python_worktree.Store
use lib_python_worktree.Runner
use lib_python_worktree.Runner.{SetupError, setup_failed, not_started, SetupStepResult, run}
use lib_python_worktree.Create.Git.{parse_already_checked_out, is_path_prunable}
use lib_python_worktree.Create.Types.{
  State, Outside, CreateError, invalid_repo, invalid_branch, duplicate_worktree, os_error,
  contract_error, git_timeout, git_command, branch_already_checked_out, setup,
}
use lib_python_worktree.Create.Bases.{
  Fetched, or_empty_text, branch_exists, choose_base, fetch_base,
}
use lib_python_worktree.Create.Persisting.{committed, persist_or_roll_back}

unfoldable pub raising :
    SetupError
    → Result CreateError WorktreeRecord × State
    → Result CreateError WorktreeRecord × State
raising e (ok rec, s) = (err (setup e), s)
raising e (err x, s) = (err x, s)

module _ (o : Outside) where
  -- `git_args`
  unfoldable pub git_args : Bool → String → Option String → Bool → List String
  git_args true branch base fetched = "worktree" ∷ "add" ∷ o.target ∷ branch ∷ []
  git_args false branch base fetched =
      "worktree"
      ∷ "add"
      ∷ "-b"
      ∷ branch
      ∷ o.target
      ∷ (if fetched then join "origin/" (or_empty_text base) else or_empty_text base)
      ∷ []

  -- The error of a `git worktree add` that has failed.
  unfoldable pub add_error : Completed → CreateError
  add_error p = elim (parse_already_checked_out p.stderr) [
    | none ↦ git_command p.returncode
    | some (branch, path) ↦
        branch_already_checked_out branch path
          (is_path_prunable o.strip o.lower (o.lower path) o.list_trees)
  ]

  -- What a `git worktree add` that is cut off or fails leaves: nothing is undone here.
  unfoldable pub left_by : Bool → String → Call → State → State
  left_by exists branch c s = record s {
    trees = if o.leaves_tree c then o.target ∷ s.trees else s.trees;
    branches = if not exists && o.leaves_branch c then branch ∷ s.branches else s.branches;
  }

  unfoldable pub added : Bool → String → Call → State → Result CreateError (Unit {0}) × State
  added exists branch (timed_out n) s = (err git_timeout, left_by exists branch (timed_out n) s)
  added exists branch no_git s = (err os_error, s)
  added exists branch (completed p) s =
      if is_exit 0 p.returncode
      then (
        ok tt,
        record s {
          trees = o.target ∷ s.trees;
          branches = if exists then s.branches else branch ∷ s.branches;
        },
      )
      else (err (add_error p), left_by exists branch (completed p) s)

  abbrev pub outcome_of : String → SetupOutcome
  outcome_of status = record {
    status = status;
    message = o.message status;
    completed_at = some o.now;
    steps_run = 0;
    failed_step_index = none;
    failed_step_name = none;
    log_path = none;
    returncode = none;
    timed_out = false;
  }

  -- The outcome of a setup that has raised.
  unfoldable pub failed_outcome : SetupError → SetupOutcome
  failed_outcome (not_started _) = outcome_of "failed"
  failed_outcome Runner.os_error = outcome_of "failed"
  failed_outcome (setup_failed index name rc late) = record (outcome_of "failed") {
    failed_step_index = some index;
    failed_step_name = some name;
    log_path = some (o.log_path index name);
    returncode = some rc;
    timed_out = late;
  }

  -- `self.state.update(record)`, and the record is returned.
  unfoldable pub save_and_return :
      WorktreeRecord → State → Result CreateError WorktreeRecord × State
  save_and_return rec s = committed o.writes_update rec (Store.update rec s.records) s

  -- `self.state.update(record)`, and the error of the setup is raised.
  unfoldable pub save_and_raise :
      SetupError → WorktreeRecord → State → Result CreateError WorktreeRecord × State
  save_and_raise e rec s = raising e (save_and_return rec s)

  unfoldable pub after_setup :
      Result SetupError (List SetupStepResult)
      → WorktreeRecord
      → State
      → Result CreateError WorktreeRecord × State
  after_setup (err e) rec s =
      save_and_raise e
        (record rec { status = "setup_failed"; setup_outcome = some (failed_outcome e) }) s
  after_setup (ok steps) rec s =
      save_and_return
        (record rec {
          setup_outcome = some (record (outcome_of "completed") { steps_run = length steps });
        })
        s

  unfoldable pub setup_from :
      List Step → WorktreeRecord → State → Result CreateError WorktreeRecord × State
  setup_from [] rec s =
      save_and_return (record rec { setup_outcome = some (outcome_of "skipped") }) s
  setup_from (step ∷ steps) rec s = after_setup (run o.host full (step ∷ steps)).0 rec s

  -- The setup steps of the contract, which is read again.
  unfoldable pub run_setup : WorktreeRecord → State → Result CreateError WorktreeRecord × State
  run_setup rec s = elim o.contract_again [
    | none ↦ (err contract_error, s)
    | some c ↦ setup_from c.setup rec s
  ]

  unfoldable pub finish :
      Result CreateError WorktreeRecord × State → Result CreateError WorktreeRecord × State
  finish (err e, s) = (err e, s)
  finish (ok rec, s) = run_setup rec s

  module _ (repo branch : String) (exists : Bool) where
    -- Behind `git worktree add`.
    unfoldable pub after_add :
        Option BaseFetchFallback
        → Result CreateError (Unit {0}) × State
        → Result CreateError WorktreeRecord × State
    after_add base_fallback (err e, s) = (err e, s)
    after_add base_fallback (ok _, s) =
        finish (persist_or_roll_back o repo branch exists base_fallback s)

    -- Behind the fetch.
    unfoldable pub after_base :
        Option String
        → Result CreateError Fetched × State
        → Result CreateError WorktreeRecord × State
    after_base base (err e, s) = (err e, s)
    after_base base (ok (base_fallback, fetched), s) =
        after_add base_fallback
          (added exists branch (o.add_tree (git_args exists branch base fetched)) s)

    unfoldable pub create_branch :
        Bool → Option String → State → Result CreateError WorktreeRecord × State
    create_branch fetch base s = elim (choose_base o exists base s) [
      | err e ↦ (err e, s)
      | ok (chosen, defaulted) ↦
          after_base chosen (fetch_base o (fetch && not exists) (chosen, defaulted) s)
    ]

  -- The checks, in the repository that `_validate_repo` has found.
  unfoldable pub create_in :
      String → Option String → Bool → String → State → Result CreateError WorktreeRecord × State
  create_in name base fetch repo s =
      if str_eq name ""
      then (err invalid_branch, s)
      else elim (find_by_branch repo name s.records) [
        | some _ ↦ (err duplicate_worktree, s)
        | none ↦ create_branch repo name (branch_exists o name s) fetch base s
      ]

  -- `create(repo_root, branch, base, fetch=fetch)`
  unfoldable pub create :
      String → Option String → Bool → State → Result CreateError WorktreeRecord × State
  create branch base fetch s = elim o.repo [
    | none ↦ (err invalid_repo, s)
    | some repo ↦ create_in (o.strip branch) base fetch repo s
  ]
