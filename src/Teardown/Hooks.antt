-- ===== src/Teardown/Hooks.antt =====
-- The phases of `_TEARDOWN_PHASES` up to the `teardown:` steps: the guard, the stops, the hooks
-- and the early gate.
use lib_python_worktree.Prelude.{
  ℕ, String, Bool, true, false, Option, none, some, List, [], ◌∷◌, ◌&&◌, ◌||◌, not, if◌then◌else◌,
  str_eq,
}
use lib_python_worktree.Prelude.Results.{ok, err}
use lib_python_worktree.Prelude.Dict.{keys, without, has_key}
use lib_python_worktree.Contract.{WorktreeContract, Step}
use lib_python_worktree.Teardown.Types.{
  saved, swallowed, raised, stop_failed, WorktreeRecord, completed, failed, skipped, HookStatus,
  stop_role, run_stop_steps, run_teardown_steps, git_status, Outside, Request, World,
  primary_checkout, stop_failed, dirty, Action, pure, raise, when, ◌>>=◌, ◌>>◌,
}
use lib_python_worktree.Teardown.Dirt.{status_entries, real_dirt_paths}
use lib_python_worktree.Teardown.Disk.{calling}

abbrev pub has_steps : List Step → Bool
has_steps [] = false
has_steps (_ ∷ _) = true

abbrev pub is_dirty : List String → Bool
is_dirty [] = false
is_dirty (_ ∷ _) = true

unfoldable pub stop_steps_of : Option WorktreeContract → List Step
stop_steps_of none = []
stop_steps_of (some c) = c.stop

unfoldable pub teardown_steps_of : Option WorktreeContract → List Step
teardown_steps_of none = []
teardown_steps_of (some c) = c.teardown

module _ (o : Outside) (r : Request) where
  -- The memoised probe, `_TeardownContext.status_entries`.
  unfoldable pub probe_status : Action (Option (List String))
  unfolding calling
  probe_status w = elim w.status_cache [
    | some cached ↦ (ok cached, w)
    | none ↦
        let found = status_entries (o.status w.now) in
        (ok found, record (calling o git_status w) { status_cache = some found })
  ]

  -- `_TeardownContext.dirt`
  unfoldable pub dirt : Action (List String)
  unfolding probe_status
  dirt = if r.force then pure [] else (do es ← probe_status; pure (real_dirt_paths es))

  unfoldable pub invalidate_dirt : World → World
  invalidate_dirt w = record w { status_cache = none }

  unfoldable pub guard_primary : Action (Unit {0})
  guard_primary w =
      if str_eq w.rec.backing "primary" || o.path_is_repo_root
      then (err primary_checkout, w)
      else (ok tt, w)

  -- What `lifecycle.stop` makes of a tracked record.
  unfoldable pub stopped : String → WorktreeRecord → WorktreeRecord
  stopped role x = record (o.after_stop role x) { pids = without (str_eq role) x.pids }

  -- It loads the record from the store and saves it there; the context's record is another object,
  -- except that the in-memory store hands out its own.
  unfoldable pub stop_record : String → WorktreeRecord → World → World
  stop_record role x w = record w {
    stored = some (stopped role x);
    rec = if o.shares_records then stopped role x else w.rec;
  }

  -- `lifecycle.stop(record.id, store=ctx.store, role=role)`: a `WorktreeNotFoundError` and any other
  -- error but a `ProcessLifecycleError`, such as that of a role without a pid, ends the removal.
  unfoldable pub stop_tracked : String → Action (Unit {0})
  unfolding calling stop_record
  stop_tracked role w = elim w.stored [
    | none ↦ (err stop_failed, w)
    | some x ↦
        if has_key role x.pids
        then elim (o.stop_ends w.now) [
          | saved ↦ (ok tt, calling o (stop_role role) (stop_record role x w))
          | swallowed ↦ (ok tt, calling o (stop_role role) w)
          | raised ↦ (err stop_failed, calling o (stop_role role) w)
        ]
        else (ok tt, w)
  ]

  -- `for role in list(record.pids.keys())`
  unfoldable pub stop_roles : List String → Action (Unit {0})
  unfolding stop_tracked
  stop_roles [] = pure tt
  stop_roles (role ∷ roles) = stop_tracked role >> stop_roles roles

  unfoldable pub stop_processes : Action (Unit {0})
  unfolding stop_roles
  stop_processes w = stop_roles (keys w.rec.pids) w

  unfoldable pub set_outcome : HookStatus → ℕ → World → World
  set_outcome status steps w = record w {
    rec = record w.rec {
      stop_hook_outcome =
          some (record { status = status; steps_run = steps; contract_found = r.contract_found });
    };
  }

  -- The runner's exceptions end the hook, not the removal.
  unfoldable pub run_stop_hook : World → World
  unfolding calling set_outcome
  run_stop_hook w = elim (o.stop_steps w.now) [
    | some n ↦ set_outcome completed n (calling o run_stop_steps w)
    | none ↦ set_outcome failed 0 (calling o run_stop_steps w)
  ]

  -- A contract that did not load is `none`: `contract_load_error` is set.
  unfoldable pub stop_hook : Action (Unit {0})
  unfolding run_stop_hook stop_steps_of
  stop_hook w = elim r.contract [
    | none ↦ (ok tt, set_outcome failed 0 w)
    | some c ↦ (ok tt, if has_steps c.stop then run_stop_hook w else set_outcome skipped 0 w)
  ]

  -- `if _dirt: raise DirtyWorktreeError(...)`
  unfoldable pub refuse_early : List String → Action (Unit {0})
  refuse_early found = when (is_dirty found) (raise (dirty false))

  unfoldable pub early_check : Action (Unit {0})
  unfolding dirt refuse_early
  early_check = do found ← dirt; refuse_early found

  unfoldable pub gate_b_early_dirty : Action (Unit {0})
  unfolding early_check teardown_steps_of
  gate_b_early_dirty = when (not r.force && has_steps (teardown_steps_of r.contract)) early_check

  -- `ctx.store.update(record)`; its `KeyError`, `OSError` and lock errors are swallowed.
  unfoldable pub save_record : World → World
  save_record w = elim w.stored [
    | none ↦ w
    | some _ ↦ if o.writes_state w.now then record w { stored = some w.rec } else w
  ]

  unfoldable pub mark_teardown_ran : World → World
  mark_teardown_ran w = record w { rec = record w.rec { teardown_ran = true } }

  unfoldable pub run_teardown_hook : World → World
  unfolding calling save_record mark_teardown_ran invalidate_dirt
  run_teardown_hook w =
      let w' = calling o run_teardown_steps w in
      invalidate_dirt (if o.teardown_steps w.now then save_record (mark_teardown_ran w') else w')

  unfoldable pub teardown_hook : Action (Unit {0})
  unfolding run_teardown_hook teardown_steps_of
  teardown_hook w =
      if has_steps (teardown_steps_of r.contract) && not w.rec.teardown_ran
      then (ok tt, run_teardown_hook w)
      else (ok tt, w)
