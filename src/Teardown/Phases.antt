-- ===== src/Teardown/Phases.antt =====
-- The phases from the dirt gate on, the list of all of them, and `run_teardown`.
use lib_python_worktree.Prelude.{
  String, true, false, Option, none, some, List, [], ◌∷◌, ◌||◌, not, if◌then◌else◌,
}
use lib_python_worktree.Prelude.Results.{ok, err}
use lib_python_worktree.Ports.{release}
use lib_python_worktree.Teardown.Types.{
  git_prune, Outside, Request, World, dirty, removal_blocked, dir_locked, Action, pure, when, ◌>>=◌,
  ◌>>◌,
}
use lib_python_worktree.Teardown.Disk.{
  exists, has_content, calling, rename_out, rename_back, delete_staged,
}
use lib_python_worktree.Teardown.Retry.{retry_bounded, bare_retry_bounded}
use lib_python_worktree.Teardown.Diagnose.{diagnose_and_retry}
use lib_python_worktree.Teardown.Hooks.{
  is_dirty, dirt, guard_primary, stop_processes, stop_hook, gate_b_early_dirty, teardown_hook,
}

module _ (o : Outside) (r : Request) where
  -- The checkout is dirty: a rename there and back tells whether it is locked too.
  unfoldable pub undo_rename : Action (Unit {0})
  undo_rename w = elim (rename_back o w) [
    | some w' ↦ (err (dirty false), w')
    | none ↦
        let (undone, w') = bare_retry_bounded o (rename_back o) w in (err (dirty (not undone)), w')
  ]

  unfoldable pub refuse_dirty : List String → Action (Unit {0})
  unfolding undo_rename
  refuse_dirty found w = elim (rename_out o w) [
    | none ↦ (err (removal_blocked found), w)
    | some w' ↦ undo_rename w'
  ]

  unfoldable pub refuse_if_dirty : List String → Action (Unit {0})
  unfolding refuse_dirty
  refuse_if_dirty found = when (is_dirty found) (refuse_dirty found)

  unfoldable pub dirt_check : Action (Unit {0})
  unfolding dirt refuse_if_dirty
  dirt_check = do found ← dirt o r; refuse_if_dirty found

  unfoldable pub dirt_gate : Action (Unit {0})
  unfolding dirt_check
  dirt_gate = when (not (r.force || r.target_absent)) dirt_check

  -- `_residual_gone`: only a look at the staged tree.
  unfoldable pub residual_gone : World → Option World
  residual_gone w = if has_content w.staged then none else some w

  unfoldable pub resolve : (World → Option World) → World → World
  resolve op w =
      let (done, w') = retry_bounded o op w in if done then w' else (diagnose_and_retry o r op w').1

  unfoldable pub clear_staged : World → World
  unfolding delete_staged residual_gone resolve
  clear_staged w =
      let w' = delete_staged o w in if has_content w'.staged then resolve residual_gone w' else w'

  unfoldable pub stage_and_clear : World → World
  unfolding resolve clear_staged
  stage_and_clear w =
      let w' = resolve (rename_out o) w in if exists w'.staged then clear_staged w' else w'

  unfoldable pub stage_and_delete : Action (Unit {0})
  unfolding exists has_content delete_staged stage_and_clear
  stage_and_delete w =
      if exists w.checkout
      then (ok tt, stage_and_clear (if has_content w.staged then delete_staged o w else w))
      else if has_content w.staged
      then (if r.force then (ok tt, delete_staged o w) else (err (dirty true), w))
      else (ok tt, w)

  -- A failure of `git worktree prune` is only logged.
  unfoldable pub git_prune_phase : Action (Unit {0})
  unfolding calling
  git_prune_phase w = (ok tt, calling o git_prune w)

  unfoldable pub final_guard : Action (Unit {0})
  unfolding exists has_content
  final_guard w =
      if has_content w.staged || exists w.checkout
      then (
        err (dir_locked w.rec.killed_pids w.kill_attempted (has_content w.staged) w.blockers),
        w,
      )
      else (ok tt, w)

  -- `ctx.allocator.release(ctx.record.id)`
  unfoldable pub release_ports : Action (Unit {0})
  release_ports w = (ok tt, record w { ports = release w.rec.id none w.ports })

  -- `_TEARDOWN_PHASES`
  unfoldable pub teardown_phases : List (Action (Unit {0}))
  teardown_phases =
      guard_primary o r
      ∷ stop_processes o r
      ∷ stop_hook o r
      ∷ gate_b_early_dirty o r
      ∷ teardown_hook o r
      ∷ dirt_gate
      ∷ stage_and_delete
      ∷ git_prune_phase
      ∷ final_guard
      ∷ release_ports
      ∷ []

-- `for phase in _TEARDOWN_PHASES: phase(ctx)`
unfoldable pub run_phases : List (Action (Unit {0})) → Action (Unit {0})
run_phases [] = pure tt
run_phases (phase ∷ phases) = phase >> run_phases phases

unfoldable pub run_teardown : Outside → Request → Action (Unit {0})
run_teardown o r = run_phases (teardown_phases o r)
