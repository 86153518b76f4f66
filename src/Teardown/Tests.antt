-- ===== src/Teardown/Tests.antt =====
-- Removals of concrete checkouts.
use lib_python_worktree.Prelude.Dict.{lookup, has_key}
use lib_python_worktree.Prelude.Texts.{has_prefix, char_count}
use lib_python_worktree.Prelude.{some, ◌≡◌, ◌+◌, refl, true, [], ◌∷◌, arith}
use lib_python_worktree.Prelude.Results.{ok}
use lib_python_worktree.Teardown.Types.{World, full}
use lib_python_worktree.Teardown.Disk.{
  has_content, delete_staged, rename_out, exists, calling, can_land, windows_rungs, delete_ladder,
  merge_killed, add_killed,
}
use lib_python_worktree.Teardown.Retry.{
  min_of, retry_budget, time_left, open_deadline, retry_bounded, sleep, retry_until,
}
use lib_python_worktree.Teardown.Diagnose.{
  diagnose_and_retry, attempt, budget_is_spent, is_confirmed, tier_one_candidates, report_blockers,
  kill_candidates, kill_holders, tier_one, tier_two,
}
use lib_python_worktree.Teardown.Dirt.{
  is_exempt_untracked, status_entries, dirt_of, non_empty, real_dirt_paths,
}
use lib_python_worktree.Teardown.Phases.{
  run_teardown, clear_staged, residual_gone, dirt_gate, resolve, stage_and_clear, stage_and_delete,
  git_prune_phase, final_guard, release_ports, teardown_phases, run_phases,
}
use lib_python_worktree.Teardown.Hooks.{
  stop_steps_of, teardown_steps_of, invalidate_dirt, guard_primary, stop_roles, stop_processes,
  set_outcome, run_stop_hook, stop_hook, gate_b_early_dirty, save_record, mark_teardown_ran,
  run_teardown_hook, teardown_hook,
}
use lib_python_worktree.Teardown.Samples.{polite, forceful, easy, stuck, start_world}
use lib_python_worktree.Teardown.Outcome.{Settles, run_teardown-Settles}
use lib_python_worktree.Teardown.Kept.{IsRefused, IsDirty, runs_of}
use lib_python_worktree.Teardown.Refused.{run_teardown-IsRefused}
use lib_python_worktree.Teardown.Once.{RunsOnce, remove_again, remove_again-RunsOnce}
use lib_python_worktree.Teardown.Deadline.{EndsBy, retry_bounded-EndsBy}
use lib_python_worktree.Teardown.Kills.{KillsOnly, SparesList, diagnose_and_retry-KillsOnly}

run_teardown-Settles_example : Settles start_world (run_teardown easy forceful start_world)
run_teardown-Settles_example = run_teardown-Settles easy forceful start_world

forced_run : (run_teardown easy forceful start_world).0 ≡ ok tt
unfolding stop_steps_of teardown_steps_of invalidate_dirt guard_primary stop_roles stop_processes
    set_outcome run_stop_hook stop_hook gate_b_early_dirty save_record mark_teardown_ran
    run_teardown_hook teardown_hook dirt_gate residual_gone resolve clear_staged stage_and_clear
    stage_and_delete git_prune_phase final_guard release_ports teardown_phases run_phases
    run_teardown min_of sleep retry_until open_deadline time_left retry_bounded attempt
    budget_is_spent is_confirmed tier_one_candidates report_blockers kill_candidates kill_holders
    tier_one tier_two diagnose_and_retry exists has_content calling can_land rename_out
    windows_rungs delete_ladder delete_staged merge_killed add_killed
forced_run = refl

stuck_run : (run_teardown stuck forceful start_world).1.checkout ≡ full
unfolding stop_steps_of teardown_steps_of invalidate_dirt guard_primary stop_roles stop_processes
    set_outcome run_stop_hook stop_hook gate_b_early_dirty save_record mark_teardown_ran
    run_teardown_hook teardown_hook dirt_gate residual_gone resolve clear_staged stage_and_clear
    stage_and_delete git_prune_phase final_guard release_ports teardown_phases run_phases
    run_teardown min_of sleep retry_until open_deadline time_left retry_bounded attempt
    budget_is_spent is_confirmed tier_one_candidates report_blockers kill_candidates kill_holders
    tier_one tier_two diagnose_and_retry exists has_content calling can_land rename_out
    windows_rungs delete_ladder delete_staged merge_killed add_killed
stuck_run = refl

easy-IsDirty : IsDirty easy
unfolding real_dirt_paths status_entries non_empty dirt_of is_exempt_untracked char_count has_prefix
easy-IsDirty t = refl

run_teardown-IsRefused_example : IsRefused start_world (run_teardown easy polite start_world)
run_teardown-IsRefused_example =
    run_teardown-IsRefused easy polite start_world refl refl refl easy-IsDirty

remove_again-RunsOnce_example :
    RunsOnce (runs_of start_world.calls) (remove_again stuck (forceful ∷ forceful ∷ []) start_world)
remove_again-RunsOnce_example =
    remove_again-RunsOnce stuck (forceful ∷ forceful ∷ []) start_world tt (λ t. refl) (λ t. refl)
      (λ role rec. refl)

retry_bounded-EndsBy_example :
    EndsBy
      (rename_out stuck)
      (0 + min_of retry_budget (time_left stuck (open_deadline stuck start_world)))
      (retry_bounded stuck (rename_out stuck) start_world)
retry_bounded-EndsBy_example = retry_bounded-EndsBy stuck (rename_out stuck) start_world

residual_gone-SparesList : SparesList (residual_gone easy forceful)
unfolding residual_gone
residual_gone-SparesList v v' e = ground arith

diagnose_and_retry-KillsOnly_example :
    KillsOnly easy forceful start_world
      (diagnose_and_retry easy forceful (residual_gone easy forceful) start_world).1
diagnose_and_retry-KillsOnly_example =
    diagnose_and_retry-KillsOnly easy forceful (residual_gone easy forceful)
      residual_gone-SparesList start_world

-- A record with one running role, in the state and in the store.
abbrev running : World
running = record start_world {
  rec = record start_world.rec { pids = ("web", 41) ∷ [] };
  stored = some (record start_world.rec { pids = ("web", 41) ∷ [] });
}

saved_record :
    (run_teardown_hook easy forceful (stop_processes easy forceful running).1).stored
    ≡ some (record running.rec { teardown_ran = true })
unfolding run_teardown_hook stop_processes has_key lookup
saved_record = refl
