-- ===== src/Manager/Tracked.antt =====
-- No phase of the teardown takes a record out of the store.
use lib_python_worktree.Prelude.{
  ◌≡◌, refl, Bool, true, false, none, some, inl, inr, Bool-cases, Option-cases, ◌&&◌, not,
}
use lib_python_worktree.Teardown.Types.{Outside, Request, World, run_teardown_steps}
use lib_python_worktree.Teardown.Disk.{calling}
use lib_python_worktree.Teardown.Hooks.{
  teardown_hook, run_teardown_hook, save_record, mark_teardown_ran, invalidate_dirt, has_steps,
  teardown_steps_of, stop_record,
}
use lib_python_worktree.Teardown.Phases.{run_phases, run_teardown, release_ports}
use lib_python_worktree.Teardown.Quiet.{bind-keeps, final_guard-keeps}
use lib_python_worktree.Teardown.Frame.{IsFrame}
use lib_python_worktree.Teardown.Engine.{
  run_phases-keeps, first_phases, last_phases, run_teardown-split, first_phases-AllKeep,
}

abbrev pub is_tracked : World → Bool
is_tracked w = elim w.stored [ none ↦ false | some _ ↦ true ]

abbrev pub IsTracked : World → Type 0
IsTracked w = is_tracked w ≡ true

IsTracked-IsFrame : (o : Outside) → IsFrame o IsTracked
unfolding stop_record
IsTracked-IsFrame o = record {
  quiet = record {
    stable = record { book = λ w n k d b ks q. q; asked = λ w n c e q. q };
    stopped = λ r w role x e q. refl;
    outcome = λ w x q. q;
  };
  disk = λ w c s q. q;
  cached = λ w x q. q;
}

module _ (o : Outside) (r : Request) where
  save_record-IsTracked : (w : World) → IsTracked w → IsTracked (save_record o r w)
  unfolding save_record
  save_record-IsTracked w q = elim (Option-cases w.stored) [
    | inl e ↦ rw (e, save_record) q
    | inr (x, e) ↦ elim (Bool-cases (o.writes_state w.now)) [
      | inl c ↦ rw (e, save_record, c) refl
      | inr c ↦ rw (e, save_record, c) q
    ]
  ]

  teardown_hook-IsTracked : (w : World) → IsTracked w → IsTracked (teardown_hook o r w).1
  unfolding teardown_hook run_teardown_hook mark_teardown_ran invalidate_dirt calling
  teardown_hook-IsTracked w q =
      elim (Bool-cases (has_steps (teardown_steps_of r.contract) && not w.rec.teardown_ran)) [
        | inr e ↦ rw e q
        | inl e ↦ elim (Bool-cases (o.teardown_steps w.now)) [
          | inl f ↦
              rw (e, f)
                (save_record-IsTracked (mark_teardown_ran o r (calling o run_teardown_steps w)) q)
          | inr f ↦ rw (e, f) q
        ]
      ]

  pub run_teardown-IsTracked : (w : World) → IsTracked w → IsTracked (run_teardown o r w).1
  unfolding last_phases release_ports
  run_teardown-IsTracked w q =
      let f = IsTracked-IsFrame o in
      let begun =
        run_phases-keeps IsTracked (first_phases o r)
          (first_phases-AllKeep o r IsTracked f teardown_hook-IsTracked) w q in
      rw run_teardown-split (
        bind-keeps IsTracked (run_phases (first_phases o r)) (λ _. run_phases (last_phases o r)) w
          begun
          (λ _.
            run_phases-keeps IsTracked (last_phases o r)
              (final_guard-keeps IsTracked o r f.quiet, ((λ w q. q), tt))
              (run_phases (first_phases o r) w).1 begun))
