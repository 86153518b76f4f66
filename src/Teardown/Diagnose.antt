-- ===== src/Teardown/Diagnose.antt =====
-- `_diagnose_and_retry`: who holds the directory, and one more attempt after each kill.
use lib_python_worktree.Prelude.{
  ℕ, Bool, true, false, Option, none, some, List, [], ◌∷◌, ◌++◌, ◌&&◌, leb, if◌then◌else◌,
}
use lib_python_worktree.Teardown.Types.{
  Outside, Request, World, kill_tree, scan_blockers, kill_blockers,
}
use lib_python_worktree.Teardown.Disk.{calling, add_killed}

-- `try: retry(); return True; except OSError: ...`
unfoldable pub attempt : (World → Option World) → World → Bool × World
attempt retry w = elim (retry w) [ some w' ↦ (true, w') | none ↦ (false, w) ]

-- The failure budget is open and used up.
unfoldable pub budget_is_spent : World → Bool
budget_is_spent w = elim w.failure_deadline [ none ↦ false | some d ↦ leb d w.now ]

abbrev pub is_nonempty : List ℕ → Bool
is_nonempty [] = false
is_nonempty (_ ∷ _) = true

module _ (o : Outside) (r : Request) where
  -- Only a pid that is alive and is the process that was tracked is a candidate.
  unfoldable pub is_confirmed : ℕ → ℕ → Bool
  is_confirmed now pid = elim (o.pid_verdict pid now) [
    | some (some verdict) ↦ verdict
    | some none ↦ false
    | none ↦ false
  ]

  unfoldable pub tier_one_candidates : ℕ → List ℕ → List ℕ
  unfolding is_confirmed
  tier_one_candidates now [] = []
  tier_one_candidates now (pid ∷ pids) =
      let rest = tier_one_candidates now pids in if is_confirmed now pid then pid ∷ rest else rest

  unfoldable pub report_blockers : List ℕ → World → World
  report_blockers found w = record w { blockers = w.blockers ++ found }

  -- `_kill_process_tree`; when it raises, nothing is recorded as killed.
  unfoldable pub kill_candidates : List ℕ → World → World
  unfolding calling add_killed
  kill_candidates found w =
      let w' = calling o kill_tree (record w { kill_attempted = true }) in
      if o.kills_tree w.now then add_killed found w' else w'

  -- `_kill_blocking_processes`, which reports whom it has killed.
  unfoldable pub kill_holders : World → World
  unfolding calling add_killed
  kill_holders w =
      let w' = calling o kill_blockers (record w { kill_attempted = true }) in
      elim (o.kills_blocking w.now) [ none ↦ w' | some killed ↦ add_killed killed w' ]

  unfoldable pub tier_one : (World → Option World) → World → Bool × World
  unfolding attempt kill_candidates report_blockers
  tier_one retry w =
      let found = tier_one_candidates w.now r.owned_pids in
      let w' = report_blockers found w in
      if is_nonempty found
      then (if r.kill_blocking_processes
          then attempt retry (kill_candidates found w')
          else (false, w'))
      else (false, w)

  unfoldable pub tier_two : (World → Option World) → World → Bool × World
  unfolding attempt kill_holders report_blockers budget_is_spent calling
  tier_two retry w =
      let found = o.blocking w.now in
      let w' = report_blockers found (calling o scan_blockers w) in
      if budget_is_spent w
      then (false, w)
      else if r.kill_blocking_processes && is_nonempty found
      then attempt retry (kill_holders w')
      else (false, w')

  unfoldable pub diagnose_and_retry : (World → Option World) → World → Bool × World
  unfolding tier_one tier_two budget_is_spent
  diagnose_and_retry retry w =
      if budget_is_spent w
      then (false, w)
      else (let (resolved, w') = tier_one retry w in
          if resolved then (true, w') else tier_two retry w')
