-- ===== src/Teardown/Stable.antt =====
-- What the retries and the diagnosis keep: whatever does not depend on their bookkeeping and is
-- kept by the operation that is retried.
use lib_python_worktree.Prelude.{
  ℕ, zero, suc, ◌≡◌, refl, Bool, true, false, Option, some, List, ◌∷◌, inl, inr, Bool-cases,
  Option-cases, leb, if◌then◌else◌, ◌&&◌,
}
use lib_python_worktree.Teardown.Types.{
  Outside, Request, World, Call, run_teardown_steps, kill_tree, kill_blockers, scan_blockers,
}
use lib_python_worktree.Teardown.Disk.{calling, add_killed}
use lib_python_worktree.Teardown.Retry.{
  retry_fuel, sleep, retry_until, open_deadline, retry_bounded, bare_retry_bounded,
}
use lib_python_worktree.Teardown.Diagnose.{
  attempt, budget_is_spent, is_nonempty, report_blockers, kill_candidates, kill_holders,
  tier_one_candidates, tier_one, tier_two, diagnose_and_retry,
}
use lib_python_worktree.Teardown.Phases.{resolve}

-- The fields that are bookkeeping, at new values.
abbrev pub rebook : World → ℕ → Bool → Option ℕ → List ℕ → List ℕ → World
rebook w n k d b ks = record w {
  now = n;
  kill_attempted = k;
  failure_deadline = d;
  blockers = b;
  rec = record w.rec { killed_pids = ks };
}

abbrev pub runs_teardown : Call → Bool
runs_teardown run_teardown_steps = true
runs_teardown _ = false

-- The predicate does not depend on the bookkeeping, nor on calls other than the teardown steps.
pub record IsStable (Q : World → Type 0) : Type 0 where
  pub book :
      (w : World) (n : ℕ) (k : Bool) (d : Option ℕ) (b : List ℕ) (ks : List ℕ)
      → Q w
      → Q (rebook w n k d b ks)
  pub asked :
      (w : World) (n : ℕ) (c : Call)
      → runs_teardown c ≡ false
      → Q w
      → Q (record w { now = n; calls = c ∷ w.calls })

-- The operation keeps the predicate when it succeeds.
pub record Keeps (Q : World → Type 0) (op : World → Option World) : Type 0 where
  pub at : (w w' : World) → op w ≡ some w' → Q w → Q w'

module _ (Q : World → Type 0) (st : IsStable Q) (o : Outside) where
  pub calling-keeps : (c : Call) (w : World) → runs_teardown c ≡ false → Q w → Q (calling o c w)
  unfolding calling
  calling-keeps c w e q = st.asked w _ c e q

  sleep-keeps : (w : World) → Q w → Q (sleep o w)
  unfolding sleep
  sleep-keeps w q = st.book w _ w.kill_attempted w.failure_deadline w.blockers w.rec.killed_pids q

  open_deadline-keeps : (w : World) → Q w → Q (open_deadline o w)
  unfolding open_deadline
  open_deadline-keeps w q = elim (Option-cases w.failure_deadline) [
    | inl e ↦
        rw (e, open_deadline) (st.book w w.now w.kill_attempted _ w.blockers w.rec.killed_pids q)
    | inr (d, e) ↦ rw (e, open_deadline) q
  ]

  add_killed-keeps : (ps : List ℕ) (w : World) → Q w → Q (add_killed ps w)
  unfolding add_killed
  add_killed-keeps ps w q = st.book w w.now w.kill_attempted w.failure_deadline w.blockers _ q

  module _ (op : World → Option World) (keep : Keeps Q op) where
    pub retry_until-keeps :
        (fuel deadline : ℕ) (w : World) → Q w → Q (retry_until o fuel deadline op w).1
    unfolding retry_until
    retry_until-keeps zero deadline w q = q
    retry_until-keeps (suc fuel) deadline w q = elim (Option-cases (op w)) [
      | inr (w', e) ↦ rw (e, retry_until) (keep.at w w' e q)
      | inl e ↦ elim (Bool-cases (leb deadline w.now)) [
        | inl late ↦ rw (e, retry_until, late) q
        | inr early ↦
            rw (e, retry_until, early)
              (retry_until-keeps fuel deadline (sleep o w) (sleep-keeps w q))
      ]
    ]

    pub retry_bounded-keeps : (w : World) → Q w → Q (retry_bounded o op w).1
    unfolding retry_bounded
    retry_bounded-keeps w q =
        retry_until-keeps retry_fuel _ (open_deadline o w) (open_deadline-keeps w q)

    pub bare_retry_bounded-keeps : (w : World) → Q w → Q (bare_retry_bounded o op w).1
    unfolding bare_retry_bounded
    bare_retry_bounded-keeps w q = retry_until-keeps retry_fuel _ w q

    attempt-keeps : (w : World) → Q w → Q (attempt op w).1
    unfolding attempt
    attempt-keeps w q = elim (Option-cases (op w)) [
      | inr (w', e) ↦ rw (e, attempt) (keep.at w w' e q)
      | inl e ↦ rw (e, attempt) q
    ]

    either : (b : Bool) (x y : Bool × World) → Q x.1 → Q y.1 → Q (if b then x else y).1
    either true x y qx qy = qx
    either false x y qx qy = qy

    module _ (r : Request) where
      report-keeps : (found : List ℕ) (w : World) → Q w → Q (report_blockers o r found w)
      unfolding report_blockers
      report-keeps found w q =
          st.book w w.now w.kill_attempted w.failure_deadline _ w.rec.killed_pids q

      tried-keeps : (w : World) → Q w → Q (record w { kill_attempted = true })
      tried-keeps w q = st.book w w.now true w.failure_deadline w.blockers w.rec.killed_pids q

      kill_candidates-keeps : (found : List ℕ) (w : World) → Q w → Q (kill_candidates o r found w)
      unfolding kill_candidates
      kill_candidates-keeps found w q =
          let q' = calling-keeps kill_tree _ refl (tried-keeps w q) in
          elim (Bool-cases (o.kills_tree w.now)) [
            | inl e ↦ rw e (add_killed-keeps found _ q')
            | inr e ↦ rw e q'
          ]

      kill_holders-keeps : (w : World) → Q w → Q (kill_holders o r w)
      unfolding kill_holders
      kill_holders-keeps w q =
          let q' = calling-keeps kill_blockers _ refl (tried-keeps w q) in
          elim (Option-cases (o.kills_blocking w.now)) [
            | inl e ↦ rw (e, kill_holders) q'
            | inr (ps, e) ↦ rw (e, kill_holders) (add_killed-keeps ps _ q')
          ]

      tier_one-keeps : (w : World) → Q w → Q (tier_one o r op w).1
      unfolding tier_one
      tier_one-keeps w q =
          let found = tier_one_candidates o r w.now r.owned_pids in
          let w' = report_blockers o r found w in
          let q' = report-keeps found w q in
          either (is_nonempty found) _ (false, w)
            (either r.kill_blocking_processes (attempt op (kill_candidates o r found w'))
              (false, w') (attempt-keeps _ (kill_candidates-keeps found w' q')) q')
            q

      tier_two-keeps : (w : World) → Q w → Q (tier_two o r op w).1
      unfolding tier_two
      tier_two-keeps w q =
          let found = o.blocking w.now in
          let w' = report_blockers o r found (calling o scan_blockers w) in
          let q' = report-keeps found _ (calling-keeps scan_blockers w refl q) in
          either (budget_is_spent w) (false, w) _ q
            (either (r.kill_blocking_processes && is_nonempty found)
              (attempt op (kill_holders o r w')) (false, w')
              (attempt-keeps _ (kill_holders-keeps w' q')) q')

      pub diagnose_and_retry-keeps : (w : World) → Q w → Q (diagnose_and_retry o r op w).1
      unfolding diagnose_and_retry
      diagnose_and_retry-keeps w q =
          let (resolved, w') = tier_one o r op w in
          either (budget_is_spent w) (false, w) _ q
            (either resolved (true, w') (tier_two o r op w') (tier_one-keeps w q)
              (tier_two-keeps w' (tier_one-keeps w q)))

      pub resolve-keeps : (w : World) → Q w → Q (resolve o r op w)
      unfolding resolve
      resolve-keeps w q = elim (Bool-cases (retry_bounded o op w).0) [
        | inl e ↦ rw e (retry_bounded-keeps w q)
        | inr e ↦ rw e (diagnose_and_retry-keeps _ (retry_bounded-keeps w q))
      ]
