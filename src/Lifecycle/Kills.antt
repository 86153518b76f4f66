-- ===== src/Lifecycle/Kills.antt =====
-- When a process that stays is killed.
use lib_python_worktree.Prelude.{
  ℕ, zero, suc, ◌+◌, ◌*◌, ◌≤◌, ◌<◌, ◌≡◌, refl, inl, inr, Bool, true, false, Option, ◌&&◌, not, ltb,
  arith, Bool-cases,
}
use lib_python_worktree.Lifecycle.Starting.{is_true}
use lib_python_worktree.Lifecycle.Waiting.{
  WaitEnd, killed, is_verified, kill_verified, escalate, poll, wait_until, wait_or_kill,
}
use lib_python_worktree.Lifecycle.Verified.{Sleeps, IsNext}

module _ (verify : Bool) (reap alive : ℕ → Bool) (status : ℕ → Option Bool) (next : ℕ → ℕ) where
  -- The process is neither reaped nor gone, and is the one that was started.
  pub record Stays : Type 0 where
    pub unreaped : (t : ℕ) → reap t ≡ false
    pub living : (t : ℕ) → alive t ≡ true
    pub verified : (t : ℕ) → is_verified verify reap alive status next t ≡ true

  -- The wait ends with a kill, at the first time behind the deadline.
  abbrev pub KillsBy : (start deadline : ℕ) → WaitEnd → Type 0
  KillsBy start deadline x =
      (t : ℕ) × ((x ≡ killed t) × (deadline ≤ t) × IsNext next start deadline t)

  module _ (stays : Stays) (sleeps : Sleeps next) (start deadline : ℕ) where
    escalate-KillsBy :
        (t : ℕ)
        → deadline ≤ t
        → IsNext next start deadline t
        → KillsBy start deadline (escalate verify reap alive status next t)
    unfolding escalate kill_verified
    escalate-KillsBy t h k =
        rw (stays.unreaped t, stays.living t, stays.verified t) (t, (refl, h, k))

    wait_until-KillsBy :
        (fuel now : ℕ)
        → deadline ≤ now + 100 * fuel
        → IsNext next start deadline now
        → KillsBy start deadline (wait_until verify reap alive status next fuel now deadline)
    unfolding wait_until poll is_verified
    wait_until-KillsBy zero now enough k = escalate-KillsBy now (omega (arith, enough)) k
    wait_until-KillsBy (suc fuel) now enough k = elim (Bool-cases (ltb now deadline)) [
      | inr e ↦ rw e (escalate-KillsBy now (ground (arith, e)) k)
      | inl e ↦
          let before : now < deadline = ground (arith, e) in
          let same : (verify && not (is_true (status now))) ≡ false =
            ground (arith, stays.verified now) in
          rw (e, stays.unreaped now, stays.living now, same)
            (wait_until-KillsBy fuel (next now) (omega (arith, enough, sleeps now))
              (inr (now, (before, refl))))
    ]

  -- If a sleep lasts at least as long as it is asked to, a process that is neither reaped nor gone, and
  -- is verified where a start time is expected, is killed: not before the deadline, and as soon as the
  -- poll and the sleep that began before the deadline are over.
  pub wait_or_kill-KillsBy :
      (now timeout : ℕ)
      → Sleeps next
      → Stays
      → KillsBy now (now + timeout) (wait_or_kill verify reap alive status next now timeout)
  unfolding wait_or_kill kill_verified
  wait_or_kill-KillsBy now zero sleeps stays =
      rw (stays.verified now) (now, (refl, omega arith, inl refl))
  wait_or_kill-KillsBy now (suc timeout) sleeps stays =
      wait_until-KillsBy stays sleeps now (now + suc timeout) (suc timeout) now (omega arith)
        (inl refl)
