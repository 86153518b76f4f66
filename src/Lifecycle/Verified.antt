-- ===== src/Lifecycle/Verified.antt =====
-- A process is killed only in time and verified.
use lib_python_worktree.Prelude.{
  ℕ, zero, suc, ◌+◌, ◌*◌, ◌≤◌, ◌<◌, ◌≡◌, ◌⊎◌, refl, inl, inr, Bool, true, false, Option, ◌&&◌, ◌||◌,
  not, ltb, arith, Bool-cases,
}
use lib_python_worktree.Lifecycle.Starting.{is_true}
use lib_python_worktree.Lifecycle.Waiting.{
  WaitEnd, gone, replaced, killed, spared, is_verified, kill_verified, escalate, poll, wait_until,
  wait_or_kill,
}

-- A poll takes some time, and `time.sleep(0.1)` at least 100 ms.
abbrev pub Sleeps : (ℕ → ℕ) → Type 0
Sleeps next = (t : ℕ) → t + 100 ≤ next t

-- The time is the first, or the end of a poll and its sleep that began before the deadline.
abbrev pub IsNext : (next : ℕ → ℕ) → (start deadline t : ℕ) → Type 0
IsNext next start deadline t = (t ≡ start) ⊎ ((u : ℕ) × ((u < deadline) × (t ≡ next u)))

module _ (verify : Bool) (reap alive : ℕ → Bool) (status : ℕ → Option Bool) (next : ℕ → ℕ) where
  -- What holds where a wait that starts at `start` and has a deadline ends.
  abbrev pub EndsBy : (start deadline : ℕ) → WaitEnd → Type 0
  EndsBy start deadline (gone t) = (start ≤ t) × IsNext next start deadline t
  EndsBy start deadline (replaced t) =
      (start ≤ t) × (t < deadline) × (is_verified verify reap alive status next t ≡ false)
  EndsBy start deadline (killed t) =
      (deadline ≤ t)
      × IsNext next start deadline t
      × (is_verified verify reap alive status next t ≡ true)
  EndsBy start deadline (spared t) =
      (deadline ≤ t)
      × IsNext next start deadline t
      × (is_verified verify reap alive status next t ≡ false)

  kill_verified-EndsBy :
      (start deadline t : ℕ)
      → deadline ≤ t
      → IsNext next start deadline t
      → EndsBy start deadline (kill_verified verify reap alive status next t)
  unfolding kill_verified
  kill_verified-EndsBy start deadline t h k =
      elim (Bool-cases (is_verified verify reap alive status next t)) [
        | inl e ↦ rw (EndsBy, e) (h, k, e)
        | inr e ↦ rw (EndsBy, e) (h, k, e)
      ]

  escalate-EndsBy :
      (start deadline t : ℕ)
      → start ≤ t
      → deadline ≤ t
      → IsNext next start deadline t
      → EndsBy start deadline (escalate verify reap alive status next t)
  unfolding escalate
  escalate-EndsBy start deadline t s h k = elim (Bool-cases (not (reap t) && alive t)) [
    | inl e ↦ rw e (kill_verified-EndsBy start deadline t h k)
    | inr e ↦ rw e (s, k)
  ]

  poll-EndsBy :
      (start now deadline : ℕ) (rest : WaitEnd)
      → start ≤ now
      → now < deadline
      → IsNext next start deadline now
      → EndsBy start deadline rest
      → EndsBy start deadline (poll verify reap alive status next now rest)
  unfolding poll is_verified
  poll-EndsBy start now deadline rest s h k r = elim (Bool-cases (reap now || not (alive now))) [
    | inl e ↦ rw e (s, k)
    | inr e ↦ rw e (elim (Bool-cases (verify && not (is_true (status now)))) [
      | inl v ↦ rw v (s, h, ground (arith, v))
      | inr v ↦ rw v r
    ])
  ]

  module _ (sleeps : Sleeps next) (start deadline : ℕ) where
    wait_until-EndsBy :
        (fuel now : ℕ)
        → deadline ≤ now + 100 * fuel
        → start ≤ now
        → IsNext next start deadline now
        → EndsBy start deadline (wait_until verify reap alive status next fuel now deadline)
    unfolding wait_until
    wait_until-EndsBy zero now enough s k =
        escalate-EndsBy start deadline now s (omega (arith, enough)) k
    wait_until-EndsBy (suc fuel) now enough s k = elim (Bool-cases (ltb now deadline)) [
      | inr e ↦ rw e (escalate-EndsBy start deadline now s (ground (arith, e)) k)
      | inl e ↦
          let before : now < deadline = ground (arith, e) in
          let later = sleeps now in
          rw e (
            poll-EndsBy start now deadline _ s before k (
              wait_until-EndsBy fuel (next now) (omega (arith, enough, later))
                (omega (arith, s, later)) (inr (now, (before, refl)))))
    ]

  -- If a sleep lasts at least as long as it is asked to, whatever the process does and however long
  -- the polls take: a wait begins no poll behind its deadline, so that it ends with the poll and the
  -- sleep that began before it, but for the reaping of what it has killed. It kills only at the
  -- deadline or behind it, and only a process that is verified at that time, where a start time is
  -- expected; it leaves a process that another one has replaced.
  pub wait_or_kill-EndsBy :
      (now timeout : ℕ)
      → Sleeps next
      → EndsBy now (now + timeout) (wait_or_kill verify reap alive status next now timeout)
  unfolding wait_or_kill
  wait_or_kill-EndsBy now zero sleeps =
      kill_verified-EndsBy now (now + 0) now (omega arith) (inl refl)
  wait_or_kill-EndsBy now (suc timeout) sleeps =
      wait_until-EndsBy sleeps now (now + suc timeout) (suc timeout) now (omega arith) (omega arith)
        (inl refl)
