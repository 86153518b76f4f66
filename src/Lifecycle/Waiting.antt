-- ===== src/Lifecycle/Waiting.antt =====
-- `_wait_or_kill`. `reap`, `alive` and `status` are `_reap`, `_pid_alive` and `_pid_status` of the
-- process by the time at which a poll begins, `next` is the time at which the poll that begins at a
-- time and the sleep of 0.1 s behind it are over, and `verify` tells whether an
-- `expected_start_time` is given. The reaping behind a kill is left out.
use lib_python_worktree.Prelude.{
  ℕ, zero, suc, ◌+◌, Bool, Option, ◌&&◌, ◌||◌, not, ltb, if◌then◌else◌,
}
use lib_python_worktree.Lifecycle.Starting.{is_true}

-- The process is gone, another one has its pid, it is killed, or it is not killed as it cannot be
-- verified.
pub data WaitEnd : Type 0 where
  gone replaced killed spared : (at : ℕ) → WaitEnd

module _ (verify : Bool) (reap alive : ℕ → Bool) (status : ℕ → Option Bool) (next : ℕ → ℕ) where
  -- `expected_start_time is None or _pid_status(...) is True`
  unfoldable pub is_verified : ℕ → Bool
  is_verified now = not verify || is_true (status now)

  unfoldable pub kill_verified : ℕ → WaitEnd
  kill_verified now = if is_verified now then killed now else spared now

  -- Behind the loop.
  unfoldable pub escalate : ℕ → WaitEnd
  escalate now = if not (reap now) && alive now then kill_verified now else gone now

  unfoldable pub poll : ℕ → WaitEnd → WaitEnd
  poll now rest =
      if reap now || not (alive now)
      then gone now
      else if verify && not (is_true (status now))
      then replaced now
      else rest

  unfoldable pub wait_until : (fuel now deadline : ℕ) → WaitEnd
  wait_until zero now deadline = escalate now
  wait_until (suc fuel) now deadline =
      let rest = wait_until fuel (next now) deadline in
      if ltb now deadline then poll now rest else escalate now

  -- The fuel is more than the number of polls, since a sleep lasts at least 100 ms.
  unfoldable pub wait_or_kill : (now timeout : ℕ) → WaitEnd
  wait_or_kill now zero = kill_verified now
  wait_or_kill now (suc timeout) = wait_until (suc timeout) now (now + suc timeout)
