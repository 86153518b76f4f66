-- ===== src/Teardown/Retry.antt =====
-- The bounded retries, on a clock in milliseconds. `time.sleep` lasts at least as long as it is
-- asked to.
use lib_python_worktree.Prelude.{
  ℕ, zero, suc, ◌+◌, ◌-◌, Bool, true, false, Option, none, some, leb, if◌then◌else◌,
}
use lib_python_worktree.Teardown.Types.{Outside, World}

-- `_TRANSIENT_RETRY_BUDGET_SEC`, `_TRANSIENT_RETRY_STEP_SEC` and `_FAILURE_BUDGET_SEC`
abbrev pub retry_budget : ℕ
retry_budget = 2000

abbrev pub retry_step : ℕ
retry_step = 100

abbrev pub failure_budget : ℕ
failure_budget = 7000

-- One attempt for each step of the budget, and the first.
abbrev pub retry_fuel : ℕ
retry_fuel = 21

unfoldable pub min_of : ℕ → ℕ → ℕ
min_of a b = if leb a b then a else b

module _ (o : Outside) where
  -- `time.sleep(_TRANSIENT_RETRY_STEP_SEC)`
  unfoldable pub sleep : World → World
  sleep w = record w { now = w.now + retry_step + o.delay w.now }

  -- `while True: try: op(); return True; except OSError: ...`, on fuel.
  unfoldable pub retry_until : ℕ → ℕ → (World → Option World) → World → Bool × World
  retry_until zero deadline op w = (false, w)
  retry_until (suc fuel) deadline op w = elim (op w) [
    | some w' ↦ (true, w')
    | none ↦ if leb deadline w.now then (false, w) else retry_until fuel deadline op (sleep w)
  ]

  -- `if ctx.failure_deadline is None: ctx.failure_deadline = ...`
  unfoldable pub open_deadline : World → World
  open_deadline w = elim w.failure_deadline [
    | none ↦ record w { failure_deadline = some (w.now + failure_budget) }
    | some _ ↦ w
  ]

  -- `max(0.0, ctx.failure_deadline - time.monotonic())`
  unfoldable pub time_left : World → ℕ
  time_left w = elim w.failure_deadline [ none ↦ 0 | some d ↦ d - w.now ]

  -- `_retry_bounded`
  unfoldable pub retry_bounded : (World → Option World) → World → Bool × World
  unfolding open_deadline time_left min_of
  retry_bounded op w =
      let w' = open_deadline w in
      retry_until retry_fuel (w'.now + min_of retry_budget (time_left w')) op w'

  -- `_bare_retry_bounded`
  unfoldable pub bare_retry_bounded : (World → Option World) → World → Bool × World
  bare_retry_bounded op w = retry_until retry_fuel (w.now + retry_budget) op w
