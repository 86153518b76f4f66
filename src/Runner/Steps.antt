-- ===== src/Runner/Steps.antt =====
-- `SetupRunner.run` and `_invoke`. A log is named by the index and the name of its step; what the
-- process writes and the argv in its header are left out.
use Prim.Native.String.{◌++◌ as join}
use lib_python_worktree.Prelude.{
  ℕ, suc, String, Bool, true, false, Option, none, some, List, [], ◌∷◌, ◌++◌, ◌==◌, if◌then◌else◌,
  str_eq,
}
use lib_python_worktree.Prelude.Int.{ℤ, pos, negsuc}
use lib_python_worktree.Prelude.Results.{Result, ok, err}
use lib_python_worktree.Contract.{Step, Isolation, full, partial, isolation_none}
use lib_python_worktree.Runner.Commands.{CommandError, resolve_shell, build_step_command}

-- How the process of a step ends: with a return code, or killed at its timeout; or the runner raises
-- OSError, and there is none.
pub data ProcessEnd : Type 0 where
  exited : ℤ → ProcessEnd
  overran not_spawned : ProcessEnd

pub record SetupStepResult : Type 0 where
  pub index : ℕ
  pub name : String
  pub returncode : ℤ

-- `SetupFailedError(step_index, step_name, returncode, timeout)`, `RunLineExpansionError`, and the
-- OSError of a process that cannot be started.
pub data SetupError : Type 0 where
  setup_failed : (index : ℕ) (name : String) (returncode : ℤ) (timed_out : Bool) → SetupError
  not_started : CommandError → SetupError
  os_error : SetupError

-- A log that has been written: of which step, and the return code in its header.
pub record Log : Type 0 where
  pub index : ℕ
  pub name : String
  pub returncode : ℤ

-- `show` prints an index, `spawn` runs the command of a step.
pub record Host : Type 0 where
  pub windows : Bool
  pub is_space : ℕ → Bool
  pub is_word : ℕ → Bool
  pub encode : String → String
  pub show : ℕ → String
  pub spawn : ℕ → List String → ProcessEnd

-- `step.name or f"step-{index}"`
unfoldable pub step_name : (ℕ → String) → ℕ → Option String → String
step_name show index none = join "step-" (show index)
step_name show index (some name) = if str_eq name "" then join "step-" (show index) else name

unfoldable pub is_zero : ℤ → Bool
is_zero (pos n) = n == 0
is_zero (negsuc n) = false

-- `result.steps.append(step_result)` in front of what the later steps add.
unfoldable pub prepend :
    SetupStepResult
    → Result SetupError (List SetupStepResult)
    → Result SetupError (List SetupStepResult)
prepend r (ok rs) = ok (r ∷ rs)
prepend r (err e) = err e

module _ (h : Host) where
  unfoldable pub command : Step → Result CommandError (List String)
  command step =
      build_step_command h.is_space h.is_word h.encode (resolve_shell h.windows step.shell) step.run

  -- `_invoke` behind the start of the process, with the log that it writes, and the check of the
  -- return code behind it.
  unfoldable pub end_step : ℕ → String → ProcessEnd → Result SetupError SetupStepResult × List Log
  end_step index name not_spawned = (err os_error, [])
  end_step index name overran = (
    err (setup_failed index name (negsuc 0) true),
    record { index = index; name = name; returncode = negsuc 0 } ∷ [],
  )
  end_step index name (exited rc) = (
    (if is_zero rc
        then ok (record { index = index; name = name; returncode = rc })
        else err (setup_failed index name rc false)),
    record { index = index; name = name; returncode = rc } ∷ [],
  )

  unfoldable pub spawn_step :
      ℕ → String → Result CommandError (List String) → Result SetupError SetupStepResult × List Log
  spawn_step index name (err e) = (err (not_started e), [])
  spawn_step index name (ok argv) = end_step index name (h.spawn index argv)

  unfoldable pub run_step : ℕ → Step → Result SetupError SetupStepResult × List Log
  run_step index step = spawn_step index (step_name h.show index step.name) (command step)

  -- The loop over the steps, from an index on: the results, and the logs in order. A step that fails
  -- ends the loop.
  unfoldable pub run_steps : ℕ → List Step → Result SetupError (List SetupStepResult) × List Log
  run_steps index [] = (ok [], [])
  run_steps index (step ∷ steps) =
      let (result, logs) = run_step index step in
      elim result [
        | err e ↦ (err e, logs)
        | ok r ↦
            (prepend r (run_steps (suc index) steps).0, logs ++ (run_steps (suc index) steps).1)
      ]

  -- `SetupRunner.run`
  unfoldable pub run : Isolation → List Step → Result SetupError (List SetupStepResult) × List Log
  run isolation_none steps = (ok [], [])
  run full steps = run_steps 0 steps
  run partial steps = run_steps 0 steps
