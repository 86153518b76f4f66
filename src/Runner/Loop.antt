-- ===== src/Runner/Loop.antt =====
-- The loop runs the steps in order, each once, up to the first that fails.
use lib_python_worktree.Prelude.{
  ℕ, suc, ◌+◌, ◌≡◌, ◌≢◌, ◌⊎◌, refl, ap, ◌∙◌, inl, inr, subst, true, false, String, Bool-cases, List,
  [], ◌∷◌, ◌++◌, arith,
}
use lib_python_worktree.Prelude.Int.{ℤ, pos, negsuc}
use lib_python_worktree.Prelude.Results.{Result, ok, err}
use lib_python_worktree.Prelude.Lists.{length}
use lib_python_worktree.Contract.{Step, Isolation, full, partial, isolation_none}
use lib_python_worktree.Runner.Commands.{CommandError}
use lib_python_worktree.Runner.Steps.{
  ProcessEnd, exited, overran, not_spawned, SetupStepResult, SetupError, setup_failed, not_started,
  os_error, Log, Host, step_name, is_zero, command, end_step, spawn_step, run_step, prepend,
  run_steps, run,
}

module _ (h : Host) where
  -- The results of steps that return 0, from an index on.
  abbrev pub results_from : ℕ → List Step → List SetupStepResult
  results_from i [] = []
  results_from i (s ∷ ss) =
      record { index = i; name = step_name h.show i s.name; returncode = pos 0 }
      ∷ results_from (suc i) ss

  abbrev pub logs_from : ℕ → List Step → List Log
  logs_from i [] = []
  logs_from i (s ∷ ss) =
      record { index = i; name = step_name h.show i s.name; returncode = pos 0 }
      ∷ logs_from (suc i) ss

  -- The step's command is accepted, and its process ends so.
  abbrev pub Spawns : ℕ → Step → ProcessEnd → Type 0
  Spawns i s end = (argv : List String) × ((command h s ≡ ok argv) × (h.spawn i argv ≡ end))

  -- Each step is started and returns 0.
  abbrev pub AllSucceed : ℕ → List Step → Type 0
  AllSucceed i [] = Unit
  AllSucceed i (s ∷ ss) = Spawns i s (exited (pos 0)) × AllSucceed (suc i) ss

  -- How a step fails, with its error and its logs: its command is refused, its process cannot be
  -- started, overruns, or returns another code than 0.
  pub data Fails (i : ℕ) (s : Step) : SetupError → List Log → Type 0 where
    is_refused : (e : CommandError) → command h s ≡ err e → Fails i s (not_started e) []
    has_no_process : Spawns i s not_spawned → Fails i s os_error []
    has_overrun :
        Spawns i s overran
        → Fails i s
            (setup_failed i (step_name h.show i s.name) (negsuc 0) true)
            (record { index = i; name = step_name h.show i s.name; returncode = negsuc 0 } ∷ [])
    has_returned :
        (rc : ℤ)
        → rc ≢ pos 0
        → Spawns i s (exited rc)
        → Fails i s
            (setup_failed i (step_name h.show i s.name) rc false)
            (record { index = i; name = step_name h.show i s.name; returncode = rc } ∷ [])

  -- The steps up to the first that fails, and how that fails.
  pub record StopsAt (i : ℕ) (steps : List Step)
      (r : Result SetupError (List SetupStepResult) × List Log) : Type 0 where
    pub before : List Step
    pub failing : Step
    pub after : List Step
    pub error : SetupError
    pub logs : List Log
    pub split : steps ≡ before ++ failing ∷ after
    pub succeed : AllSucceed i before
    pub fails : Fails (i + length before) failing error logs
    pub ends : r ≡ (err error, logs_from i before ++ logs)

  -- The result of a step that returns 0, with its log.
  abbrev success : ℕ → Step → Result SetupError SetupStepResult × List Log
  success i s = (
    ok (record { index = i; name = step_name h.show i s.name; returncode = pos 0 }),
    record { index = i; name = step_name h.show i s.name; returncode = pos 0 } ∷ [],
  )

  is_zero-eq : (rc : ℤ) → is_zero rc ≡ true → rc ≡ pos 0
  unfolding is_zero
  is_zero-eq (pos n) e = ap pos (ground (arith, e))
  is_zero-eq (negsuc n) e = absurd (cc e)

  is_zero-ne : (rc : ℤ) → is_zero rc ≡ false → rc ≢ pos 0
  unfolding is_zero
  is_zero-ne rc e q = absurd (cc (e, ap is_zero q))

  -- A step succeeds or fails.
  abbrev Ended : ℕ → Step → Result SetupError SetupStepResult × List Log → Type 0
  Ended i s x =
      (Spawns i s (exited (pos 0)) × (x ≡ success i s))
      ⊎ ((e : SetupError) × (l : List Log) × (Fails i s e l × (x ≡ (err e, l))))

  end_step-Ended :
      (i : ℕ) (s : Step) (argv : List String) (end : ProcessEnd)
      → command h s ≡ ok argv
      → h.spawn i argv ≡ end
      → Ended i s (end_step h i (step_name h.show i s.name) end)
  unfolding end_step
  end_step-Ended i s argv not_spawned c e = inr (_, _, (has_no_process (argv, (c, e)), refl))
  end_step-Ended i s argv overran c e = inr (_, _, (has_overrun (argv, (c, e)), refl))
  end_step-Ended i s argv (exited rc) c e = elim (Bool-cases (is_zero rc)) [
    | inl z ↦ let same = is_zero-eq rc z in inl ((argv, (c, e ∙ ap exited same)), rw (z, same) refl)
    | inr z ↦ inr (_, _, (has_returned rc (is_zero-ne rc z) (argv, (c, e)), rw z refl))
  ]

  run_step-Ended : (i : ℕ) (s : Step) → Ended i s (run_step h i s)
  unfolding run_step spawn_step
  run_step-Ended i s = spawned (command h s) refl
    where
      spawned :
          (c : Result CommandError (List String))
          → command h s ≡ c
          → Ended i s (spawn_step h i (step_name h.show i s.name) c)
      spawned (err e) q = inr (_, _, (is_refused e q, refl))
      spawned (ok argv) q = end_step-Ended i s argv (h.spawn i argv) q refl

  abbrev pub Outcome : ℕ → List Step → Result SetupError (List SetupStepResult) × List Log → Type 0
  Outcome i steps r =
      (AllSucceed i steps × (r ≡ (ok (results_from i steps), logs_from i steps)))
      ⊎ StopsAt i steps r

  run_steps-eq-err :
      (i : ℕ) (s : Step) (ss : List Step) (e : SetupError) (l : List Log)
      → run_step h i s ≡ (err e, l)
      → run_steps h i (s ∷ ss) ≡ (err e, l)
  unfolding run_steps
  run_steps-eq-err i s ss e l q = rw (q, run_steps) (ap (λ p. (err e, p.1)) q)

  run_steps-eq-ok :
      (i : ℕ) (s : Step) (ss : List Step) (r : SetupStepResult) (l : Log)
      → run_step h i s ≡ (ok r, l ∷ [])
      → run_steps h i (s ∷ ss)
        ≡ (prepend r (run_steps h (suc i) ss).0, l ∷ (run_steps h (suc i) ss).1)
  unfolding run_steps
  run_steps-eq-ok i s ss r l q =
      rw (q, run_steps)
        (ap (λ p. (prepend r (run_steps h (suc i) ss).0, p.1 ++ (run_steps h (suc i) ss).1)) q)

  -- The first step has returned 0.
  step_on :
      (i : ℕ) (s : Step) (ss : List Step)
      → Spawns i s (exited (pos 0))
      → run_step h i s ≡ success i s
      → Outcome (suc i) ss (run_steps h (suc i) ss)
      → Outcome i (s ∷ ss) (run_steps h i (s ∷ ss))
  unfolding prepend
  step_on i s ss spawns here (inl (all, q)) =
      inl ((spawns, all), run_steps-eq-ok i s ss _ _ here ∙ rw q refl)
  step_on i s ss spawns here (inr f) = inr (record {
    before = s ∷ f.before;
    failing = f.failing;
    after = f.after;
    error = f.error;
    logs = f.logs;
    split = ap (λ l. s ∷ l) f.split;
    succeed = (spawns, f.succeed);
    fails =
        subst (λ n. Fails n f.failing f.error f.logs)
          (let same : suc i + length f.before ≡ i + suc (length f.before) = omega arith in same)
          f.fails;
    ends = run_steps-eq-ok i s ss _ _ here ∙ rw f.ends refl;
  })

  outcome : (i : ℕ) (steps : List Step) → Outcome i steps (run_steps h i steps)
  unfolding run_steps
  outcome i [] = inl (tt, refl)
  outcome i (s ∷ ss) = elim (run_step-Ended i s) [
    | inl (spawns, here) ↦ step_on i s ss spawns here (outcome (suc i) ss)
    | inr (e, l, (fails, q)) ↦ inr (record {
      before = [];
      failing = s;
      after = ss;
      error = e;
      logs = l;
      split = refl;
      succeed = tt;
      fails = subst (λ n. Fails n s e l) (let same : i ≡ i + 0 = omega arith in same) fails;
      ends = run_steps-eq-err i s ss e l q;
    })
  ]

  -- A run of the steps either starts each in order, each returns 0 and has its log and its result;
  -- or there is a first step whose command is refused, or whose process cannot be started, overruns or
  -- returns another code: then the run raises the error of that, with the logs of the steps before it and its own, and no later step is
  -- started.
  pub run-Outcome :
      (isolation : Isolation) (steps : List Step)
      → isolation ≢ isolation_none
      → Outcome 0 steps (run h isolation steps)
  unfolding run
  run-Outcome full steps ne = outcome 0 steps
  run-Outcome partial steps ne = outcome 0 steps
  run-Outcome isolation_none steps ne = absurd (ne refl)
