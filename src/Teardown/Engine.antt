-- ===== src/Teardown/Engine.antt =====
-- `run_teardown` phase by phase: what all of its phases keep, and its end.
use mathlib.Core.Path.{fun_ext}
use mathlib.Core.List.{◌++◌}
use lib_python_worktree.Prelude.{◌≡◌, refl, ap, ◌∙◌, List, [], ◌∷◌}
use lib_python_worktree.Prelude.Results.{Result, ok, err}
use lib_python_worktree.Teardown.Types.{Outside, Request, World, Action, TeardownError, ◌>>◌}
use lib_python_worktree.Teardown.Hooks.{
  teardown_hook, guard_primary, stop_processes, stop_hook, gate_b_early_dirty,
}
use lib_python_worktree.Teardown.Phases.{
  final_guard, release_ports, teardown_phases, run_phases, run_teardown, dirt_gate,
  stage_and_delete, git_prune_phase,
}
use lib_python_worktree.Teardown.Quiet
use lib_python_worktree.Teardown.Frame

abbrev pub AllKeep : (World → Type 0) → List (Action (Unit {0})) → Type 0
AllKeep Q [] = Unit
AllKeep Q (p ∷ ps) = ((w : World) → Q w → Q (p w).1) × AllKeep Q ps

pub run_phases-keeps :
    (Q : World → Type 0) (ps : List (Action (Unit {0})))
    → AllKeep Q ps
    → (w : World) → Q w
    → Q (run_phases ps w).1
unfolding run_phases
run_phases-keeps Q [] h w q = q
run_phases-keeps Q (p ∷ ps) h w q =
    Quiet.bind-keeps Q p (λ _. run_phases ps) w (h.0 w q)
      (λ _. run_phases-keeps Q ps h.1 (p w).1 (h.0 w q))

then_assoc :
    (x : Result TeardownError (Unit {0})) (n k : Action (Unit {0})) (w : World)
    → ◌≡◌ {A = Result TeardownError (Unit {0}) × World}
        (elim x [ ok a ↦ (n >> k) w | err e ↦ (err e, w) ])
        (let y : Result TeardownError (Unit {0}) × World = elim x [
          | ok a ↦ n w
          | err e ↦ (err e, w)
        ] in
          elim y.0 [ ok a ↦ k y.1 | err e ↦ (err e, y.1) ])
then_assoc (ok a) n k w = refl
then_assoc (err e) n k w = refl

-- The rest of the phases runs from where the first ones end, if none of them raised.
pub run_phases-append :
    (ps qs : List (Action (Unit {0}))) (w : World)
    → run_phases (ps ++ qs) w ≡ (run_phases ps >> run_phases qs) w
unfolding run_phases
run_phases-append [] qs w = refl
run_phases-append (p ∷ ps) qs w =
    ap (λ (m : Action (Unit {0})). (p >> m) w) (fun_ext (run_phases-append ps qs))
    ∙ then_assoc (p w).0 (run_phases ps) (run_phases qs) (p w).1

module _ (o : Outside) (r : Request) where
  -- The phases before the final guard.
  unfoldable pub first_phases : List (Action (Unit {0}))
  first_phases =
      guard_primary o r
      ∷ stop_processes o r
      ∷ stop_hook o r
      ∷ gate_b_early_dirty o r
      ∷ teardown_hook o r
      ∷ dirt_gate o r
      ∷ stage_and_delete o r
      ∷ git_prune_phase o r
      ∷ []

  unfoldable pub last_phases : List (Action (Unit {0}))
  last_phases = final_guard o r ∷ release_ports o r ∷ []

  pub run_teardown-split :
      (w : World) → run_teardown o r w ≡ (run_phases first_phases >> run_phases last_phases) w
  unfolding run_teardown teardown_phases first_phases last_phases
  run_teardown-split w = run_phases-append _ _ w

  pub first_phases-AllKeep :
      (Q : World → Type 0)
      → Frame.IsFrame o Q
      → ((w : World) → Q w → Q (teardown_hook o r w).1)
      → AllKeep Q first_phases
  unfolding first_phases
  first_phases-AllKeep Q f hook = (
    Quiet.guard_primary-keeps Q o r f.quiet,
    (
      Quiet.stop_processes-keeps Q o r f.quiet,
      (
        Quiet.stop_hook-keeps Q o r f.quiet,
        (
          Frame.gate_b-keeps Q o r f,
          (
            hook,
            (
              Frame.dirt_gate-keeps Q o r f,
              (Frame.stage_and_delete-keeps Q o r f, (Quiet.git_prune-keeps Q o r f.quiet, tt)),
            ),
          ),
        ),
      ),
    ),
  )
