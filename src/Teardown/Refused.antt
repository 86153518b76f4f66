-- ===== src/Teardown/Refused.antt =====
-- A removal without `force` of a checkout with real dirt, phase by phase up to the refusal.
use lib_python_worktree.Prelude.{
  ◌≡◌, refl, sym, ap, ◌∙◌, subst, Bool, true, false, ◌||◌, ◌&&◌, not, none, some, List, [], ◌∷◌,
  arith, inl, inr, ◌⊎◌, Bool-cases, Option-cases, String,
}
use lib_python_worktree.Prelude.Results.{Result, ok, err}
use lib_python_worktree.Teardown.Types.{
  Outside, Request, World, Action, git_status, TeardownError, primary_checkout, dirty, pure, raise,
}
use lib_python_worktree.Teardown.Dirt.{status_entries, real_dirt_paths}
use lib_python_worktree.Teardown.Disk.{calling}
use lib_python_worktree.Teardown.Hooks.{
  has_steps, is_dirty, teardown_steps_of, probe_status, dirt, guard_primary, stop_processes,
  stop_record, stop_hook, refuse_early, early_check, gate_b_early_dirty, teardown_hook,
}
use lib_python_worktree.Teardown.Phases.{
  refuse_dirty, refuse_if_dirty, dirt_check, dirt_gate, stage_and_delete, git_prune_phase,
  final_guard, release_ports, run_phases, teardown_phases, run_teardown,
}
use lib_python_worktree.Teardown.Quiet.{IsQuiet, stop_processes-keeps, stop_hook-keeps}
use lib_python_worktree.Teardown.Sequence.{
  bind-eq-ok, run_phases-eq-ok, run_phases-eq-err, when-eq-true,
}
use lib_python_worktree.Teardown.Kept.{runs_of, IsRefused, IsDirty, refuse_dirty-IsRefused}

-- The disk, the memoised probe, the ports and the runs of the `teardown:` steps are as at `w`.
abbrev IsLike : World → World → Type 0
IsLike w w' =
    (w'.checkout ≡ w.checkout)
    × (w'.staged ≡ w.staged)
    × (w'.status_cache ≡ w.status_cache)
    × (runs_of w'.calls ≡ runs_of w.calls)
    × (w'.ports ≡ w.ports)

IsLike-IsQuiet : (o : Outside) (w : World) → IsQuiet o (IsLike w)
unfolding runs_of stop_record
IsLike-IsQuiet o w = record {
  stable = record {
    book = λ v n k d b ks q. q;
    asked = λ v n c e q. (q.0, q.1, q.2, rw e (q.3), q.4);
  };
  stopped = λ r v role x e q. q;
  outcome = λ v x q. q;
}

IsLike-IsRefused :
    (w v : World) (out : Result TeardownError (Unit {0}) × World)
    → IsLike w v
    → IsRefused v out
    → IsRefused w out
IsLike-IsRefused w v out (c, s, k, n, p) (raised, place, runs, ports) =
    (raised, elim place [ inl e ↦ inl (e ∙ c) | inr (a, e) ↦ inr (a, e ∙ c) ], runs ∙ n, ports ∙ p)

guard_primary-cases :
    (o : Outside) (r : Request) (w : World)
    → (guard_primary o r w ≡ (ok tt, w)) ⊎ (guard_primary o r w ≡ (err primary_checkout, w))
unfolding guard_primary
guard_primary-cases o r w = ground arith

stop_hook-eq-ok :
    (o : Outside) (r : Request) (w : World) → stop_hook o r w ≡ (ok tt, (stop_hook o r w).1)
unfolding stop_hook
stop_hook-eq-ok o r w = elim (Option-cases r.contract) [
  | inl e ↦ rw (e, stop_hook) refl
  | inr (c, e) ↦ rw (e, stop_hook) refl
]

neither : (a b : Bool) → a ≡ false → b ≡ false → not (a || b) ≡ true
neither a b ea eb = ground arith

declared : (a b : Bool) → a ≡ false → b ≡ true → not a && b ≡ true
declared a b ea eb = ground arith

module _ (o : Outside) (r : Request) (lenient : r.force ≡ false) where
  -- What a fresh probe leaves.
  unfoldable probed : World → World
  probed w = record (calling o git_status w) {
    status_cache = some (status_entries (o.status w.now));
  }

  abbrev found_at : World → List String
  found_at w = real_dirt_paths (status_entries (o.status w.now))

  probe_status-eq-ok :
      (w : World)
      → w.status_cache ≡ none
      → probe_status o r w ≡ (ok (status_entries (o.status w.now)), probed w)
  unfolding probe_status probed
  probe_status-eq-ok w e = rw (e, probe_status) refl

  dirt-eq-ok : (w : World) → w.status_cache ≡ none → dirt o r w ≡ (ok (found_at w), probed w)
  unfolding dirt
  dirt-eq-ok w e = rw lenient (
      bind-eq-ok (probe_status o r) (λ es. pure (real_dirt_paths es)) w (probed w)
        (status_entries (o.status w.now)) (probe_status-eq-ok w e))

  module _ (is_dirty_at : IsDirty o) where
    early_check-eq-err :
        (w : World) → w.status_cache ≡ none → early_check o r w ≡ (err (dirty false), probed w)
    unfolding early_check refuse_early
    early_check-eq-err w e =
        bind-eq-ok (dirt o r) (refuse_early o r) w (probed w) (found_at w) (dirt-eq-ok w e)
        ∙ when-eq-true (is_dirty (found_at w)) (raise (dirty false)) (probed w) (is_dirty_at w.now)

    dirt_check-eq :
        (w : World)
        → w.status_cache ≡ none
        → dirt_check o r w ≡ refuse_dirty o r (found_at w) (probed w)
    unfolding dirt_check refuse_if_dirty
    dirt_check-eq w e =
        bind-eq-ok (dirt o r) (refuse_if_dirty o r) w (probed w) (found_at w) (dirt-eq-ok w e)
        ∙ when-eq-true (is_dirty (found_at w)) (refuse_dirty o r (found_at w)) (probed w)
            (is_dirty_at w.now)

    from_gate_b : List (Action (Unit {0}))
    from_gate_b =
        gate_b_early_dirty o r
        ∷ teardown_hook o r
        ∷ dirt_gate o r
        ∷ stage_and_delete o r
        ∷ git_prune_phase o r
        ∷ final_guard o r
        ∷ release_ports o r
        ∷ []

    probed-IsRefused : (w : World) → IsRefused w (err (dirty false), probed w)
    unfolding probed runs_of calling
    probed-IsRefused w = ((dirty false, refl), inl refl, refl, refl)

    probed-IsLike :
        (w : World) (out : Result TeardownError (Unit {0}) × World)
        → IsRefused (probed w) out
        → IsRefused w out
    unfolding probed runs_of calling
    probed-IsLike w out q = q

    module _ (here : r.target_absent ≡ false) where
      dirt_gate-eq :
          (w : World)
          → w.status_cache ≡ none
          → dirt_gate o r w ≡ refuse_dirty o r (found_at w) (probed w)
      unfolding dirt_gate
      dirt_gate-eq w e =
          when-eq-true (not (r.force || r.target_absent)) (dirt_check o r) w
            (neither _ _ lenient here)
          ∙ dirt_check-eq w e

      dirt_gate-IsRefused : (w : World) → w.status_cache ≡ none → IsRefused w (dirt_gate o r w)
      dirt_gate-IsRefused w e = subst (IsRefused w) (sym (dirt_gate-eq w e)) (
          probed-IsLike w (refuse_dirty o r (found_at w) (probed w))
            (refuse_dirty-IsRefused o r (found_at w) (probed w)))

      gate_b-eq-err :
          (w : World)
          → w.status_cache ≡ none
          → has_steps (teardown_steps_of r.contract) ≡ true
          → gate_b_early_dirty o r w ≡ (err (dirty false), probed w)
      unfolding gate_b_early_dirty
      gate_b-eq-err w e s =
          when-eq-true _ (early_check o r) w (declared _ _ lenient s) ∙ early_check-eq-err w e

      after_refusal :
          (p : Action (Unit {0})) (ps : List (Action (Unit {0}))) (w v : World)
          → IsRefused w (p v)
          → IsRefused w (run_phases (p ∷ ps) v)
      after_refusal p ps w v q =
          let ((e, raised), place, runs, ports) = q in
          rw (run_phases-eq-err p ps v (p v).1 e (ap (λ x. (x, (p v).1)) raised))
            ((e, refl), place, runs, ports)

      from_gate_b-IsRefused :
          (w : World) → w.status_cache ≡ none → IsRefused w (run_phases from_gate_b w)
      unfolding from_gate_b gate_b_early_dirty teardown_hook
      from_gate_b-IsRefused w e = elim (Bool-cases (has_steps (teardown_steps_of r.contract))) [
        | inl s ↦
            after_refusal _ _ w w
              (subst (IsRefused w) (sym (gate_b-eq-err w e s)) (probed-IsRefused w))
        | inr s ↦
            rw
              (
                run_phases-eq-ok (gate_b_early_dirty o r) _ w w (rw (lenient, s) refl),
                run_phases-eq-ok (teardown_hook o r) _ w w (rw s refl),
              )
              (after_refusal _ _ w w (dirt_gate-IsRefused w e))
      ]

      from_stop_hook-IsRefused :
          (w w₁ : World)
          → w.status_cache ≡ none
          → IsLike w w₁
          → IsRefused w (run_phases (stop_hook o r ∷ from_gate_b) w₁)
      from_stop_hook-IsRefused w w₁ e like₁ =
          let w₂ = (stop_hook o r w₁).1 in
          let like₂ = stop_hook-keeps (IsLike w) o r (IsLike-IsQuiet o w) w₁ like₁ in
          subst (IsRefused w)
            (sym (run_phases-eq-ok (stop_hook o r) from_gate_b w₁ w₂ (stop_hook-eq-ok o r w₁)))
            (IsLike-IsRefused w w₂ (run_phases from_gate_b w₂) like₂
              (from_gate_b-IsRefused w₂ (like₂.2 ∙ e)))

      -- Stopping the processes may raise, and otherwise the refusal follows.
      stopped-IsRefused :
          (w : World)
          → w.status_cache ≡ none
          → IsRefused w (run_phases (stop_processes o r ∷ stop_hook o r ∷ from_gate_b) w)
      stopped-IsRefused w e = go (stop_processes o r w).0 (stop_processes o r w).1 refl (
          stop_processes-keeps (IsLike w) o r (IsLike-IsQuiet o w) w (refl, refl, refl, refl, refl))
        where
          go :
              (x : Result TeardownError (Unit {0})) (w₁ : World)
              → stop_processes o r w ≡ (x, w₁)
              → IsLike w w₁
              → IsRefused w (run_phases (stop_processes o r ∷ stop_hook o r ∷ from_gate_b) w)
          go (ok _) w₁ eq like =
              subst (IsRefused w)
                (sym (run_phases-eq-ok (stop_processes o r) (stop_hook o r ∷ from_gate_b) w w₁ eq))
                (from_stop_hook-IsRefused w w₁ e like)
          go (err x) w₁ eq (c, _, _, n, p) =
              subst (IsRefused w)
                (sym
                  (run_phases-eq-err (stop_processes o r) (stop_hook o r ∷ from_gate_b) w w₁ x eq))
                ((x, refl), inl c, n, p)

-- Without `force`, where git reports dirt that is not exempt whenever it is asked, the checkout is
-- not taken for absent and no probe is memoised yet, a removal raises, whatever the outside does:
-- the checkout is where it was or whole under the staged name, no `teardown:` step has run, and
-- ports.yaml is as it was.
pub run_teardown-IsRefused :
    (o : Outside) (r : Request) (w : World)
    → r.force ≡ false
    → r.target_absent ≡ false
    → w.status_cache ≡ none
    → IsDirty o
    → IsRefused w (run_teardown o r w)
unfolding run_teardown teardown_phases from_gate_b
run_teardown-IsRefused o r w lenient here fresh dirty_at =
    let rest = stop_processes o r ∷ stop_hook o r ∷ from_gate_b o r lenient dirty_at in
    elim (guard_primary-cases o r w) [
      | inl e ↦
          subst (IsRefused w) (sym (run_phases-eq-ok (guard_primary o r) rest w w e))
            (stopped-IsRefused o r lenient dirty_at here w fresh)
      | inr e ↦
          subst (IsRefused w)
            (sym (run_phases-eq-err (guard_primary o r) rest w w primary_checkout e))
            ((primary_checkout, refl), inl refl, refl, refl)
    ]
