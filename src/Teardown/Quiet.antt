-- ===== src/Teardown/Quiet.antt =====
-- What the phases keep that touch neither the disk nor the memoised probe.
use lib_python_worktree.Prelude.{
  some, inl, inr, ◌⊎◌, ◌≡◌, refl, ℕ, String, refl, Bool, true, false, Option, List, [], ◌∷◌, ◌||◌,
  inl, inr, Bool-cases, Option-cases, if◌then◌else◌, str_eq,
}
use lib_python_worktree.Prelude.Results.{Result, ok, err}
use lib_python_worktree.Prelude.Dict.{keys, has_key}
use lib_python_worktree.Teardown.Types.{
  StopEnd, saved, swallowed, raised, WorktreeRecord, stop_role, run_stop_steps, git_prune,
  StopHookOutcome, HookStatus, Outside, Request, World, Action, TeardownError, when, ◌>>=◌,
}
use lib_python_worktree.Teardown.Disk.{exists, has_content}
use lib_python_worktree.Teardown.Hooks.{
  has_steps, guard_primary, stop_roles, stop_tracked, stop_record, stop_processes, set_outcome,
  run_stop_hook, stop_hook,
}
use lib_python_worktree.Teardown.Phases.{git_prune_phase, final_guard}
use lib_python_worktree.Teardown.Stable.{IsStable, calling-keeps}

-- The predicate depends neither on the bookkeeping nor on the stopped processes or the outcome
-- of the stop hook.
pub record IsQuiet (o : Outside) (Q : World → Type 0) : Type 0 where
  pub stable : IsStable Q
  pub stopped :
      (r : Request) (w : World) (role : String) (x : WorktreeRecord)
      → w.stored ≡ some x
      → Q w
      → Q (stop_record o r role x w)
  pub outcome :
      (w : World) (x : Option StopHookOutcome)
      → Q w
      → Q (record w { rec = record w.rec { stop_hook_outcome = x } })

module _ (Q : World → Type 0) where
  after-keeps :
      {A B : Type 0} (x : Result TeardownError A) (k : A → Action B) (w : World)
      → Q w
      → ((a : A) → Q (k a w).1)
      → Q (
          let y : Result TeardownError B × World = elim x [ ok a ↦ k a w | err e ↦ (err e, w) ] in
          y.1)
  after-keeps (ok a) k w q h = h a
  after-keeps (err e) k w q h = q

  pub bind-keeps :
      {A B : Type 0} (m : Action A) (k : A → Action B) (w : World)
      → Q (m w).1
      → ((a : A) → Q (k a (m w).1).1)
      → Q ((m >>= k) w).1
  bind-keeps m k w q h = after-keeps (m w).0 k (m w).1 q h

  pub when-keeps :
      (b : Bool) (m : Action (Unit {0})) (w : World) → Q w → Q (m w).1 → Q (when b m w).1
  when-keeps true m w q h = h
  when-keeps false m w q h = q

  pub if-keeps : (b : Bool) (x y : World) → Q x → Q y → Q (if b then x else y)
  if-keeps true x y qx qy = qx
  if-keeps false x y qx qy = qy

  pub choose-keeps :
      {A : Type 0} (b : Bool) (m n : Action A) (w : World)
      → Q (m w).1
      → Q (n w).1
      → Q ((if b then m else n) w).1
  choose-keeps true m n w qm qn = qm
  choose-keeps false m n w qm qn = qn

  pub pair-keeps :
      {A : Type 0} (b : Bool) (x y : Result TeardownError A × World)
      → Q x.1
      → Q y.1
      → Q (if b then x else y).1
  pair-keeps true x y qx qy = qx
  pair-keeps false x y qx qy = qy

StopEnd-cases : (e : StopEnd) → (e ≡ saved) ⊎ ((e ≡ swallowed) ⊎ (e ≡ raised))
StopEnd-cases saved = inl refl
StopEnd-cases swallowed = inr (inl refl)
StopEnd-cases raised = inr (inr refl)

module _ (Q : World → Type 0) (o : Outside) (r : Request) (f : IsQuiet o Q) where
  pub guard_primary-keeps : (w : World) → Q w → Q (guard_primary o r w).1
  unfolding guard_primary
  guard_primary-keeps w q =
      elim (Bool-cases (str_eq w.rec.backing "primary" || o.path_is_repo_root)) [
        | inl e ↦ rw e q
        | inr e ↦ rw e q
      ]

  stop_tracked-keeps : (role : String) (w : World) → Q w → Q (stop_tracked o r role w).1
  unfolding stop_tracked
  stop_tracked-keeps role w q =
      let called = calling-keeps Q f.stable o (stop_role role) w refl q in
      elim (Option-cases w.stored) [
        | inl e ↦ rw (e, stop_tracked) q
        | inr (x, e) ↦ elim (Bool-cases (has_key role x.pids)) [
          | inr h ↦ rw (e, stop_tracked, h) q
          | inl h ↦ elim (StopEnd-cases (o.stop_ends w.now)) [
            | inl s ↦
                rw (e, stop_tracked, h, s)
                  (calling-keeps Q f.stable o (stop_role role) (stop_record o r role x w) refl
                    (f.stopped r w role x e q))
            | inr (inl s) ↦ rw (e, stop_tracked, h, s) called
            | inr (inr s) ↦ rw (e, stop_tracked, h, s) called
          ]
        ]
      ]

  stop_roles-keeps : (roles : List String) (w : World) → Q w → Q (stop_roles o r roles w).1
  unfolding stop_roles
  stop_roles-keeps [] w q = q
  stop_roles-keeps (role ∷ roles) w q =
      bind-keeps Q (stop_tracked o r role) (λ _. stop_roles o r roles) w
        (stop_tracked-keeps role w q)
        (λ _. stop_roles-keeps roles (stop_tracked o r role w).1 (stop_tracked-keeps role w q))

  pub stop_processes-keeps : (w : World) → Q w → Q (stop_processes o r w).1
  unfolding stop_processes
  stop_processes-keeps w q = stop_roles-keeps (keys w.rec.pids) w q

  set_outcome-keeps : (x : HookStatus) (n : ℕ) (w : World) → Q w → Q (set_outcome o r x n w)
  unfolding set_outcome
  set_outcome-keeps x n w q = f.outcome w _ q

  run_stop_hook-keeps : (w : World) → Q w → Q (run_stop_hook o r w)
  unfolding run_stop_hook
  run_stop_hook-keeps w q =
      let q' = calling-keeps Q f.stable o run_stop_steps w refl q in
      elim (Option-cases (o.stop_steps w.now)) [
        | inl e ↦ rw (e, run_stop_hook) (f.outcome _ _ q')
        | inr (n, e) ↦ rw (e, run_stop_hook) (f.outcome _ _ q')
      ]

  pub stop_hook-keeps : (w : World) → Q w → Q (stop_hook o r w).1
  unfolding stop_hook
  stop_hook-keeps w q = elim (Option-cases r.contract) [
    | inl e ↦ rw (e, stop_hook) (f.outcome w _ q)
    | inr (c, e) ↦
        rw (e, stop_hook)
          (if-keeps Q (has_steps c.stop) _ _ (run_stop_hook-keeps w q) (f.outcome w _ q))
  ]

  pub git_prune-keeps : (w : World) → Q w → Q (git_prune_phase o r w).1
  unfolding git_prune_phase
  git_prune-keeps w q = calling-keeps Q f.stable o git_prune w refl q

  pub final_guard-keeps : (w : World) → Q w → Q (final_guard o r w).1
  unfolding final_guard
  final_guard-keeps w q = elim (Bool-cases (has_content w.staged || exists w.checkout)) [
    | inl e ↦ rw e q
    | inr e ↦ rw e q
  ]
