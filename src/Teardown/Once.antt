-- ===== src/Teardown/Once.antt =====
-- How often a removal, and a chain of removals, runs the `teardown:` steps.
use lib_python_worktree.Prelude.{
  ℕ, suc, ◌≡◌, refl, sym, subst, ap, ◌∙◌, Bool, true, false, ◌&&◌, not, Option, none, some,
  Option-cases, List, [], ◌∷◌, arith, inl, inr, ◌⊎◌, Bool-cases, String,
}
use lib_python_worktree.Prelude.Results.{Result, ok, err}
use lib_python_worktree.Teardown.Types.{
  TeardownError, Outside, Request, World, WorktreeRecord, run_teardown_steps,
}
use lib_python_worktree.Teardown.Disk.{calling}
use lib_python_worktree.Teardown.Hooks.{
  stopped, stop_record, teardown_hook, teardown_steps_of, has_steps, run_teardown_hook, save_record,
  mark_teardown_ran, invalidate_dirt,
}
use lib_python_worktree.Teardown.Phases.{release_ports, run_phases, run_teardown}
use lib_python_worktree.Teardown.Quiet.{bind-keeps, final_guard-keeps}
use lib_python_worktree.Teardown.Frame.{IsFrame}
use lib_python_worktree.Teardown.Kept.{runs_of}
use lib_python_worktree.Teardown.Engine.{
  run_phases-keeps, first_phases, last_phases, run_teardown-split, first_phases-AllKeep,
}

-- The record says that the steps have run, and so does its copy in the store, if there is one.
abbrev pub StoredMark : Option WorktreeRecord → Type 0
StoredMark none = Unit
StoredMark (some x) = x.teardown_ran ≡ true

abbrev pub IsMarked : World → Type 0
IsMarked w = (w.rec.teardown_ran ≡ true) × StoredMark w.stored

-- `n` runs, or one more after which the record says so.
abbrev pub RunsOnce : ℕ → World → Type 0
RunsOnce n w = (runs_of w.calls ≡ n) ⊎ ((runs_of w.calls ≡ suc n) × IsMarked w)

-- The target is tracked.
abbrev pub IsStored : World → Type 0
IsStored w = elim w.stored as (λ _. Type 0) [ none ↦ ⊥ | some _ ↦ Unit ]

abbrev Keeps : ℕ → World → Type 0
Keeps n w = IsStored w × RunsOnce n w

-- Stopping the processes of a record leaves its mark alone.
abbrev pub KeepsMark : Outside → Type 0
KeepsMark o =
    (role : String) (rec : WorktreeRecord) → (o.after_stop role rec).teardown_ran ≡ rec.teardown_ran

stop_record-IsMarked :
    (o : Outside)
    → KeepsMark o
    → (r : Request) (w : World) (role : String) (x : WorktreeRecord) → w.stored ≡ some x
    → IsMarked w
    → IsMarked (stop_record o r role x w)
unfolding stop_record stopped
stop_record-IsMarked o mark r w role x e (m, stored) =
    let copy : x.teardown_ran ≡ true = subst StoredMark e stored in
    let stopped_mark = mark role x ∙ copy in
    elim (Bool-cases o.shares_records) [
      | inl c ↦ rw c (stopped_mark, stopped_mark)
      | inr c ↦ rw c (m, stopped_mark)
    ]

Keeps-IsFrame : (o : Outside) (n : ℕ) → KeepsMark o → IsFrame o (Keeps n)
unfolding runs_of stop_record
Keeps-IsFrame o n mark = record {
  quiet = record {
    stable = record { book = λ w m k d b ks q. q; asked = λ w m c e q. rw e q };
    stopped = λ r w role x e q. (
      tt,
      elim q.1 [
        | inl runs ↦ inl runs
        | inr (runs, m) ↦ inr (runs, stop_record-IsMarked o mark r w role x e m)
      ],
    );
    outcome = λ w x q. q;
  };
  disk = λ w c s q. q;
  cached = λ w x q. q;
}

save_record-calls :
    (o : Outside) (r : Request) (w : World)
    → ((save_record o r w).calls ≡ w.calls) × ((save_record o r w).rec ≡ w.rec)
unfolding save_record
save_record-calls o r w = ground arith

save_record-IsStored :
    (o : Outside) (r : Request) (w : World) → IsStored w → IsStored (save_record o r w)
unfolding save_record
save_record-IsStored o r w h = elim (Option-cases w.stored) [
  | inl e ↦ absurd (rw e at h)
  | inr (x, e) ↦ elim (Bool-cases (o.writes_state w.now)) [
    | inl t ↦ rw (e, save_record, t) tt
    | inr t ↦ rw (e, save_record, t) h
  ]
]

ran_before : (a b : Bool) → b ≡ true → a && not b ≡ false
ran_before a b e = ground arith

save_record-IsMarked :
    (o : Outside) (r : Request) (w : World)
    → ((t : ℕ) → o.writes_state t ≡ true)
    → w.rec.teardown_ran ≡ true
    → IsMarked (save_record o r w)
unfolding save_record
save_record-IsMarked o r w writes m = elim (Option-cases w.stored) [
  | inl e ↦ rw (e, save_record) (m, subst StoredMark (sym e) tt)
  | inr (x, e) ↦ rw (e, save_record, writes w.now) (m, m)
]

module _ (o : Outside) (r : Request) (returns : (t : ℕ) → o.teardown_steps t ≡ true)
    (writes : (t : ℕ) → o.writes_state t ≡ true) (n : ℕ) where
  run_teardown_hook-runs :
      (w : World)
      → (runs_of (run_teardown_hook o r w).calls ≡ suc (runs_of w.calls))
        × IsMarked (run_teardown_hook o r w)
  unfolding run_teardown_hook mark_teardown_ran invalidate_dirt runs_of calling
  run_teardown_hook-runs w =
      let marked = mark_teardown_ran o r (calling o run_teardown_steps w) in
      rw (returns w.now)
        (ap runs_of ((save_record-calls o r marked).0), save_record-IsMarked o r marked writes refl)

  run_teardown_hook-IsStored : (w : World) → IsStored w → IsStored (run_teardown_hook o r w)
  unfolding run_teardown_hook mark_teardown_ran invalidate_dirt calling
  run_teardown_hook-IsStored w h =
      rw (returns w.now)
        (save_record-IsStored o r (mark_teardown_ran o r (calling o run_teardown_steps w)) h)

  teardown_hook-Keeps : (w : World) → Keeps n w → Keeps n (teardown_hook o r w).1
  unfolding teardown_hook
  teardown_hook-Keeps w (h, inl e) =
      elim (Bool-cases (has_steps (teardown_steps_of r.contract) && not w.rec.teardown_ran)) [
        | inl s ↦
            let (runs, ran) = run_teardown_hook-runs w in
            rw s (run_teardown_hook-IsStored w h, inr (runs ∙ ap suc e, ran))
        | inr s ↦ rw s (h, inl e)
      ]
  teardown_hook-Keeps w (h, inr (e, m)) =
      rw (ran_before (has_steps (teardown_steps_of r.contract)) w.rec.teardown_ran (m.0))
        (h, inr (e, m))

  run_teardown-Keeps : KeepsMark o → (w : World) → Keeps n w → Keeps n (run_teardown o r w).1
  unfolding last_phases release_ports
  run_teardown-Keeps mark w q =
      let f = Keeps-IsFrame o n mark in
      rw run_teardown-split (
        bind-keeps (Keeps n) (run_phases (first_phases o r)) (λ _. run_phases (last_phases o r)) w
          (first-keeps f w q)
          (λ _. last-keeps f (run_phases (first_phases o r) w).1 (first-keeps f w q)))
    where
      first-keeps :
          IsFrame o (Keeps n)
          → (w : World) → Keeps n w
          → Keeps n (run_phases (first_phases o r) w).1
      first-keeps f w q =
          run_phases-keeps (Keeps n) (first_phases o r)
            (first_phases-AllKeep o r (Keeps n) f teardown_hook-Keeps) w q

      last-keeps :
          IsFrame o (Keeps n) → (w : World) → Keeps n w → Keeps n (run_phases (last_phases o r) w).1
      last-keeps f w q =
          run_phases-keeps (Keeps n) (last_phases o r)
            (final_guard-keeps (Keeps n) o r f.quiet, ((λ w q. q), tt)) w q

-- `_resolve_removal_target`: the record of the store; for a target that is not tracked a record is
-- synthesised, which has no mark.
unfoldable pub load : WorktreeRecord → Option WorktreeRecord → WorktreeRecord
load rec none = record rec { teardown_ran = false }
load rec (some x) = x

-- The context of a further removal.
unfoldable pub new_context : World → World
new_context w = record w {
  rec = load w.rec w.stored;
  kill_attempted = false;
  failure_deadline = none;
  blockers = [];
  status_cache = none;
}

-- A removal that has failed is followed by the next one.
unfoldable pub unless_done : Result TeardownError (Unit {0}) → (done next : World) → World
unless_done (ok _) done next = done
unless_done (err _) done next = next

-- A chain of removals of one worktree, up to the first that returns.
unfoldable pub remove_again : Outside → List Request → World → World
remove_again o [] w = w
remove_again o (r ∷ rs) w =
    let (result, w') = run_teardown o r (new_context w) in
    unless_done result w' (remove_again o rs w')

new_context-Keeps : (n : ℕ) (w : World) → Keeps n w → Keeps n (new_context w)
unfolding new_context load
new_context-Keeps n w (h, inl e) = (h, inl e)
new_context-Keeps n w (h, inr (e, (m, stored))) = elim (Option-cases w.stored) [
  | inl q ↦ absurd (rw q at h)
  | inr (x, q) ↦
      let copy : x.teardown_ran ≡ true = subst StoredMark q stored in
      (h, inr (e, (rw q copy, stored)))
]

-- Where the target is tracked, the `teardown:` steps never raise, the state file can be written, and
-- stopping a role leaves the mark of the record alone, a chain of removals, up to the first that
-- returns, runs the steps at most once, however many of the removals fail and whatever each of them
-- asks for.
pub remove_again-RunsOnce :
    (o : Outside) (rs : List Request) (w : World)
    → IsStored w
    → ((t : ℕ) → o.teardown_steps t ≡ true)
    → ((t : ℕ) → o.writes_state t ≡ true)
    → KeepsMark o
    → RunsOnce (runs_of w.calls) (remove_again o rs w)
unfolding remove_again unless_done
remove_again-RunsOnce o rs w h returns writes mark = go rs w (h, inl refl)
  where
    chosen :
        (x : Result TeardownError (Unit {0})) (done next : World)
        → RunsOnce (runs_of w.calls) done
        → RunsOnce (runs_of w.calls) next
        → RunsOnce (runs_of w.calls) (unless_done x done next)
    chosen (ok _) done next d n = d
    chosen (err _) done next d n = n

    go :
        (rs : List Request) (v : World)
        → Keeps (runs_of w.calls) v
        → RunsOnce (runs_of w.calls) (remove_again o rs v)
    go [] v q = q.1
    go (r ∷ rs) v q =
        let kept =
          run_teardown-Keeps o r returns writes (runs_of w.calls) mark (new_context v)
            (new_context-Keeps (runs_of w.calls) v q) in
        chosen (run_teardown o r (new_context v)).0 _ _ (kept.1) (go rs _ kept)
