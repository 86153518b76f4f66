-- ===== src/Manager/Started.antt =====
-- How a call of `start` that returns ends.
use lib_python_worktree.Prelude.{
  ℕ, String, ◌≡◌, inl, inr, refl, ap, ◌∙◌, true, Option, none, some, List, [], ◌∷◌, arith, eq_refl,
  Bool-cases,
}
use lib_python_worktree.Prelude.Results.{Result, ok, err}
use lib_python_worktree.Prelude.Dict.{Dict, lookup, has_key, lookup-insert}
use lib_python_worktree.Contract.{Step}
use lib_python_worktree.Store.{WorktreeRecord, Records, StoreError, list, get}
use lib_python_worktree.Store
use lib_python_worktree.Variants.{VariantError, choose_step}
use lib_python_worktree.Runner.{CommandError}
use lib_python_worktree.Lifecycle
use lib_python_worktree.Manager.Removals.{Stored}
use lib_python_worktree.Manager.Sessions.{
  Outside, StartRequest, name_or, with_variants, ended, start_process, start_built, start_chosen,
  command, start_steps,
}
use lib_python_worktree.Manager.Served.{Tracked, SameTree, update_record-eq-ok}

-- A process has been recorded for the role, with the variant of the step that is chosen.
abbrev pub Runs : StartRequest → List Step → WorktreeRecord → Type 0
Runs r steps rec =
    (step : Step) × ((choose_step r.variant steps ≡ ok step)
      × (has_key r.role rec.pids ≡ true)
      × (lookup r.role rec.variants ≡ some (name_or r.variant step.name)))

-- Without a step the worktree is ready, else a process runs.
abbrev pub Ready : StartRequest → List Step → WorktreeRecord → Type 0
Ready r [] rec = rec.status ≡ "ready"
Ready r (step ∷ steps) rec = Runs r (step ∷ steps) rec

-- The record that a start of a process returns is the one that was stored, but for what it has
-- started.
abbrev Launches : (role variant id : String) → Records → WorktreeRecord → Type 0
Launches role variant id rs rec =
    (old : WorktreeRecord) × ((lookup id rs ≡ some old)
      × (rec.ports ≡ old.ports)
      × SameTree rec old
      × (has_key role rec.pids ≡ true)
      × (lookup role rec.variants ≡ some variant))

module _ (o : Lifecycle.Outside) (role variant id : String) where
  start_spawned-Launches :
      (found : Option Lifecycle.Spawned) (old : WorktreeRecord) (rs : Records)
      {rec : WorktreeRecord} {rs' : Records}
      → lookup id rs ≡ some old
      → Lifecycle.start_spawned o role (some variant) id found old rs ≡ (ok rec, rs')
      → Launches role variant id rs rec
  unfolding Lifecycle.start_spawned Lifecycle.started Lifecycle.set_or_pop Lifecycle.saved has_key
  start_spawned-Launches none old rs e h = absurd (cc h)
  start_spawned-Launches (some p) old rs {rec} {rs'} e h =
      let same = saved_as _ _ h in
      rw same (
        old,
        (
          e,
          refl,
          (refl, refl),
          ground (arith, lookup-insert role role p.pid old.pids, eq_refl role),
          lookup-insert role role variant old.variants ∙ rw (eq_refl role) refl,
        ),
      )
    where
      saved_as :
          (new : WorktreeRecord) (x : Result StoreError (Unit {0}) × Records)
          → Lifecycle.saved new x ≡ (ok rec, rs')
          → rec ≡ new
      saved_as new (ok _, rs'') q = cc (ap (λ p. p.0) q)
      saved_as new (err f, rs'') q = absurd (cc q)

  start-Launches :
      (cmd : List String) (rs : Records) {rec : WorktreeRecord} {rs' : Records}
      → Lifecycle.start o role (some variant) id cmd rs ≡ (ok rec, rs')
      → Launches role variant id rs rec
  unfolding Lifecycle.start Lifecycle.start_tracked Store.get
  start-Launches [] rs h = absurd (cc h)
  start-Launches (exe ∷ args) rs {rec} {rs'} h = tracked (lookup id rs) refl h
    where
      tracked :
          (found : Option WorktreeRecord)
          → lookup id rs ≡ found
          → Lifecycle.start_tracked o role (some variant) id (exe ∷ args) found rs ≡ (ok rec, rs')
          → Launches role variant id rs rec
      tracked none e q = absurd (cc q)
      tracked (some old) e q =
          elim (Bool-cases (Lifecycle.is_running o role (some variant) id old)) [
            | inl running ↦ absurd (cc (rw running at q))
            | inr idle ↦ start_spawned-Launches _ old rs e (rw idle at q)
          ]

-- What the last part of a start leaves, of the record before it.
abbrev Ended : StartRequest → List Step → WorktreeRecord → WorktreeRecord → Type 0
Ended r steps rec rec' = SameTree rec' rec × (rec'.ports ≡ rec.ports) × Ready r steps rec'

module _ (o : Outside) (r : StartRequest) (rec : WorktreeRecord) (s : Stored)
    (t : Tracked s rec) where
  start_process-Runs :
      (steps : List Step) (step : Step) (cmd : List String) {rec' : WorktreeRecord} {s' : Stored}
      → choose_step r.variant steps ≡ ok step
      → start_process o r steps rec step cmd s ≡ (ok rec', s')
      → SameTree rec' rec × (rec'.ports ≡ rec.ports) × Runs r steps rec'
  unfolding start_process with_variants ended
  start_process-Runs steps step cmd {rec'} chosen h =
      let (launched, same, started) = ended_as _ _ _ h in
      let (old, (found, ports, (id, root), pid, variant)) =
        start-Launches o.process r.role (name_or r.variant step.name) rec.id cmd s.records
          started in
      let kept : rec ≡ old = cc in
      rw (same, kept) ((id, root), ports, (step, (chosen, pid, variant)))
    where
      ended_as :
          (names : List String) (allocated : Dict ℕ)
          (x : Result Lifecycle.StartError WorktreeRecord × Records) {s' : Stored}
          → ended names allocated x ≡ (ok rec', s')
          → (launched : WorktreeRecord) × (rec' ≡ with_variants names launched)
            × (x ≡ (ok launched, x.1))
      ended_as names allocated (ok launched, rs) q = (launched, cc (ap (λ p. p.0) q), refl)
      ended_as names allocated (err e, rs) q = absurd (cc q)

  start_chosen-Runs :
      (steps : List Step) {rec' : WorktreeRecord} {s' : Stored}
      → start_chosen o r steps rec s (choose_step r.variant steps) ≡ (ok rec', s')
      → SameTree rec' rec × (rec'.ports ≡ rec.ports) × Runs r steps rec'
  unfolding start_chosen start_built
  start_chosen-Runs steps {rec'} {s'} h = chosen _ refl h
    where
      built :
          (step : Step) (cmd : Result CommandError (List String))
          → choose_step r.variant steps ≡ ok step
          → start_built o r steps rec step s cmd ≡ (ok rec', s')
          → SameTree rec' rec × (rec'.ports ≡ rec.ports) × Runs r steps rec'
      built step (ok cmd) e q = start_process-Runs steps step cmd e q
      built step (err f) e q = absurd (cc q)

      chosen :
          (choice : Result VariantError Step)
          → choose_step r.variant steps ≡ choice
          → start_chosen o r steps rec s choice ≡ (ok rec', s')
          → SameTree rec' rec × (rec'.ports ≡ rec.ports) × Runs r steps rec'
      chosen (ok step) e q = built step (command o step) e q
      chosen (err f) e q = absurd (cc q)

  pub start_steps-Ended :
      (steps : List Step) {rec' : WorktreeRecord} {s' : Stored}
      → start_steps o r steps rec s ≡ (ok rec', s')
      → Ended r steps rec rec'
  unfolding start_steps
  start_steps-Ended [] h =
      let (same, _) = update_record-eq-ok _ _ h in rw same ((refl, refl), refl, refl)
  start_steps-Ended (step ∷ steps) h = start_chosen-Runs (step ∷ steps) h
