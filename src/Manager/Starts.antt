-- ===== src/Manager/Starts.antt =====
-- What `WorktreeManager.start` promises where it returns.
use lib_python_worktree.Prelude.{
  ℕ, String, ◌≡◌, inl, inr, refl, sym, ap, ◌∙◌, subst, true, false, Option, none, some, [], ◌∷◌,
  ◌&&◌, not, str_eq, arith, eq_iff, eq_refl, Bool-cases,
}
use lib_python_worktree.Prelude.Results.{Result, ok, err}
use lib_python_worktree.Prelude.Dict.{Dict, lookup, keys, lookup-insert}
use lib_python_worktree.Prelude.Lists.{has, Any}
use lib_python_worktree.Contract.{WorktreeContract, slot_names}
use lib_python_worktree.Store.{WorktreeRecord, Records, list, get}
use lib_python_worktree.Manager.Targets
use lib_python_worktree.Manager.Removals.{Stored}
use lib_python_worktree.Manager.Sessions.{
  Outside, StartRequest, start_under, start_loaded, start_resolved, start_target, start,
}
use lib_python_worktree.Manager.Serving.{Serves}
use lib_python_worktree.Manager.Served.{
  Tracked, IsSound, and_then-eq-ok, prune_undeclared-Tracked, allocate_needed-Serves,
}
use lib_python_worktree.Manager.Started.{Ready, start_steps-Ended}
use lib_python_worktree.Manager.Resolved.{Ends, resolve_target-Ends}

-- The records stand at their ids, and no id stands twice.
abbrev pub AllKeyed : Records → Type 0
AllKeyed [] = Unit
AllKeyed ((k, rec) ∷ rs) = (rec.id ≡ k) × (has k (keys rs) ≡ false) × AllKeyed rs

pub AllKeyed-at :
    (rs : Records)
    → AllKeyed rs
    → (k : String) (rec : WorktreeRecord) → get k rs ≡ some rec
    → rec.id ≡ k
unfolding get lookup
AllKeyed-at [] all k rec h = absurd (cc h)
AllKeyed-at ((j, r) ∷ rs) (here, _, all) k rec h = elim (Bool-cases (str_eq j k)) [
  | inl e ↦
      let same : r ≡ rec = cc (rw e at h) in
      sym (ap (λ (r : WorktreeRecord). r.id) same) ∙ here ∙ (eq_iff j k).0 e
  | inr e ↦ AllKeyed-at rs all k rec (rw e at h)
]

has_id :
    (rs : Records) (rec : WorktreeRecord)
    → AllKeyed rs
    → Any (λ r. r ≡ rec) (list rs)
    → has rec.id (keys rs) ≡ true
unfolding has list
has_id [] rec all m = absurd m
has_id ((k, r) ∷ rs) rec (here, fresh, all) (inl e) =
    let same : rec.id ≡ k = sym (ap (λ (r : WorktreeRecord). r.id) e) ∙ here in
    rw same (ground (arith, eq_refl k))
has_id ((k, r) ∷ rs) rec (here, fresh, all) (inr m) = ground (arith, has_id rs rec all m)

-- A record of the store is found at its id.
lookup-id :
    (rs : Records) (rec : WorktreeRecord)
    → AllKeyed rs
    → Any (λ r. r ≡ rec) (list rs)
    → lookup rec.id rs ≡ some rec
unfolding lookup list
lookup-id [] rec all m = absurd m
lookup-id ((k, r) ∷ rs) rec (here, fresh, all) (inl e) =
    let same : k ≡ rec.id = sym here ∙ ap (λ (r : WorktreeRecord). r.id) e in
    rw (same, eq_refl rec.id, e) refl
lookup-id ((k, r) ∷ rs) rec (here, fresh, all) (inr m) =
    let there = has_id rs rec all m in
    let apart : str_eq k rec.id ≡ false = elim (Bool-cases (str_eq k rec.id)) [
      | inr e ↦ e
      | inl e ↦ absurd (cc (rw ((eq_iff k rec.id).0 e) at fresh, there))
    ] in
    rw apart (lookup-id rs rec all m)

-- What holds of a record that `start` returns.
abbrev pub Starts : Outside → StartRequest → WorktreeRecord → Type 0
Starts o r rec =
    (c : WorktreeContract) × ((o.contract rec.repo_root ≡ some c)
      × Serves c.ports rec.ports
      × Ready r c.start rec)

module _ (o : Outside) (sound : IsSound o) (r : StartRequest) where
  start_under-Starts :
      (c : WorktreeContract) (rec : WorktreeRecord) (s : Stored) {rec' : WorktreeRecord}
      {s' : Stored}
      → o.contract rec.repo_root ≡ some c
      → Tracked s rec
      → start_under o r c rec s ≡ (ok rec', s')
      → Starts o r rec'
  unfolding start_under slot_names
  start_under-Starts c rec s {rec'} loaded t h =
      let (rec₂, s₂, (ported, last)) = and_then-eq-ok _ _ h in
      let (rec₁, s₁, (pruned, allocated)) = and_then-eq-ok _ _ ported in
      let ((_, root₁), t₁) = prune_undeclared-Tracked c rec s pruned t in
      let ((_, root₂), t₂, serves) =
        allocate_needed-Serves o sound c rec₁ s₁ ((sound.accepted rec.repo_root c loaded).names)
          allocated t₁ in
      let ((_, root₃), ports, ready) = start_steps-Ended o r rec₂ s₂ t₂ c.start last in
      (
        c,
        (
          ap o.contract (root₃ ∙ root₂ ∙ root₁) ∙ loaded,
          subst (Serves c.ports) (sym ports) serves,
          ready,
        ),
      )

  start_loaded-Starts :
      (rec : WorktreeRecord) (s : Stored) (found : Option WorktreeContract) {rec' : WorktreeRecord}
      {s' : Stored}
      → o.contract rec.repo_root ≡ found
      → Tracked s rec
      → start_loaded o r found rec s ≡ (ok rec', s')
      → Starts o r rec'
  unfolding start_loaded
  start_loaded-Starts rec s none loaded t h = absurd (cc h)
  start_loaded-Starts rec s (some c) loaded t h = start_under-Starts c rec s loaded t h

  start_resolved-Starts :
      (rec : WorktreeRecord) (s : Stored) {rec' : WorktreeRecord} {s' : Stored}
      → Tracked s rec
      → start_resolved o r rec s ≡ (ok rec', s')
      → Starts o r rec'
  unfolding start_resolved
  start_resolved-Starts rec s t h =
      elim (Bool-cases (str_eq rec.status "setup_failed" && not r.allow_setup_failed)) [
        | inl e ↦ absurd (cc (rw e at h))
        | inr e ↦ start_loaded-Starts rec s (o.contract rec.repo_root) refl t (rw e at h)
      ]

  Ends-Tracked :
      (rs rs' : Records) (allocated : Dict ℕ) (rec : WorktreeRecord)
      → AllKeyed rs
      → Ends r.id true rs (ok rec, rs')
      → Tracked (record { records = rs'; allocated = allocated }) rec
  Ends-Tracked rs rs' allocated rec all (_, inl (same, stored)) =
      ap (lookup rec.id) same ∙ lookup-id rs rec all stored
  Ends-Tracked rs rs' allocated rec all (_, inr (_, _, _, new)) =
      ap (lookup rec.id) new ∙ lookup-insert rec.id rec.id rec rs ∙ rw (eq_refl rec.id) refl

  -- If the shuffle keeps the candidates, a contract that is loaded has been accepted and each record
  -- stands once, at its id: where `start` returns a record, the contract of its repository has been
  -- loaded, the record has a port for each slot of it, the slot's pin if it has one, and a process
  -- of the role, with the name of the step that was chosen as its variant; or, without a step, it
  -- is ready.
  pub start-Starts :
      (s s' : Stored) (rec : WorktreeRecord)
      → AllKeyed s.records
      → start o r s ≡ (ok rec, s')
      → Starts o r rec
  unfolding start start_target
  start-Starts s s' rec all h =
      resolved _
        (resolve_target-Ends o.paths o.depth r.id r.checkout_path true s.records
          (record { at = AllKeyed-at s.records all }))
        h
    where
      resolved :
          (target : Result Targets.TargetError WorktreeRecord × Records)
          → Ends r.id true s.records target
          → start_target o r s.allocated target ≡ (ok rec, s')
          → Starts o r rec
      resolved (err e, rs) ends q = absurd (cc q)
      resolved (ok found, rs) ends q =
          start_resolved-Starts found _ (Ends-Tracked s.records rs s.allocated found all ends) q
