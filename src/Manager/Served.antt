-- ===== src/Manager/Served.antt =====
-- What a call of `start` that returns has done.
use lib_python_worktree.Prelude.{
  ℕ, String, ◌≡◌, inl, inr, refl, sym, ap, ◌∙◌, subst, true, some, List, [], ◌∷◌, ◌&&◌, not,
  eq_refl, Bool-cases,
}
use lib_python_worktree.Prelude.Results.{Result, ok, err}
use lib_python_worktree.Prelude.Dict.{Dict, lookup, insert, has_key, lookup-insert}
use lib_python_worktree.Prelude.Lists.{contains, IsDistinct}
use lib_python_worktree.Contract.{WorktreeContract}
use lib_python_worktree.Contract.Laws.{IsWellFormed}
use lib_python_worktree.Store.{WorktreeRecord, Records, StoreError, list, get}
use lib_python_worktree.Store
use lib_python_worktree.Ports.{AllocError, allocate}
use lib_python_worktree.Ports.Outcome.{Ends, allocate-Ends}
use lib_python_worktree.Reconcile.{is_empty}
use lib_python_worktree.Manager.Removals.{Stored}
use lib_python_worktree.Manager.Sessions.{
  Outcome, Outside, and_then, updated, update_record, prune_undeclared, undeclared_slots,
  without_slots, needs_alloc, needed_pins, granted, allocate_needed,
}
use lib_python_worktree.Manager.NeededPorts.{names, allocate-keys}
use lib_python_worktree.Manager.Serving.{Serves, unneeded-Serves, granted-Serves}

-- The store has the record at its id.
abbrev pub Tracked : Stored → WorktreeRecord → Type 0
Tracked s rec = lookup rec.id s.records ≡ some rec

-- Two records are of one worktree.
abbrev pub SameTree : WorktreeRecord → WorktreeRecord → Type 0
SameTree a b = (a.id ≡ b.id) × (a.repo_root ≡ b.repo_root)

pub and_then-eq-ok :
    {A B : Type 0} (m : Outcome A) (rest : A → Stored → Outcome B) {y : B} {s' : Stored}
    → and_then m rest ≡ (ok y, s')
    → (x : A) × (s : Stored) × ((m ≡ (ok x, s)) × (rest x s ≡ (ok y, s')))
unfolding and_then
and_then-eq-ok (ok x, s) rest h = (x, s, (refl, h))
and_then-eq-ok (err e, s) rest h = absurd (cc h)

pub update_record-eq-ok :
    (rec : WorktreeRecord) (s : Stored) {rec' : WorktreeRecord} {s' : Stored}
    → update_record rec s ≡ (ok rec', s')
    → (rec' ≡ rec) × Tracked s' rec'
unfolding update_record updated Store.update
update_record-eq-ok rec s {rec'} {s'} h = elim (Bool-cases (has_key rec.id s.records)) [
  | inr e ↦ absurd (cc (rw e at h))
  | inl e ↦
      let result = rw e at h in
      let same : rec ≡ rec' = cc (ap (λ p. p.0) result) in
      let stored : insert rec.id rec s.records ≡ s'.records =
        ap (λ (p : Outcome WorktreeRecord). (p.1).records) result in
      (
        sym same,
        rw (sym stored, sym same)
            (lookup-insert rec.id rec.id rec s.records ∙ rw (eq_refl rec.id) refl),
      )
]

returned :
    (rec : WorktreeRecord) (s : Stored) {rec' : WorktreeRecord} {s' : Stored}
    → (let x : Outcome WorktreeRecord = (ok rec, s) in x) ≡ (ok rec', s')
    → (rec' ≡ rec) × (s' ≡ s)
returned rec s h = (cc (ap (λ p. p.0) h), sym (ap (λ p. p.1) h))

pub prune_undeclared-Tracked :
    (c : WorktreeContract) (rec : WorktreeRecord) (s : Stored) {rec' : WorktreeRecord} {s' : Stored}
    → prune_undeclared c rec s ≡ (ok rec', s')
    → Tracked s rec
    → SameTree rec' rec × Tracked s' rec'
unfolding prune_undeclared without_slots
prune_undeclared-Tracked c rec s {rec'} {s'} h t =
    elim (Bool-cases (not (is_empty (undeclared_slots c rec)) && is_empty rec.pids)) [
      | inl e ↦
          let (same, tracked) = update_record-eq-ok _ _ (rw e at h) in
          (
            (ap (λ (r : WorktreeRecord). r.id) same, ap (λ (r : WorktreeRecord). r.repo_root) same),
            tracked,
          )
      | inr e ↦
          let (same, stored) = returned rec s (rw e at h) in rw (same, stored) ((refl, refl), t)
    ]

-- What `start` needs of the outside: the shuffle keeps the candidates, and a contract that is loaded
-- has been accepted.
pub record IsSound (o : Outside) : Type 0 where
  pub shuffle_keeps :
      (s : String) (ps : List ℕ) (p : ℕ) → contains p (o.shuffle s ps) ≡ contains p ps
  pub accepted : (root : String) (c : WorktreeContract) → o.contract root ≡ some c → IsWellFormed c

module _ (o : Outside) (sound : IsSound o) where
  granted-Serves_all :
      (c : WorktreeContract) (rec : WorktreeRecord) (s : Stored)
      (granting : Result AllocError (Dict ℕ) × Dict ℕ) {rec' : WorktreeRecord} {s' : Stored}
      → allocate o.in_use o.shuffle o.low o.high
          (needs_alloc rec.ports c.ports)
          rec.id
          (needed_pins (needs_alloc rec.ports c.ports) c.ports [])
          s.allocated
        ≡ granting
      → IsDistinct (names c.ports)
      → granted rec s.records granting ≡ (ok rec', s')
      → SameTree rec' rec × Tracked s' rec' × Serves c.ports rec'.ports
  unfolding granted
  granted-Serves_all c rec s (err e, after) g once h = absurd (cc h)
  granted-Serves_all c rec s (ok d, after) {rec'} g once h =
      let needed = needs_alloc rec.ports c.ports in
      let (same, tracked) = update_record-eq-ok _ _ h in
      let grants =
        subst
          (Ends o.in_use o.shuffle o.low o.high needed rec.id (needed_pins needed c.ports [])
            s.allocated)
          g
          (allocate-Ends o.in_use o.shuffle sound.shuffle_keeps o.low o.high rec.id
            (needed_pins needed c.ports []) s.allocated needed) in
      (
        (ap (λ (r : WorktreeRecord). r.id) same, ap (λ (r : WorktreeRecord). r.repo_root) same),
        tracked,
        subst (Serves c.ports) (sym (ap (λ (r : WorktreeRecord). r.ports) same)) (
            granted-Serves o.in_use o.shuffle o.low o.high rec.id c.ports rec.ports s.allocated d
              after once (allocate-keys o.in_use o.shuffle o.low o.high needed rec.id _ _ d after g)
              grants),
      )

  pub allocate_needed-Serves :
      (c : WorktreeContract) (rec : WorktreeRecord) (s : Stored) {rec' : WorktreeRecord}
      {s' : Stored}
      → IsDistinct (names c.ports)
      → allocate_needed o c rec s ≡ (ok rec', s')
      → Tracked s rec
      → SameTree rec' rec × Tracked s' rec' × Serves c.ports rec'.ports
  unfolding allocate_needed
  allocate_needed-Serves c rec s {rec'} {s'} once h t =
      elim (Bool-cases (is_empty (needs_alloc rec.ports c.ports))) [
        | inr e ↦ granted-Serves_all c rec s _ refl once (rw e at h)
        | inl e ↦
            let (same, stored) = returned rec s (rw e at h) in
            rw (same, stored)
              ((refl, refl), t, unneeded-Serves c.ports rec.ports once (is_empty-nil _ e))
      ]
    where
      is_empty-nil : (xs : List String) → is_empty xs ≡ true → xs ≡ []
      is_empty-nil [] e = refl
      is_empty-nil (x ∷ xs) e = absurd (cc e)
