-- ===== src/Reconcile/Settled.antt =====
-- What one pass of `reconcile` over a record settles, and what a second pass adds.
use lib_python_worktree.Prelude.{
  ℕ, String, ◌≡◌, ◌⊎◌, inl, inr, refl, sym, ap, ◌∙◌, true, false, Option, none, List, [], ◌∷◌,
  arith, eq_iff, eq_refl, str_eq, Bool-cases,
}
use lib_python_worktree.Prelude.Dict.{Dict, lookup, without, lookup-without}
use lib_python_worktree.Prelude.Lists.{has}
use lib_python_worktree.Store.{StopDetail, WorktreeRecord}
use lib_python_worktree.Reconcile.{
  Outside, is_false, is_mislabelled, heal_backing, prune_ports, mark_orphaned, dead_roles,
  sweep_dead, reconcile_record,
}
use lib_python_worktree.Reconcile.Steps.{
  sweep_roles-kept, sweep_roles-pids, sweep_roles-start_times, sweep_roles-orphaned,
}

-- What the listing of a record may rely on after a pass.
pub record IsReconciled (o : Outside) (r : WorktreeRecord) : Type 0 where
  pub labelled : is_mislabelled o r ≡ false
  pub missing : o.exists r.path ≡ false → r.status ≡ "orphaned"
  pub living : dead_roles o r.start_times r.pids ≡ []

clash : true ≡ false → ⊥
clash e = ground arith

mislabelled_by :
    (o : Outside) (r : WorktreeRecord) (x : String) (d : Option StopDetail)
    → is_mislabelled o (record r { status = x; stop_detail = d }) ≡ is_mislabelled o r
unfolding is_mislabelled
mislabelled_by o r x d = refl

mislabelled_apart :
    (o : Outside) (r : WorktreeRecord) (p s : Dict ℕ) (v : Dict String)
    → is_mislabelled o (record r { pids = p; start_times = s; variants = v }) ≡ is_mislabelled o r
unfolding is_mislabelled
mislabelled_apart o r p s v = refl

module _ (o : Outside) where
  pruned_label : (r : WorktreeRecord) → is_mislabelled o (prune_ports o r) ≡ is_mislabelled o r
  unfolding is_mislabelled prune_ports
  pruned_label r = refl

  heal_backing-labelled : (r : WorktreeRecord) → is_mislabelled o (heal_backing o r) ≡ false
  unfolding heal_backing is_mislabelled
  heal_backing-labelled r = elim (Bool-cases (is_mislabelled o r)) [
    | inl e ↦ rw e refl
    | inr e ↦ rw e e
  ]

  mark_orphaned-missing :
      (r : WorktreeRecord) → o.exists r.path ≡ false → (mark_orphaned o r).status ≡ "orphaned"
  unfolding mark_orphaned
  mark_orphaned-missing r e = ground (arith, eq_iff r.status "orphaned")

  mark_orphaned-cases :
      (r : WorktreeRecord)
      → (mark_orphaned o r ≡ r)
        ⊎ (mark_orphaned o r ≡ record r { status = "orphaned"; stop_detail = none })
  unfolding mark_orphaned
  mark_orphaned-cases r = elim (Bool-cases (o.exists r.path)) [
    | inl e ↦ rw e (inl refl)
    | inr e ↦ elim (Bool-cases (str_eq r.status "orphaned")) [
      | inl s ↦ rw (e, s) (inl refl)
      | inr s ↦ rw (e, s) (inr refl)
    ]
  ]

  mark_orphaned-kept :
      {A : Type 0} (f : WorktreeRecord → A)
      → ((r : WorktreeRecord) (x : String) (d : Option StopDetail)
          → f (record r { status = x; stop_detail = d }) ≡ f r)
      → (r : WorktreeRecord) → f (mark_orphaned o r) ≡ f r
  mark_orphaned-kept f h r = elim (mark_orphaned-cases r) [
    | inl e ↦ ap f e
    | inr e ↦ ap f e ∙ h r "orphaned" none
  ]

  dead_roles-more :
      (s : Dict ℕ) (role : String) (pid : ℕ) (pids : Dict ℕ) (k : String)
      → has k (dead_roles o s pids) ≡ true
      → has k (dead_roles o s ((role, pid) ∷ pids)) ≡ true
  unfolding dead_roles has
  dead_roles-more s role pid pids k m = ground arith

  dead_roles-head :
      (s : Dict ℕ) (role : String) (pid : ℕ) (pids : Dict ℕ)
      → is_false (o.pid_status pid (lookup role s)) ≡ true
      → has role (dead_roles o s ((role, pid) ∷ pids)) ≡ true
  unfolding dead_roles has
  dead_roles-head s role pid pids e = rw (e, dead_roles, eq_refl) refl

  -- The roles left behind are not dead, whatever start times of swept roles are gone.
  dead_roles-swept :
      (ds : List String) (s s' pids : Dict ℕ)
      → ((k : String) → has k ds ≡ false → lookup k s' ≡ lookup k s)
      → ((k : String) → has k (dead_roles o s pids) ≡ true → has k ds ≡ true)
      → dead_roles o s' (without (λ k. has k ds) pids) ≡ []
  unfolding dead_roles without has
  dead_roles-swept ds s s' [] same all = refl
  dead_roles-swept ds s s' ((role, pid) ∷ pids) same all =
      let rest =
        dead_roles-swept ds s s' pids same (λ k m. all k (dead_roles-more s role pid pids k m)) in
      elim (Bool-cases (has role ds)) [
        | inl gone ↦ rw gone rest
        | inr stays ↦ rw (stays, dead_roles, same role stays, alive stays) rest
      ]
    where
      alive : has role ds ≡ false → is_false (o.pid_status pid (lookup role s)) ≡ false
      alive stays = elim (Bool-cases (is_false (o.pid_status pid (lookup role s)))) [
        | inr e ↦ e
        | inl e ↦ absurd (clash (sym (all role (dead_roles-head s role pid pids e)) ∙ stays))
      ]

  sweep_dead-living :
      (r : WorktreeRecord) → dead_roles o (sweep_dead o r).start_times (sweep_dead o r).pids ≡ []
  unfolding sweep_dead
  sweep_dead-living r =
      let ds = dead_roles o r.start_times r.pids in
      rw (sweep_roles-pids o ds r, sweep_roles-start_times o ds r)
        (dead_roles-swept ds r.start_times (without (λ k. has k ds) r.start_times) r.pids
          (λ k e. ground (arith, lookup-without (λ k. has k ds) k r.start_times)) (λ k m. m))

  -- After a pass, a record is labelled as a primary checkout where it is one, it is orphaned where
  -- its path is gone, and each of its roles has a pid that is not known to be dead.
  pub reconcile_record-IsReconciled : (r : WorktreeRecord) → IsReconciled o (reconcile_record o r)
  unfolding reconcile_record sweep_dead
  reconcile_record-IsReconciled r =
      let healed = heal_backing o r in
      let marked = mark_orphaned o (prune_ports o healed) in
      let ds = dead_roles o marked.start_times marked.pids in
      record {
        labelled =
            sweep_roles-kept o (is_mislabelled o) (mislabelled_by o) (mislabelled_apart o) ds marked
            ∙ mark_orphaned-kept (is_mislabelled o) (mislabelled_by o) (prune_ports o healed)
            ∙ pruned_label healed
            ∙ heal_backing-labelled r;
        missing = λ e.
            let same =
              sweep_roles-kept o (λ r. r.path) (λ r x d. refl) (λ r p s v. refl) ds marked
              ∙ mark_orphaned-kept (λ r. r.path) (λ r x d. refl) (prune_ports o healed) in
            sweep_roles-orphaned o ds marked
              (mark_orphaned-missing (prune_ports o healed) (ap o.exists (sym same) ∙ e));
        living = sweep_dead-living marked;
      }
