-- ===== src/Reconcile/Steps.antt =====
-- What sweeping the dead roles of a record does to it.
use lib_python_worktree.Prelude.{
  ℕ, String, ◌≡◌, ◌⊎◌, inl, inr, refl, sym, ap, ◌∙◌, false, ◌||◌, Option, none, List, [], ◌∷◌,
  arith, eq_iff, str_eq, Bool-cases,
}
use lib_python_worktree.Prelude.Dict.{Dict, without, without_twice, without-cong, without_none}
use lib_python_worktree.Prelude.Lists.{has}
use lib_python_worktree.Store.{StopDetail, WorktreeRecord}
use lib_python_worktree.Reconcile.{Outside, mark_stopped, sweep_role, sweep_roles}

str_eq_comm : (s t : String) → str_eq s t ≡ str_eq t s
str_eq_comm s t = ground (arith, eq_iff s t, eq_iff t s)

has_nil : (k : String) → has k [] ≡ false
unfolding has
has_nil k = refl

without-nothing : {V : Type 0} (d : Dict V) → without (λ k. has k []) d ≡ d
without-nothing d = without_none (λ k. has k []) d (λ k _. has_nil k)

module _ (o : Outside) where
  mark_stopped-status :
      (r : WorktreeRecord)
      → (mark_stopped o r ≡ r)
        ⊎ (mark_stopped o r ≡ record r { status = "stopped"; stop_detail = none })
  unfolding mark_stopped
  mark_stopped-status r =
      elim (Bool-cases (str_eq r.status "orphaned" || str_eq r.status "stop_incomplete")) [
        | inl e ↦ rw e (inl refl)
        | inr e ↦ rw e (inr refl)
      ]

  mark_stopped-kept :
      {A : Type 0} (f : WorktreeRecord → A)
      → ((r : WorktreeRecord) (x : String) (d : Option StopDetail)
          → f (record r { status = x; stop_detail = d }) ≡ f r)
      → (r : WorktreeRecord) → f (mark_stopped o r) ≡ f r
  mark_stopped-kept f h r = elim (mark_stopped-status r) [
    | inl e ↦ ap f e
    | inr e ↦ ap f e ∙ h r "stopped" none
  ]

  -- Sweeping keeps every field that it does not name.
  pub sweep_roles-kept :
      {A : Type 0} (f : WorktreeRecord → A)
      → ((r : WorktreeRecord) (x : String) (d : Option StopDetail)
          → f (record r { status = x; stop_detail = d }) ≡ f r)
      → ((r : WorktreeRecord) (p s : Dict ℕ) (v : Dict String)
          → f (record r { pids = p; start_times = s; variants = v }) ≡ f r)
      → (roles : List String) (r : WorktreeRecord) → f (sweep_roles o roles r) ≡ f r
  unfolding sweep_roles sweep_role
  sweep_roles-kept f h g [] r = refl
  sweep_roles-kept f h g (role ∷ roles) r =
      sweep_roles-kept f h g roles (sweep_role o role r) ∙ mark_stopped-kept f h _ ∙ g r _ _ _

  -- An entry by role loses exactly the swept roles.
  pub sweep_roles-without :
      {V : Type 0} (f : WorktreeRecord → Dict V)
      → ((r : WorktreeRecord) (x : String) (d : Option StopDetail)
          → f (record r { status = x; stop_detail = d }) ≡ f r)
      → ((r : WorktreeRecord) (role : String)
          → f (record r {
            pids = without (str_eq role) r.pids;
            variants = without (str_eq role) r.variants;
            start_times = without (str_eq role) r.start_times;
          })
            ≡ without (str_eq role) (f r))
      → (roles : List String) (r : WorktreeRecord)
      → f (sweep_roles o roles r) ≡ without (λ k. has k roles) (f r)
  unfolding sweep_roles sweep_role has
  sweep_roles-without f h g [] r = sym (without-nothing (f r))
  sweep_roles-without f h g (role ∷ roles) r =
      sweep_roles-without f h g roles (sweep_role o role r)
      ∙ ap (without (λ k. has k roles)) (mark_stopped-kept f h _ ∙ g r role)
      ∙ without_twice (λ k. has k roles) (str_eq role) (f r)
      ∙ without-cong _ _ (λ k. ap (λ b. b || has k roles) (str_eq_comm role k)) (f r)

  pub sweep_roles-pids :
      (roles : List String) (r : WorktreeRecord)
      → (sweep_roles o roles r).pids ≡ without (λ k. has k roles) r.pids
  sweep_roles-pids = sweep_roles-without (λ r. r.pids) (λ r x d. refl) (λ r role. refl)

  pub sweep_roles-start_times :
      (roles : List String) (r : WorktreeRecord)
      → (sweep_roles o roles r).start_times ≡ without (λ k. has k roles) r.start_times
  sweep_roles-start_times =
      sweep_roles-without (λ r. r.start_times) (λ r x d. refl) (λ r role. refl)

  pub sweep_roles-variants :
      (roles : List String) (r : WorktreeRecord)
      → (sweep_roles o roles r).variants ≡ without (λ k. has k roles) r.variants
  sweep_roles-variants = sweep_roles-without (λ r. r.variants) (λ r x d. refl) (λ r role. refl)

  -- An orphaned record stays orphaned.
  pub sweep_roles-orphaned :
      (roles : List String) (r : WorktreeRecord)
      → r.status ≡ "orphaned"
      → (sweep_roles o roles r).status ≡ "orphaned"
  unfolding sweep_roles sweep_role mark_stopped
  sweep_roles-orphaned [] r e = e
  sweep_roles-orphaned (role ∷ roles) r e =
      sweep_roles-orphaned roles (sweep_role o role r) (rw e refl)
