-- ===== src/Create/Tracked.antt =====
-- What a call of `create` leaves, whether it returns or raises.
use Prim.Native.String.{◌++◌ as join}
use lib_python_worktree.Prelude.{
  ℕ, String, ◌≡◌, ◌⊎◌, inl, inr, refl, sym, ap, ◌∙◌, subst, Bool, true, false, Option, none, some,
  List, [], ◌∷◌, ◌&&◌, not, if◌then◌else◌, arith, eq_iff, eq_refl, Bool-cases,
}
use lib_python_worktree.Prelude.Results.{Result, ok, err}
use lib_python_worktree.Prelude.Dict.{Dict, lookup, has_key, lookup-without, has_key-insert}
use lib_python_worktree.Prelude.Lists.{has, contains}
use lib_python_worktree.Contract.{WorktreeContract, Step}
use lib_python_worktree.Ports.{release, has_prefix, key_sep}
use lib_python_worktree.Store.{WorktreeRecord, Records, BaseFetchFallback}
use lib_python_worktree.Store
use lib_python_worktree.Runner.{SetupError, SetupStepResult}
use lib_python_worktree.Create.Types.{State, Outside, CreateError, contract_error}
use lib_python_worktree.Create.Bases.{branch_exists}
use lib_python_worktree.Create.Persisting.{remove_text, persist, roll_back}
use lib_python_worktree.Create.Steps.{
  raising, save_and_return, save_and_raise, after_setup, setup_from, run_setup, left_by, create,
}
use lib_python_worktree.Create.Shapes.{
  Fetches, is_cut, with_tree, Shape, refused, left_behind, undone, tracked, create-Shape,
}
use lib_python_worktree.Create.Rollback.{
  remove_text_first, committed-cases, OthersKept, Persisted, failed, made, persist-Persisted,
}

-- What `create` makes is new, nobody else changes the branches meanwhile, and the commands of the
-- rollback work.
pub record IsQuiet (o : Outside) (s : State) : Type 0 where
  pub shuffle : (x : String) (ps : List ℕ) (p : ℕ) → contains p (o.shuffle x ps) ≡ contains p ps
  pub keys : (k : String) → has_prefix (join o.new_id key_sep) k ≡ true → lookup k s.ports ≡ none
  pub tree : has o.target s.trees ≡ false
  pub branches : o.during_fetch s.branches ≡ s.branches
  pub removes_tree : o.removes_tree ≡ true
  pub releases : o.releases ≡ true
  pub deletes_branch : o.deletes_branch ≡ true

-- The worktree is there and tracked.
pub record IsTracked (o : Outside) (t : State) : Type 0 where
  pub id : has_key o.new_id t.records ≡ true
  pub tree : has o.target t.trees ≡ true

-- Everything is as it was; ports.yaml entry by entry.
pub record IsRestored (s t : State) : Type 0 where
  pub records : t.records ≡ s.records
  pub trees : t.trees ≡ s.trees
  pub branches : t.branches ≡ s.branches
  pub ports : (k : String) → lookup k t.ports ≡ lookup k s.ports

-- A `git worktree add` has failed or was cut off, and has left its worktree or its new branch; the
-- rest is as it was.
pub record IsLeft (o : Outside) (name : String) (s t : State) : Type 0 where
  pub args : List String
  pub failed_add : is_cut o (o.add_tree args) ≡ true
  pub records : t.records ≡ s.records
  pub ports : t.ports ≡ s.ports
  pub trees : (t.trees ≡ s.trees) ⊎ (t.trees ≡ o.target ∷ s.trees)
  pub branches :
      (t.branches ≡ s.branches) ⊎ ((has name s.branches ≡ false) × (t.branches ≡ name ∷ s.branches))

update-has_key :
    (k : String) (rec : WorktreeRecord) (rs : Records)
    → has_key k rs ≡ true
    → has_key k (Store.update rec rs).1 ≡ true
unfolding Store.update
update-has_key k rec rs h = ground (arith, has_key-insert rec.id k rec rs)

if_true {ℓ} : {A : Type ℓ} {b : Bool} (x y : A) → b ≡ true → (if b then x else y) ≡ x
if_true x y e = rw e refl

if_false {ℓ} : {A : Type ℓ} {b : Bool} (x y : A) → b ≡ false → (if b then x else y) ≡ y
if_false x y e = rw e refl

module _ (o : Outside) where
  save_and_return-IsTracked :
      (rec : WorktreeRecord) (t : State) → IsTracked o t → IsTracked o (save_and_return o rec t).1
  unfolding save_and_return
  save_and_return-IsTracked rec t h =
      elim (committed-cases o.writes_update rec (Store.update rec t.records) t) [
        | inl (e, q) ↦ subst (λ p. IsTracked o (p.1)) (sym q) h
        | inr (_, q) ↦
            subst (λ p. IsTracked o (p.1)) (sym q)
              (record { id = update-has_key o.new_id rec t.records h.id; tree = h.tree })
      ]

  raising-IsTracked :
      (e : SetupError) (p : Result CreateError WorktreeRecord × State)
      → IsTracked o (p.1)
      → IsTracked o (raising e p).1
  unfolding raising
  raising-IsTracked e (ok rec, t) h = h
  raising-IsTracked e (err x, t) h = h

  after_setup-IsTracked :
      (r : Result SetupError (List SetupStepResult)) (rec : WorktreeRecord) (t : State)
      → IsTracked o t
      → IsTracked o (after_setup o r rec t).1
  unfolding after_setup save_and_raise
  after_setup-IsTracked (ok steps) rec t h = save_and_return-IsTracked _ t h
  after_setup-IsTracked (err e) rec t h = raising-IsTracked e _ (save_and_return-IsTracked _ t h)

  setup_from-IsTracked :
      (steps : List Step) (rec : WorktreeRecord) (t : State)
      → IsTracked o t
      → IsTracked o (setup_from o steps rec t).1
  unfolding setup_from
  setup_from-IsTracked [] rec t h = save_and_return-IsTracked _ t h
  setup_from-IsTracked (s ∷ ss) rec t h = after_setup-IsTracked _ rec t h

  run_setup-IsTracked :
      (rec : WorktreeRecord) (t : State) → IsTracked o t → IsTracked o (run_setup o rec t).1
  unfolding run_setup
  run_setup-IsTracked rec t h = go o.contract_again
    where
      go :
          (c : Option WorktreeContract)
          → IsTracked o (
              let x : Result CreateError WorktreeRecord × State = elim c [
                | none ↦ (err contract_error, t)
                | some c ↦ setup_from o c.setup rec t
              ] in
              x.1)
      go none = h
      go (some c) = setup_from-IsTracked c.setup rec t h

  module _ (s : State) (quiet : IsQuiet o s) where
    Fetches-eq : (t : State) → Fetches o s t → t ≡ s
    Fetches-eq t (inl e) = e
    Fetches-eq t (inr e) = e ∙ ap (λ bs. record s { branches = bs }) quiet.branches

    -- Releasing takes what the new worktree has been granted, and nothing else.
    released :
        (d : Dict ℕ)
        → OthersKept o quiet.shuffle d s.ports
        → (k : String) → lookup k (release o.new_id none d) ≡ lookup k s.ports
    unfolding release
    released d kept k = elim (Bool-cases (has_prefix (join o.new_id key_sep) k)) [
      | inl e ↦
          lookup-without (has_prefix (join o.new_id key_sep)) k d
          ∙ if_true _ _ e
          ∙ sym (quiet.keys k e)
      | inr e ↦ lookup-without (has_prefix (join o.new_id key_sep)) k d ∙ if_false _ _ e ∙ kept k e
    ]

    module _ (repo name : String) (fallback : Option BaseFetchFallback) where
      abbrev exists : Bool
      exists = branch_exists o name s

      branches_back :
          (if not exists && o.deletes_branch
            then remove_text name (with_tree o exists name s).branches
            else (with_tree o exists name s).branches)
          ≡ s.branches
      unfolding branch_exists
      branches_back = go exists refl
        where
          go :
              (b : Bool)
              → exists ≡ b
              → (if not b && o.deletes_branch
                  then remove_text name (with_tree o b name s).branches
                  else (with_tree o b name s).branches)
                ≡ s.branches
          go true e = refl
          go false e = if_true _ _ quiet.deletes_branch ∙ remove_text_first name s.branches e

      roll_back-IsRestored :
          (d : Dict ℕ)
          → OthersKept o quiet.shuffle d s.ports
          → IsRestored s (
              roll_back o repo name exists fallback
                (record (with_tree o exists name s) { ports = d }))
      unfolding roll_back
      roll_back-IsRestored d kept = record {
        records = refl;
        trees = if_true _ _ quiet.removes_tree ∙ remove_text_first o.target s.trees quiet.tree;
        branches = branches_back;
        ports =
            λ k. ap (λ (f : Dict ℕ). lookup k f) (if_true _ _ quiet.releases) ∙ released d kept k;
      }

      undone-IsRestored :
          (e : CreateError) (u : State) (p : Result CreateError WorktreeRecord × State)
          → Persisted o quiet.shuffle (with_tree o exists name s) p
          → p ≡ (err e, u)
          → IsRestored s (roll_back o repo name exists fallback u)
      undone-IsRestored e u p (failed x d kept q) h =
          subst (λ v. IsRestored s (roll_back o repo name exists fallback v))
            (ap (λ y. y.1) (sym q ∙ h)) (roll_back-IsRestored d kept)
      undone-IsRestored e u p (made rec d kept id q) h = absurd (cc)

      made-IsTracked :
          (rec : WorktreeRecord) (u : State) (p : Result CreateError WorktreeRecord × State)
          → Persisted o quiet.shuffle (with_tree o exists name s) p
          → p ≡ (ok rec, u)
          → IsTracked o u
      unfolding has
      made-IsTracked rec u p (failed x d kept q) h = absurd (cc)
      made-IsTracked rec u p (made rec' d kept id q) h =
          subst (IsTracked o) (ap (λ y. y.1) (sym q ∙ h)) (record {
            id =
                ground
                  (arith, has_key-insert rec'.id o.new_id rec' s.records, eq_iff rec'.id o.new_id);
            tree = ground (arith, eq_refl o.target);
          })

  left_by-IsLeft :
      (name : String) (args : List String) (s : State)
      → is_cut o (o.add_tree args) ≡ true
      → IsLeft o name s (left_by o (branch_exists o name s) name (o.add_tree args) s)
  unfolding left_by branch_exists
  left_by-IsLeft name args s cut = record {
    args = args;
    failed_add = cut;
    records = refl;
    ports = refl;
    trees = elim (Bool-cases (o.leaves_tree (o.add_tree args))) [
      | inl e ↦ inr (rw e refl)
      | inr e ↦ inl (rw e refl)
    ];
    branches = elim (Bool-cases (has name s.branches)) [
      | inl h ↦ inl (rw h refl)
      | inr h ↦ elim (Bool-cases (o.leaves_branch (o.add_tree args))) [
        | inl e ↦ inr (h, rw (h, e) refl)
        | inr e ↦ inl (rw (h, e) refl)
      ]
    ];
  }

  -- If the id, the path and the keys of ports.yaml are new, nobody else changes the branches meanwhile
  -- and the commands of the rollback work, then a call of `create`, whether it returns or raises, and
  -- whatever fails, leaves the worktree there and its id tracked; or leaves the records, the
  -- worktrees, the branches and every entry of ports.yaml as they were; or its `git worktree add` has
  -- failed or was cut off: then only the worktree and, if it is new, the branch may be left behind.
  pub create-IsAtomic :
      (branch : String) (base : Option String) (fetch : Bool) (s : State)
      → IsQuiet o s
      → IsTracked o (create o branch base fetch s).1
        ⊎ IsRestored s (create o branch base fetch s).1
        ⊎ IsLeft o (o.strip branch) s (create o branch base fetch s).1
  create-IsAtomic branch base fetch s quiet = go (create-Shape o branch base fetch s)
    where
      same : {t : State} → t ≡ s → IsRestored s t
      same e =
          subst (IsRestored s) (sym e)
            (record { records = refl; trees = refl; branches = refl; ports = λ k. refl })

      go :
          Shape o branch s (create o branch base fetch s)
          → IsTracked o (create o branch base fetch s).1
            ⊎ IsRestored s (create o branch base fetch s).1
            ⊎ IsLeft o (o.strip branch) s (create o branch base fetch s).1
      go (refused e t f q) = inr (inl (same (ap (λ p. p.1) q ∙ Fetches-eq s quiet t f)))
      go (left_behind repo args e t f cut q) = inr (
          inr (
            subst (λ y. IsLeft o (o.strip branch) s (y.1)) (sym q)
              (subst
                (λ v. IsLeft o (o.strip branch) s (
                  left_by o (branch_exists o (o.strip branch) s) (o.strip branch) (o.add_tree args)
                    v))
                (sym (Fetches-eq s quiet t f)) (left_by-IsLeft (o.strip branch) args s cut))))
      go (undone repo fallback e t u f p q) = inr (
          inl (
            subst (λ y. IsRestored s (y.1)) (sym q)
              (undone-IsRestored s quiet repo (o.strip branch) fallback e u _
                (persist-Persisted o quiet.shuffle repo (o.strip branch)
                  (branch_exists o (o.strip branch) s) fallback
                  (with_tree o (branch_exists o (o.strip branch) s) (o.strip branch) s))
                (subst
                  (λ v.
                    persist o repo (o.strip branch) (branch_exists o (o.strip branch) s) fallback
                      (with_tree o (branch_exists o (o.strip branch) s) (o.strip branch) v)
                    ≡ (err e, u))
                  (Fetches-eq s quiet t f) p))))
      go (tracked repo fallback rec t u f p q) = inl (
          subst (λ y. IsTracked o (y.1)) (sym q)
            (run_setup-IsTracked rec u (
              made-IsTracked s quiet repo (o.strip branch) fallback rec u _
                (persist-Persisted o quiet.shuffle repo (o.strip branch)
                  (branch_exists o (o.strip branch) s) fallback
                  (with_tree o (branch_exists o (o.strip branch) s) (o.strip branch) s))
                (subst
                  (λ v.
                    persist o repo (o.strip branch) (branch_exists o (o.strip branch) s) fallback
                      (with_tree o (branch_exists o (o.strip branch) s) (o.strip branch) v)
                    ≡ (ok rec, u))
                  (Fetches-eq s quiet t f) p))))
