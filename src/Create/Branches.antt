-- ===== src/Create/Branches.antt =====
-- What `create` leaves of a branch that was there before.
use lib_python_worktree.Git.{Call}
use lib_python_worktree.Prelude.{
  ℕ, String, ◌≡◌, inl, inr, refl, sym, ap, ◌∙◌, Bool, true, false, Option, none, some, List, [],
  ◌∷◌, str_eq, arith, eq_iff, Bool-cases,
}
use lib_python_worktree.Prelude.Results.{Result, ok, err}
use lib_python_worktree.Prelude.Dict.{Dict}
use lib_python_worktree.Prelude.Lists.{has}
use lib_python_worktree.Contract.{WorktreeContract, Step}
use lib_python_worktree.Store.{WorktreeRecord, Records, StoreError, BaseFetchFallback}
use lib_python_worktree.Runner.{SetupError, SetupStepResult}
use lib_python_worktree.Create.Types.{State, Outside, CreateError, contract_error}
use lib_python_worktree.Create.Bases.{branch_exists}
use lib_python_worktree.Create.Persisting.{
  remove_text, committed, allocate_ports, track, make_record, persist_from, persist, roll_back,
}
use lib_python_worktree.Create.Steps.{
  left_by, raising, save_and_return, save_and_raise, after_setup, setup_from, run_setup, create,
}
use lib_python_worktree.Create.Shapes.{
  Fetches, with_tree, Shape, refused, left_behind, undone, tracked, create-Shape,
}

remove_text_other :
    (b s : String) (xs : List String)
    → has b xs ≡ true
    → str_eq b s ≡ false
    → has b (remove_text s xs) ≡ true
unfolding remove_text has
remove_text_other b s [] h e = h
remove_text_other b s (x ∷ xs) h e =
    ground (arith, remove_text_other b s xs, eq_iff x s, eq_iff b x, eq_iff b s)

committed-branches :
    (writes : Bool) (rec : WorktreeRecord) (p : Result StoreError (Unit {0}) × Records) (s : State)
    → (committed writes rec p s).1.branches ≡ s.branches
unfolding committed
committed-branches writes rec (err e, rs) s = refl
committed-branches true rec (ok _, rs) s = refl
committed-branches false rec (ok _, rs) s = refl

module _ (o : Outside) where
  persist-branches :
      (repo branch : String) (exists : Bool) (fallback : Option BaseFetchFallback) (s : State)
      → (persist o repo branch exists fallback s).1.branches ≡ s.branches
  unfolding persist persist_from allocate_ports track
  persist-branches repo branch exists fallback s = go o.contract
    where
      from :
          (c : WorktreeContract) (r : Result CreateError (Dict ℕ)) (d : Dict ℕ)
          → (let x : Result CreateError WorktreeRecord × State = elim r [
            | err e ↦ (err e, record s { ports = d })
            | ok ports ↦
                track o (make_record o repo branch exists fallback c ports) (record s { ports = d })
          ] in
              x.1.branches)
            ≡ s.branches
      from c (err e) d = refl
      from c (ok ports) d = committed-branches o.writes_add _ _ _

      go :
          (c : Option WorktreeContract)
          → (let x : Result CreateError WorktreeRecord × State = elim c [
            | none ↦ (err contract_error, s)
            | some c ↦ persist_from o repo branch exists fallback c s
          ] in
              x.1.branches)
            ≡ s.branches
      go none = refl
      go (some c) = from c _ _

  save_and_return-branches :
      (rec : WorktreeRecord) (s : State) → (save_and_return o rec s).1.branches ≡ s.branches
  unfolding save_and_return
  save_and_return-branches rec s = committed-branches o.writes_update rec _ s

  raising-branches :
      (e : SetupError) (p : Result CreateError WorktreeRecord × State)
      → (raising e p).1.branches ≡ p.1.branches
  unfolding raising
  raising-branches e (ok rec, s) = refl
  raising-branches e (err x, s) = refl

  after_setup-branches :
      (r : Result SetupError (List SetupStepResult)) (rec : WorktreeRecord) (s : State)
      → (after_setup o r rec s).1.branches ≡ s.branches
  unfolding after_setup save_and_raise
  after_setup-branches (ok steps) rec s = save_and_return-branches _ s
  after_setup-branches (err e) rec s = raising-branches e _ ∙ save_and_return-branches _ s

  setup_from-branches :
      (steps : List Step) (rec : WorktreeRecord) (s : State)
      → (setup_from o steps rec s).1.branches ≡ s.branches
  unfolding setup_from
  setup_from-branches [] rec s = save_and_return-branches _ s
  setup_from-branches (x ∷ xs) rec s = after_setup-branches _ rec s

  run_setup-branches :
      (rec : WorktreeRecord) (s : State) → (run_setup o rec s).1.branches ≡ s.branches
  unfolding run_setup
  run_setup-branches rec s = go o.contract_again
    where
      go :
          (c : Option WorktreeContract)
          → (let x : Result CreateError WorktreeRecord × State = elim c [
            | none ↦ (err contract_error, s)
            | some c ↦ setup_from o c.setup rec s
          ] in
              x.1.branches)
            ≡ s.branches
      go none = refl
      go (some c) = setup_from-branches c.setup rec s

  module _ (name b : String) (s : State) (there : has b s.branches ≡ true) where
    with_tree-keeps :
        (exists : Bool) (t : State)
        → has b t.branches ≡ true
        → has b (with_tree o exists name t).branches ≡ true
    unfolding has
    with_tree-keeps true t h = h
    with_tree-keeps false t h = ground arith

    left_by-keeps :
        (exists : Bool) (c : Call) (t : State)
        → has b t.branches ≡ true
        → has b (left_by o exists name c t).branches ≡ true
    unfolding left_by has
    left_by-keeps exists c t h = ground (arith, h)

    -- Where `name` was there at first, the handler does not delete a branch; else `b` is not `name`.
    roll_back-keeps :
        (repo : String) (fallback : Option BaseFetchFallback) (u : State)
        → has b u.branches ≡ true
        → has b (roll_back o repo name (branch_exists o name s) fallback u).branches ≡ true
    unfolding roll_back branch_exists
    roll_back-keeps repo fallback u h = elim (Bool-cases (has name s.branches)) [
      | inl e ↦ rw e h
      | inr e ↦ elim (Bool-cases o.deletes_branch) [
        | inl d ↦ rw (e, d) (remove_text_other b name u.branches h (ground (arith, eq_iff b name)))
        | inr d ↦ rw (e, d) h
      ]
    ]

  -- If whatever else happens during the fetch keeps a branch that was there before a call of `create`,
  -- the branch is there after the call, whether it returns or raises, whatever git answers and
  -- whichever parts of the rollback work.
  pub create-has :
      (branch : String) (base : Option String) (fetch : Bool) (b : String) (s : State)
      → (has b s.branches ≡ true → has b (o.during_fetch s.branches) ≡ true)
      → has b s.branches ≡ true
      → has b (create o branch base fetch s).1.branches ≡ true
  create-has branch base fetch b s keeps there = go (create-Shape o branch base fetch s)
    where
      fetched : (t : State) → Fetches o s t → has b t.branches ≡ true
      fetched t (inl e) = ap (λ (x : State). has b x.branches) e ∙ there
      fetched t (inr e) = ap (λ (x : State). has b x.branches) e ∙ keeps there

      persisted :
          (repo : String) (fallback : Option BaseFetchFallback)
          (r : Result CreateError WorktreeRecord) (t u : State)
          → Fetches o s t
          → persist o repo
              (o.strip branch)
              (branch_exists o (o.strip branch) s)
              fallback
              (with_tree o (branch_exists o (o.strip branch) s) (o.strip branch) t)
            ≡ (r, u)
          → has b u.branches ≡ true
      persisted repo fallback r t u f p =
          ap (λ y. has b (y.1).branches) (sym p)
          ∙ ap (has b) (
              persist-branches repo (o.strip branch) (branch_exists o (o.strip branch) s) fallback
                _)
          ∙ with_tree-keeps (o.strip branch) b s there (branch_exists o (o.strip branch) s) t
              (fetched t f)

      go :
          Shape o branch s (create o branch base fetch s)
          → has b (create o branch base fetch s).1.branches ≡ true
      go (refused e t f q) = ap (λ y. has b (y.1).branches) q ∙ fetched t f
      go (left_behind repo args e t f cut q) =
          ap (λ y. has b (y.1).branches) q
          ∙ left_by-keeps (o.strip branch) b s there (branch_exists o (o.strip branch) s)
              (o.add_tree args) t (fetched t f)
      go (undone repo fallback e t u f p q) =
          ap (λ y. has b (y.1).branches) q
          ∙ roll_back-keeps (o.strip branch) b s there repo fallback u
              (persisted repo fallback (err e) t u f p)
      go (tracked repo fallback rec t u f p q) =
          ap (λ y. has b (y.1).branches) q
          ∙ ap (has b) (run_setup-branches rec u)
          ∙ persisted repo fallback (ok rec) t u f p
