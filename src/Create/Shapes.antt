-- ===== src/Create/Shapes.antt =====
-- The ways a call of `create` goes: refused before a worktree is added, cut off while it is, undone,
-- or tracked.
use lib_python_worktree.Git.{is_exit, Call, completed, timed_out, no_git}
use lib_python_worktree.Prelude.{
  List, String, ◌≡◌, ◌⊎◌, inl, inr, refl, ap, Bool, true, false, Option, none, some, ◌∷◌, ◌&&◌, not,
  if◌then◌else◌, str_eq, Bool-cases, Option-cases,
}
use lib_python_worktree.Prelude.Results.{Result, ok, err}
use lib_python_worktree.Store.{WorktreeRecord, BaseFetchFallback, find_by_branch}
use lib_python_worktree.Create.Types.{State, Outside, CreateError, invalid_repo}
use lib_python_worktree.Create.Bases.{Fetched, branch_exists, choose_base, fetch_base}
use lib_python_worktree.Create.Persisting.{persist, roll_back, persist_or_roll_back}
use lib_python_worktree.Create.Steps.{
  left_by, added, run_setup, finish, after_add, after_base, create_branch, create_in, create,
}

module _ (o : Outside) where
  -- What a fetch leaves: what it found, or what else happened to the branches meanwhile.
  abbrev pub Fetches : State → State → Type 0
  Fetches s t = (t ≡ s) ⊎ (t ≡ record s { branches = o.during_fetch s.branches })

  -- The state behind a `git worktree add` that has worked.
  abbrev pub with_tree : Bool → String → State → State
  with_tree exists branch s = record s {
    trees = o.target ∷ s.trees;
    branches = if exists then s.branches else branch ∷ s.branches;
  }

  -- The call has run git and has not returned with 0.
  abbrev pub is_cut : Call → Bool
  is_cut (timed_out n) = true
  is_cut no_git = false
  is_cut (completed p) = not (is_exit 0 p.returncode)

  pub data Shape (branch : String) (s : State) (x : Result CreateError WorktreeRecord × State)
      : Type 0 where
    refused : (e : CreateError) (t : State) → Fetches s t → x ≡ (err e, t) → Shape branch s x
    left_behind :
        (repo : String) (args : List String) (e : CreateError) (t : State)
        → Fetches s t
        → is_cut (o.add_tree args) ≡ true
        → x ≡ (
          err e,
          left_by o (branch_exists o (o.strip branch) s) (o.strip branch) (o.add_tree args) t,
        )
        → Shape branch s x
    undone :
        (repo : String) (fallback : Option BaseFetchFallback) (e : CreateError) (t u : State)
        → Fetches s t
        → persist o repo
            (o.strip branch)
            (branch_exists o (o.strip branch) s)
            fallback
            (with_tree (branch_exists o (o.strip branch) s) (o.strip branch) t)
          ≡ (err e, u)
        → x ≡ (
          err e,
          roll_back o repo (o.strip branch) (branch_exists o (o.strip branch) s) fallback u,
        )
        → Shape branch s x
    tracked :
        (repo : String) (fallback : Option BaseFetchFallback) (rec : WorktreeRecord) (t u : State)
        → Fetches s t
        → persist o repo
            (o.strip branch)
            (branch_exists o (o.strip branch) s)
            fallback
            (with_tree (branch_exists o (o.strip branch) s) (o.strip branch) t)
          ≡ (ok rec, u)
        → x ≡ run_setup o rec u
        → Shape branch s x

  added-cases :
      (exists : Bool) (branch : String) (c : Call) (s : State)
      → ((e : CreateError) × (added o exists branch c s ≡ (err e, s)))
        ⊎ ((e : CreateError) × ((is_cut c ≡ true)
              × (added o exists branch c s ≡ (err e, left_by o exists branch c s))))
        ⊎ (added o exists branch c s ≡ (ok tt, with_tree exists branch s))
  unfolding added
  added-cases exists branch (timed_out n) s = inr (inl (_, (refl, refl)))
  added-cases exists branch no_git s = inl (_, refl)
  added-cases exists branch (completed p) s = elim (Bool-cases (is_exit 0 p.returncode)) [
    | inl e ↦ rw e (inr (inr refl))
    | inr e ↦ rw e (inr (inl (_, (refl, refl))))
  ]

  fetch_base-Fetches :
      (fetch : Bool) (base : Option String × Bool) (s : State)
      → Fetches s (fetch_base o fetch base s).1
  unfolding fetch_base
  fetch_base-Fetches false base s = inl refl
  fetch_base-Fetches true (none, d) s = inl refl
  fetch_base-Fetches true (some b, true) s = inl refl
  fetch_base-Fetches true (some b, false) s = inr refl

  module _ (branch repo : String) (s : State) where
    abbrev name : String
    name = o.strip branch

    abbrev exists : Bool
    exists = branch_exists o name s

    finish-Shape :
        (fallback : Option BaseFetchFallback) (t : State)
        (p : Result CreateError WorktreeRecord × State)
        → Fetches s t
        → persist o repo name exists fallback (with_tree exists name t) ≡ p
        → Shape branch s
            (finish o (persist_or_roll_back o repo name exists fallback (with_tree exists name t)))
    unfolding finish persist_or_roll_back
    finish-Shape fallback t (ok rec, u) f e = tracked repo fallback rec t u f e (
        ap
          (λ p.
            let (result, s') = p in
            finish o (elim result [
              | ok rec ↦ (ok rec, s')
              | err e ↦ (err e, roll_back o repo name exists fallback s')
            ]))
          e)
    finish-Shape fallback t (err x, u) f e = undone repo fallback x t u f e (
        ap
          (λ p.
            let (result, s') = p in
            finish o (elim result [
              | ok rec ↦ (ok rec, s')
              | err e ↦ (err e, roll_back o repo name exists fallback s')
            ]))
          e)

    after_add-Shape :
        (fallback : Option BaseFetchFallback) (args : List String) (t : State)
        → Fetches s t
        → Shape branch s
            (after_add o repo name exists fallback (added o exists name (o.add_tree args) t))
    unfolding after_add
    after_add-Shape fallback args t f = elim (added-cases exists name (o.add_tree args) t) [
      | inl (x, e) ↦ refused x t f (ap (λ p. after_add o repo name exists fallback p) e)
      | inr (inl (x, (cut, e))) ↦
          left_behind repo args x t f cut (ap (λ p. after_add o repo name exists fallback p) e)
      | inr (inr e) ↦ rw e (
          finish-Shape fallback t (persist o repo name exists fallback (with_tree exists name t)) f
            refl)
    ]

    after_base-Shape :
        (base : Option String) (p : Result CreateError Fetched × State)
        → Fetches s (p.1)
        → Shape branch s (after_base o repo name exists base p)
    unfolding after_base
    after_base-Shape base (err x, t) f = refused x t f refl
    after_base-Shape base (ok (fallback, fetched), t) f = after_add-Shape fallback _ t f

    create_branch-Shape :
        (fetch : Bool) (base : Option String)
        → Shape branch s (create_branch o repo name exists fetch base s)
    unfolding create_branch
    create_branch-Shape fetch base = go (choose_base o exists base s)
      where
        go :
            (r : Result CreateError (Option String × Bool))
            → Shape branch s (
                let x : Result CreateError WorktreeRecord × State = elim r [
                  | err e ↦ (err e, s)
                  | ok (chosen, defaulted) ↦
                      after_base o repo name exists chosen
                        (fetch_base o (fetch && not exists) (chosen, defaulted) s)
                ] in
                x)
        go (err x) = refused x s (inl refl) refl
        go (ok (chosen, defaulted)) =
            after_base-Shape chosen _
              (fetch_base-Fetches (fetch && not exists) (chosen, defaulted) s)

  create_in-Shape :
      (branch repo : String) (base : Option String) (fetch : Bool) (s : State)
      → Shape branch s (create_in o (o.strip branch) base fetch repo s)
  unfolding create_in
  create_in-Shape branch repo base fetch s = elim (Bool-cases (str_eq (o.strip branch) "")) [
    | inl q ↦ rw q (refused _ s (inl refl) refl)
    | inr q ↦ elim (Option-cases (find_by_branch repo (o.strip branch) s.records)) [
      | inr (r, p) ↦ rw (q, p) (refused _ s (inl refl) refl)
      | inl p ↦ rw (q, p) (create_branch-Shape branch repo s fetch base)
    ]
  ]

  -- Whatever the outside answers, a call is refused, cut off, undone or tracked.
  pub create-Shape :
      (branch : String) (base : Option String) (fetch : Bool) (s : State)
      → Shape branch s (create o branch base fetch s)
  unfolding create
  create-Shape branch base fetch s = go o.repo
    where
      go :
          (r : Option String)
          → Shape branch s (
              let x : Result CreateError WorktreeRecord × State = elim r [
                | none ↦ (err invalid_repo, s)
                | some repo ↦ create_in o (o.strip branch) base fetch repo s
              ] in
              x)
      go none = refused _ s (inl refl) refl
      go (some repo) = create_in-Shape branch repo base fetch s
