-- ===== src/Manager/Removal.antt =====
-- How `remove` ends: what of the worktree is gone, and what is left to try again.
use lib_python_worktree.Prelude.{
  ◌≡◌, ◌⊎◌, inl, inr, refl, sym, ap, subst, Bool, true, false, ◌&&◌, ◌||◌, not, Option, none, some,
  arith, Bool-cases, Option-cases, str_eq,
}
use lib_python_worktree.Prelude.Results.{Result, ok, err}
use lib_python_worktree.Ports.{release}
use lib_python_worktree.Teardown.Types.{
  absent, Outside, Request, World, WorktreeRecord, TeardownError,
}
use lib_python_worktree.Teardown.Disk.{has_content}
use lib_python_worktree.Teardown.Phases.{run_teardown}
use lib_python_worktree.Teardown.Outcome.{Settles, run_teardown-Settles}
use lib_python_worktree.Manager.{
  GitOutcome, branch_deleted, git_failed, Branch, RemovalError, not_found, torn, assertion_failed,
  git_command, State, is_owned, delete_owned_branch, tolerate, forget, after_teardown, with_target,
  remove_record, remove,
}
use lib_python_worktree.Manager.Tracked.{IsTracked, run_teardown-IsTracked}

-- The record and the checkout are gone, and the ports are free.
abbrev pub IsGone : State → State → Type 0
IsGone s s' =
    (s'.world.stored ≡ none)
    × (s'.world.checkout ≡ absent)
    × (has_content s'.world.staged ≡ false)
    × (s'.world.ports ≡ release s'.world.rec.id none s.world.ports)

-- The branch is as it was, or it is one that the manager has created, and it is gone.
abbrev pub SparesBranch : Branch → State → State → Type 0
SparesBranch b s s' =
    (s'.branch_exists ≡ s.branch_exists) ⊎ ((b.created_by_us ≡ true) × (s'.branch_exists ≡ false))

-- What holds after a removal that began at `s`, by how it ended.
abbrev pub Ends : Branch → State → Result RemovalError (Unit {0}) × State → Type 0
Ends b s (ok _, s') = IsGone s s' × SparesBranch b s s'
Ends b s (err not_found, s') =
    (s.world.stored ≡ none)
    × (s'.world.checkout ≡ s.world.checkout)
    × (s'.world.staged ≡ s.world.staged)
    × (s'.world.ports ≡ s.world.ports)
    × (s'.branch_exists ≡ s.branch_exists)
Ends b s (err (torn e), s') =
    IsTracked s'.world × (s'.world.ports ≡ s.world.ports) × (s'.branch_exists ≡ s.branch_exists)
Ends b s (err assertion_failed, s') = ⊥
Ends b s (err (git_command _), s') =
    IsGone s s' × (b.created_by_us ≡ true) × (s'.branch_exists ≡ s.branch_exists)

owned-created :
    (o : Outside) (b : Branch) (s : State) → is_owned o b s ≡ true → b.created_by_us ≡ true
unfolding is_owned
owned-created o b s e = ground arith

second : (x y : Bool) → x && y ≡ true → y ≡ true
second x y e = ground arith

git_cases : (x : GitOutcome) → (x ≡ branch_deleted) ⊎ ((u : Bool) × (x ≡ git_failed u))
git_cases branch_deleted = inl refl
git_cases (git_failed u) = inr (u, refl)

not_tracked : (w : World) → w.stored ≡ none → IsTracked w → ⊥
not_tracked w e q = ground arith

IsTracked-eq-some : (w : World) (rec : WorktreeRecord) → w.stored ≡ some rec → IsTracked w
IsTracked-eq-some w rec e = ap (λ x. elim x [ none ↦ false | some _ ↦ true ]) e

module _ (o : Outside) (b : Branch) where
  abbrev pick : Request → State → Option WorktreeRecord → Result RemovalError (Unit {0}) × State
  pick r s x = elim x [
    | none ↦ (err not_found, s)
    | some rec ↦ remove_record o b r (record s { world = record s.world { rec = rec } })
  ]

  tolerate-Ends :
      (s : State) (absent_before : Bool) (out : Result RemovalError (Unit {0}) × State)
      → Ends b s out
      → Ends b s (tolerate o b absent_before out)
  unfolding tolerate
  tolerate-Ends s absent_before (ok _, s') q = q
  tolerate-Ends s true (err (git_command true), s') (gone, created, same) = (gone, inl same)
  tolerate-Ends s false (err (git_command true), s') q = q
  tolerate-Ends s absent_before (err (git_command false), s') q = q
  tolerate-Ends s absent_before (err not_found, s') q = q
  tolerate-Ends s absent_before (err (torn e), s') q = q
  tolerate-Ends s absent_before (err assertion_failed, s') q = q

  delete_owned_branch-Ends :
      (s t : State) (force : Bool)
      → IsGone s t
      → t.branch_exists ≡ s.branch_exists
      → Ends b s (delete_owned_branch o b force t)
  unfolding delete_owned_branch
  delete_owned_branch-Ends s t force gone same =
      elim (Bool-cases (not (str_eq t.world.rec.backing "primary") && is_owned o b t)) [
        | inr e ↦ rw (e, delete_owned_branch, Ends) (gone, inl same)
        | inl e ↦
            let created = owned-created o b t (second _ _ e) in
            elim (git_cases (b.git_branch force)) [
              | inl d ↦ rw (e, delete_owned_branch, d, Ends) (gone, inr (created, refl))
              | inr (u, f) ↦ rw (e, delete_owned_branch, f, Ends) (gone, created, same)
            ]
      ]

  forget-Ends :
      (s t : State) (r : Request)
      → Settles s.world (ok tt, t.world)
      → IsTracked t.world
      → t.branch_exists ≡ s.branch_exists
      → Ends b s (forget o b r t)
  unfolding forget
  forget-Ends s t r (gone, clear, freed) tracked same = elim (Option-cases t.world.stored) [
    | inl e ↦ absurd (not_tracked t.world e tracked)
    | inr (x, e) ↦
        rw (e, forget)
          (tolerate-Ends s r.target_absent _ (
            delete_owned_branch-Ends s (record t { world = record t.world { stored = none } })
              r.force (refl, gone, clear, freed) same))
  ]

  after_teardown-Ends :
      (s : State) (r : Request) (out : Result TeardownError (Unit {0}) × World)
      → Settles s.world out
      → IsTracked out.1
      → Ends b s (after_teardown o b r s.branch_exists out)
  unfolding after_teardown
  after_teardown-Ends s r (err e, w) freed tracked = (tracked, freed, refl)
  after_teardown-Ends s r (ok _, w) q tracked =
      forget-Ends s (record { world = w; branch_exists = s.branch_exists }) r q tracked refl

  remove_record-Ends :
      (r : Request) (s : State) → IsTracked s.world → Ends b s (remove_record o b r s)
  unfolding remove_record
  remove_record-Ends r s tracked =
      elim (Bool-cases (str_eq s.world.rec.backing "primary" || o.path_is_repo_root)) [
        | inl e ↦ rw (e, Ends) (tracked, refl, refl)
        | inr e ↦
            rw (e, Ends)
              (after_teardown-Ends s (with_target o b r s.world)
                (run_teardown o (with_target o b r s.world) s.world)
                (run_teardown-Settles o (with_target o b r s.world) s.world)
                (run_teardown-IsTracked o (with_target o b r s.world) s.world tracked))
      ]

  remove-eq-none :
      (r : Request) (s : State) → s.world.stored ≡ none → remove o b r s ≡ (err not_found, s)
  unfolding remove
  remove-eq-none r s e = ap (pick r s) e

  remove-eq-some :
      (r : Request) (s : State) (rec : WorktreeRecord)
      → s.world.stored ≡ some rec
      → remove o b r s ≡ remove_record o b r (record s { world = record s.world { rec = rec } })
  unfolding remove
  remove-eq-some r s rec e = ap (pick r s) e

  -- A removal by id that returns, and one that raises for git alone, have taken the record out of
  -- the store and left neither the checkout nor content in its staged copy, and the ports are
  -- released; one that the teardown has stopped leaves the record tracked, ports.yaml and the
  -- branch as they were, so that it can be tried again; for an id that is not tracked the
  -- disk, ports.yaml and the branch are as they were; and the assertion of `remove` never fails. The branch is deleted only if the manager
  -- has created it.
  pub remove-Ends : (r : Request) (s : State) → Ends b s (remove o b r s)
  unfolding remove
  remove-Ends r s = elim (Option-cases s.world.stored) [
    | inl e ↦ subst (Ends b s) (sym (remove-eq-none r s e)) (e, refl, refl, refl, refl)
    | inr (rec, e) ↦ subst (Ends b s) (sym (remove-eq-some r s rec e)) (
        remove_record-Ends r (record s { world = record s.world { rec = rec } })
          (IsTracked-eq-some s.world rec e))
  ]
