-- ===== src/Teardown/Kept.antt =====
-- What a removal without `force` keeps of a checkout with real dirt.
use lib_python_worktree.Prelude.{
  ℕ, suc, ◌≡◌, refl, true, false, List, [], ◌∷◌, arith, inl, inr, ◌⊎◌, if◌then◌else◌, Option-cases,
  String,
}
use lib_python_worktree.Prelude.Results.{Result, err}
use lib_python_worktree.Teardown.Types.{
  Dir, absent, hollow, full, Outside, Request, World, Call, TeardownError, dirty, removal_blocked,
}
use lib_python_worktree.Teardown.Dirt.{status_entries, real_dirt_paths}
use lib_python_worktree.Teardown.Disk.{exists, rename_out, rename_back}
use lib_python_worktree.Teardown.Hooks.{is_dirty}
use lib_python_worktree.Teardown.Phases.{undo_rename, refuse_dirty}
use lib_python_worktree.Teardown.Stable.{runs_teardown, Keeps, bare_retry_bounded-keeps, IsStable}
use lib_python_worktree.Teardown.Frame.{rename_out-eq-some, rename_back-eq-some}

-- How often the `teardown:` steps have run.
unfoldable pub runs_of : List Call → ℕ
runs_of [] = 0
runs_of (c ∷ cs) = if runs_teardown c then suc (runs_of cs) else runs_of cs

-- The checkout is where it was, or under the staged name as it was.
abbrev pub IsThere : World → World → Type 0
IsThere w w' = (w'.checkout ≡ w.checkout) ⊎ ((w'.checkout ≡ absent) × (w'.staged ≡ w.checkout))

-- The removal raised, the checkout is there, no `teardown:` step has run, and ports.yaml is as it
-- was.
abbrev pub IsRefused : World → Result TeardownError (Unit {0}) × World → Type 0
IsRefused w (x, w') =
    ((e : TeardownError) × (x ≡ err e))
    × IsThere w w'
    × (runs_of w'.calls ≡ runs_of w.calls)
    × (w'.ports ≡ w.ports)

-- Each probe that git answers finds dirt that is not exempt.
abbrev pub IsDirty : Outside → Type 0
IsDirty o = (t : ℕ) → is_dirty (real_dirt_paths (status_entries (o.status t))) ≡ true

-- The tree `s` is under the staged name, or back at the checkout.
abbrev Holds : Dir → World → World → Type 0
Holds s w w' =
    (((w'.checkout ≡ absent) × (w'.staged ≡ s)) ⊎ ((w'.checkout ≡ s) × (w'.staged ≡ absent)))
    × (runs_of w'.calls ≡ runs_of w.calls)
    × (w'.ports ≡ w.ports)

Holds-IsStable : (s : Dir) (w : World) → IsStable (Holds s w)
unfolding runs_of
Holds-IsStable s w = record {
  book = λ v n k d b ks q. q;
  asked = λ v n c e q. (q.0, rw e (q.1), q.2);
}

absent-ne : (d : Dir) → d ≡ absent → exists d ≡ true → ⊥
unfolding exists
absent-ne absent e h = ground arith
absent-ne hollow e h = ground arith
absent-ne full e h = ground arith

rename_back-Holds : (o : Outside) (s : Dir) (w : World) → Keeps (Holds s w) (rename_back o)
rename_back-Holds o s w = record {
  at = λ v v' e q.
      let (present, _, moved) = rename_back-eq-some o v v' e in
      rw moved (elim (q.0) [
        | inl (c, t) ↦ (inr (t, refl), q.1, q.2)
        | inr (c, t) ↦ elim (absent-ne v.staged t present) [ ]
      ]);
}

module _ (o : Outside) (r : Request) where
  undo_rename-err : (w : World) → (e : TeardownError) × ((undo_rename o r w).0 ≡ err e)
  unfolding undo_rename
  undo_rename-err w = elim (Option-cases (rename_back o w)) [
    | inr (w', e) ↦ rw (e, undo_rename) (dirty false, refl)
    | inl e ↦ rw (e, undo_rename) (dirty _, refl)
  ]

  undo_rename-Holds : (s : Dir) (w v : World) → Holds s w v → Holds s w (undo_rename o r v).1
  unfolding undo_rename
  undo_rename-Holds s w v q = elim (Option-cases (rename_back o v)) [
    | inr (v', e) ↦ rw (e, undo_rename) ((rename_back-Holds o s w).at v v' e q)
    | inl e ↦
        rw (e, undo_rename)
          (bare_retry_bounded-keeps (Holds s w) (Holds-IsStable s w) o (rename_back o)
            (rename_back-Holds o s w) v q)
  ]

  undo_rename-IsRefused : (w v : World) → Holds w.checkout w v → IsRefused w (undo_rename o r v)
  undo_rename-IsRefused w v q =
      let (place, runs, ports) = undo_rename-Holds w.checkout w v q in
      (undo_rename-err v, elim place [ inl p ↦ inr p | inr p ↦ inl (p.0) ], runs, ports)

  -- Where it is dirty, the checkout is refused and is still there.
  pub refuse_dirty-IsRefused :
      (found : List String) (w : World) → IsRefused w (refuse_dirty o r found w)
  unfolding refuse_dirty
  refuse_dirty-IsRefused found w = elim (Option-cases (rename_out o w)) [
    | inl e ↦ rw (e, refuse_dirty) ((removal_blocked found, refl), inl refl, refl, refl)
    | inr (w', e) ↦
        rw (e, refuse_dirty)
          (undo_rename-IsRefused w w'
            (rw ((rename_out-eq-some o w w' e).2) (inl (refl, refl), refl, refl)))
  ]
