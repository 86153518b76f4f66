-- ===== src/Teardown/Sequence.antt =====
-- How a sequence of actions runs: what its first action did decides what follows.
use lib_python_worktree.Prelude.{◌≡◌, refl, ap, Bool, true, false, List, ◌∷◌}
use lib_python_worktree.Prelude.Results.{Result, ok, err}
use lib_python_worktree.Teardown.Types.{World, Action, TeardownError, when, ◌>>=◌}
use lib_python_worktree.Teardown.Phases.{run_phases}

module _ {A B : Type 0} (m : Action A) (k : A → Action B) (w w' : World) where
  abbrev after : Result TeardownError A × World → Result TeardownError B × World
  after x = elim x.0 [ ok a ↦ k a x.1 | err e ↦ (err e, x.1) ]

  pub bind-eq-ok : (a : A) → m w ≡ (ok a, w') → (m >>= k) w ≡ k a w'
  bind-eq-ok a e = ap after e

  pub bind-eq-err : (x : TeardownError) → m w ≡ (err x, w') → (m >>= k) w ≡ (err x, w')
  bind-eq-err x e = ap after e

module _ (p : Action (Unit {0})) (ps : List (Action (Unit {0}))) (w w' : World) where
  pub run_phases-eq-ok : p w ≡ (ok tt, w') → run_phases (p ∷ ps) w ≡ run_phases ps w'
  unfolding run_phases
  run_phases-eq-ok e = bind-eq-ok p (λ _. run_phases ps) w w' tt e

  pub run_phases-eq-err :
      (x : TeardownError) → p w ≡ (err x, w') → run_phases (p ∷ ps) w ≡ (err x, w')
  unfolding run_phases
  run_phases-eq-err x e = bind-eq-err p (λ _. run_phases ps) w w' x e

pub when-eq-true : (b : Bool) (m : Action (Unit {0})) (w : World) → b ≡ true → when b m w ≡ m w
when-eq-true b m w e = rw e refl

pub when-eq-false :
    (b : Bool) (m : Action (Unit {0})) (w : World) → b ≡ false → when b m w ≡ (ok tt, w)
when-eq-false b m w e = rw e refl
