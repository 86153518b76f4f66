-- ===== src/Teardown/Outcome.antt =====
-- How a removal ends: the checkout is gone and its ports are free, or it raises and they are not.
use lib_python_worktree.Prelude.{
  ℕ, ◌≡◌, refl, ap, Bool, true, false, ◌||◌, none, [], ◌∷◌, arith, inl, inr, Bool-cases,
}
use lib_python_worktree.Prelude.Results.{Result, ok, err}
use lib_python_worktree.Prelude.Dict.{Dict}
use lib_python_worktree.Ports.{release}
use lib_python_worktree.Teardown.Types.{
  Dir, absent, hollow, full, Outside, Request, World, TeardownError, dir_locked,
}
use lib_python_worktree.Teardown.Disk.{exists, has_content}
use lib_python_worktree.Teardown.Hooks.{teardown_hook, stop_record}
use lib_python_worktree.Teardown.Phases.{final_guard, release_ports, run_phases, run_teardown}
use lib_python_worktree.Teardown.Sequence.{run_phases-eq-ok, run_phases-eq-err}
use lib_python_worktree.Teardown.Frame.{IsFrame}
use lib_python_worktree.Teardown.Engine.{
  run_phases-keeps, first_phases, last_phases, run_teardown-split, first_phases-AllKeep,
}

abbrev HasPorts : Dict ℕ → World → Type 0
HasPorts p w = w.ports ≡ p

HasPorts-IsFrame : (o : Outside) (p : Dict ℕ) → IsFrame o (HasPorts p)
unfolding stop_record
HasPorts-IsFrame o p = record {
  quiet = record {
    stable = record { book = λ w n k d b ks q. q; asked = λ w n c e q. q };
    stopped = λ r w role x e q. q;
    outcome = λ w x q. q;
  };
  disk = λ w c s q. q;
  cached = λ w x q. q;
}

teardown_hook-HasPorts :
    (o : Outside) (r : Request) (p : Dict ℕ) (w : World)
    → HasPorts p w
    → HasPorts p (teardown_hook o r w).1
unfolding teardown_hook
teardown_hook-HasPorts o r p w q = ground arith

-- What a removal that began at `w` has done, by how it ended.
abbrev pub Settles : World → Result TeardownError (Unit {0}) × World → Type 0
Settles w (ok _, w') =
    (w'.checkout ≡ absent)
    × (has_content w'.staged ≡ false)
    × (w'.ports ≡ release w'.rec.id none w.ports)
Settles w (err _, w') = w'.ports ≡ w.ports

exists-eq-false : (d : Dir) → exists d ≡ false → d ≡ absent
unfolding exists
exists-eq-false absent e = refl
exists-eq-false hollow e = ground arith
exists-eq-false full e = ground arith

module _ (o : Outside) (r : Request) (w : World) where
  final_guard-eq-err :
      has_content w.staged || exists w.checkout ≡ true
      → final_guard o r w
        ≡ (err (dir_locked w.rec.killed_pids w.kill_attempted (has_content w.staged) w.blockers), w)
  unfolding final_guard
  final_guard-eq-err e = rw e refl

  final_guard-eq-ok :
      has_content w.staged || exists w.checkout ≡ false → final_guard o r w ≡ (ok tt, w)
  unfolding final_guard
  final_guard-eq-ok e = rw e refl

  last_phases-eq-err :
      has_content w.staged || exists w.checkout ≡ true
      → run_phases (last_phases o r) w
        ≡ (err (dir_locked w.rec.killed_pids w.kill_attempted (has_content w.staged) w.blockers), w)
  unfolding last_phases
  last_phases-eq-err e =
      run_phases-eq-err (final_guard o r) (release_ports o r ∷ []) w w _ (final_guard-eq-err e)

  last_phases-eq-ok :
      has_content w.staged || exists w.checkout ≡ false
      → run_phases (last_phases o r) w ≡ (ok tt, record w { ports = release w.rec.id none w.ports })
  unfolding last_phases release_ports run_phases
  last_phases-eq-ok e =
      run_phases-eq-ok (final_guard o r) (release_ports o r ∷ []) w w (final_guard-eq-ok e)

or-eq-false : (a b : Bool) → a || b ≡ false → (a ≡ false) × (b ≡ false)
or-eq-false a b e = ground arith

last_phases-Settles :
    (o : Outside) (r : Request) (w w₁ : World)
    → w₁.ports ≡ w.ports
    → Settles w (run_phases (last_phases o r) w₁)
last_phases-Settles o r w w₁ e = elim (Bool-cases (has_content w₁.staged || exists w₁.checkout)) [
  | inl s ↦ rw (last_phases-eq-err o r w₁ s) e
  | inr s ↦
      let (sn, cn) = or-eq-false _ _ s in
      rw (last_phases-eq-ok o r w₁ s)
        (exists-eq-false w₁.checkout cn, sn, ap (release w₁.rec.id none) e)
]

-- A removal that returns has left neither the checkout nor content in its staged copy, and has
-- released the ports of its record; one that raises has left ports.yaml alone.
pub run_teardown-Settles : (o : Outside) (r : Request) (w : World) → Settles w (run_teardown o r w)
run_teardown-Settles o r w = rw run_teardown-split (
    go (run_phases (first_phases o r) w).0 (run_phases (first_phases o r) w).1 (
      run_phases-keeps (HasPorts w.ports) (first_phases o r)
        (first_phases-AllKeep o r (HasPorts w.ports) (HasPorts-IsFrame o w.ports)
          (teardown_hook-HasPorts o r w.ports))
        w refl))
  where
    go :
        (x : Result TeardownError (Unit {0})) (w₁ : World)
        → w₁.ports ≡ w.ports
        → Settles w (elim x [ ok a ↦ run_phases (last_phases o r) w₁ | err e ↦ (err e, w₁) ])
    go (ok a) w₁ e = last_phases-Settles o r w w₁ e
    go (err x) w₁ e = e
