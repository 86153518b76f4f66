-- ===== src/Contract/Pins.antt =====
-- What `create` hands to the allocator from an accepted contract meets what the allocator needs.
use lib_python_worktree.Prelude.{
  ℕ, String, ◌≡◌, inl, inr, Bool, true, false, some, List, [], ◌∷◌, arith, Option-cases, eq_iff,
}
use lib_python_worktree.Prelude.Results.{ok}
use lib_python_worktree.Prelude.Dict.{Dict, lookup, insert, lookup-insert, lookup-nil}
use lib_python_worktree.Prelude.Lists.{contains}
use lib_python_worktree.Prelude.Repeats.{Distinct}
use lib_python_worktree.Contract.{
  PortSlot, WorktreeContract, pins_of, add_pins, pins, slot_names, validate,
}
use lib_python_worktree.Contract.Laws.{IsWellFormed, validate-eq-ok}
use lib_python_worktree.Ports.{allocate}
use lib_python_worktree.Ports.Settled.{IsExclusive}
use lib_python_worktree.Ports.Exclusive.{allocate-IsExclusive}

-- No key holds a pin that is still to come.
abbrev IsClear : List ℕ → Dict ℕ → Type 0
IsClear ps d = (p : ℕ) (j : String) → contains p ps ≡ true → lookup j d ≡ some p → ⊥

module _ (name : String) (p : ℕ) (rest : List ℕ) (d : Dict ℕ) (clear : IsClear (p ∷ rest) d) where
  insert-IsExclusive : IsExclusive d → IsExclusive (insert name p d)
  unfolding contains
  insert-IsExclusive old = record {
    apart = λ j k q ej ek. ground (
      arith,
      lookup-insert name j p d,
      lookup-insert name k p d,
      eq_iff name j,
      eq_iff name k,
      clear p j,
      clear p k,
      old.apart j k q,
    );
  }

  insert-IsClear : contains p rest ≡ false → IsClear rest (insert name p d)
  unfolding contains
  insert-IsClear once q j m e = ground (arith, lookup-insert name j p d, eq_iff name j, clear q j)

add_pins-IsExclusive :
    (ss : List PortSlot) (d : Dict ℕ)
    → Distinct contains (pins_of ss)
    → IsClear (pins_of ss) d
    → IsExclusive d
    → IsExclusive (add_pins ss d)
unfolding add_pins pins_of
add_pins-IsExclusive [] d distinct clear old = old
add_pins-IsExclusive (s ∷ ss) d distinct clear old = elim (Option-cases s.port) [
  | inl e ↦
      rw (e, add_pins)
        (add_pins-IsExclusive ss d (rw (e, pins_of) at distinct) (rw (e, pins_of) at clear) old)
  | inr (p, e) ↦
      let (once, rest) = rw (e, pins_of) at distinct in
      let clear' = rw (e, pins_of) at clear in
      rw (e, add_pins)
        (add_pins-IsExclusive ss (insert s.name p d) rest
          (insert-IsClear s.name p (pins_of ss) d clear' once)
          (insert-IsExclusive s.name p (pins_of ss) d clear' old))
]

-- The pins of a well-formed contract are distinct.
pub pins-IsExclusive : (c : WorktreeContract) → IsWellFormed c → IsExclusive (pins c)
unfolding pins
pins-IsExclusive c w =
    add_pins-IsExclusive c.ports [] w.pins (λ p j _ e. lookup-nil j p e)
      (record { apart = λ j k p e _. absurd (lookup-nil j p e) })

-- For a contract that `model_validate` has accepted, the allocation that `create` asks for leaves
-- no port at two keys of ports.yaml, whatever its outcome, if there was none before.
pub allocate-validate :
    (in_use : ℕ → Bool) (shuffle : String → List ℕ → List ℕ) (low high : ℕ) (wid : String)
    (raw c : WorktreeContract) (file : Dict ℕ)
    → validate raw ≡ ok c
    → IsExclusive file
    → IsExclusive (allocate in_use shuffle low high (slot_names c) wid (pins c) file).1
allocate-validate in_use shuffle low high wid raw c file h old =
    let (same, w) = validate-eq-ok raw h in
    rw same (
      allocate-IsExclusive in_use shuffle low high (slot_names raw) wid (pins raw) file w.names
        (pins-IsExclusive raw w) old)
