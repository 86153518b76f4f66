-- ===== src/Manager/Serving.antt =====
-- The ports of a record serve its contract once the slots that are needed have been granted.
use lib_python_worktree.Prelude.{
  subst, ℕ, String, ◌≡◌, inl, inr, refl, sym, ap, ◌∙◌, Bool, false, Option, none, some, List, [],
  arith, Bool-cases,
}
use lib_python_worktree.Prelude.Dict.{Dict, lookup, keys, has-keys}
use lib_python_worktree.Prelude.Lists.{has, Any, IsDistinct}
use lib_python_worktree.Contract.{PortSlot}
use lib_python_worktree.Ports.Granted.{IsGood}
use lib_python_worktree.Ports.Outcome.{Grants}
use lib_python_worktree.Manager.Sessions
use lib_python_worktree.Manager.NeededPorts.{
  names, has_key-false, lookup-update_ports, needs_alloc-IsDistinct, has-needs_alloc_slot,
  lookup-needed_pins,
}

-- A port is the pin, if there is one.
abbrev pub IsPin : Option ℕ → ℕ → Type 0
IsPin none p = Unit
IsPin (some pin) p = p ≡ pin

-- The ports of a record have one for each slot of the contract, which is its pin if it has one.
abbrev pub Serves : List PortSlot → Dict ℕ → Type 0
Serves ss ports =
    (slot : PortSlot)
    → Any (λ s. s ≡ slot) ss
    → (p : ℕ) × ((lookup slot.name ports ≡ some p) × IsPin slot.port p)

agrees :
    (pin : Option ℕ) (found : Option ℕ)
    → Sessions.is_needed pin found ≡ false
    → (p : ℕ) × ((found ≡ some p) × IsPin pin p)
unfolding Sessions.is_needed Sessions.disagrees
agrees pin none h = absurd (cc h)
agrees none (some p) h = (p, (refl, tt))
agrees (some pin) (some p) h = (p, (refl, ground arith))

-- Where no slot is needed, the ports serve as they are.
pub unneeded-Serves :
    (ss : List PortSlot) (ports : Dict ℕ)
    → IsDistinct (names ss)
    → Sessions.needs_alloc ports ss ≡ []
    → Serves ss ports
unfolding has
unneeded-Serves ss ports once none_needed slot m =
    agrees slot.port (lookup slot.name ports)
      (sym (has-needs_alloc_slot ports slot ss once m) ∙ ap (has slot.name) none_needed)

IsGood-IsPin :
    (in_use : ℕ → Bool) (low high : ℕ) (pinned : Dict ℕ) (name : String) (pin : Option ℕ) (p : ℕ)
    → ((q : ℕ) → pin ≡ some q → lookup name pinned ≡ some q)
    → IsGood in_use low high pinned name p
    → IsPin pin p
IsGood-IsPin in_use low high pinned name none p pinned_at good = tt
IsGood-IsPin in_use low high pinned name (some q) p pinned_at (inl e) =
    let same : some p ≡ some q = sym e ∙ pinned_at q refl in cc
IsGood-IsPin in_use low high pinned name (some q) p pinned_at (inr (e, _, _, _)) =
    absurd (cc (e, pinned_at q refl))

-- With what the allocator grants for the slots that are needed, the ports serve.
pub granted-Serves :
    (in_use : ℕ → Bool) (shuffle : String → List ℕ → List ℕ) (low high : ℕ) (wid : String)
    (ss : List PortSlot) (ports file d after : Dict ℕ)
    → IsDistinct (names ss)
    → keys d ≡ Sessions.needs_alloc ports ss
    → Grants in_use shuffle low high
        (Sessions.needs_alloc ports ss)
        wid
        (Sessions.needed_pins (Sessions.needs_alloc ports ss) ss [])
        file
        d
        after
    → Serves ss (Sessions.update_ports ports d)
granted-Serves in_use shuffle low high wid ss ports file d after once listed g slot m =
    let needed = Sessions.needs_alloc ports ss in
    let updated =
      lookup-update_ports slot.name ports d
        (subst IsDistinct (sym listed) (needs_alloc-IsDistinct ports ss once)) in
    elim (Bool-cases (has slot.name needed)) [
      | inl e ↦
          let (p, found, _, good) = g.served slot.name e in
          (
            p,
            (
              updated ∙ rw found refl,
              IsGood-IsPin in_use low high _ slot.name slot.port p
                  (λ q h. lookup-needed_pins needed slot q ss [] once m h e) good,
            ),
          )
      | inr e ↦
          let (p, (found, pin)) =
            agrees slot.port (lookup slot.name ports)
              (sym (has-needs_alloc_slot ports slot ss once m) ∙ e) in
          let absent =
            has_key-false slot.name d
              (sym (has-keys slot.name d) ∙ ap (has slot.name) listed ∙ e) in
          (p, (updated ∙ rw absent found, pin))
    ]
