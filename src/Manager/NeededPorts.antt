-- ===== src/Manager/NeededPorts.antt =====
-- The slots that `start` has allocated, their pins, and the ports of the record behind it.
use lib_python_worktree.Prelude.{
  ℕ, String, ◌≡◌, inl, inr, refl, sym, ap, ◌∙◌, Bool, true, false, Option, none, some, List, [],
  ◌∷◌, map, str_eq, arith, eq_iff, eq_refl, Bool-cases, Option-cases, if◌then◌else◌,
}
use lib_python_worktree.Prelude.Results.{Result, ok, err, >>=-eq-ok, ok-eq-ok}
use lib_python_worktree.Prelude.Dict.{Dict, lookup, insert, keys, has_key, has-keys, lookup-insert}
use lib_python_worktree.Prelude.Lists.{has, Any, IsDistinct}
use lib_python_worktree.Contract.{PortSlot}
use lib_python_worktree.Ports.{AllocError, Claims, in_slot_order, save_claims, allocate}
use lib_python_worktree.Manager.Sessions

abbrev pub names : List PortSlot → List String
names ss = map (λ (s : PortSlot). s.name) ss

in_slot_order-keys :
    (result : Dict ℕ) (slots : List String) (d : Dict ℕ)
    → in_slot_order result slots ≡ ok d
    → keys d ≡ slots
unfolding in_slot_order
in_slot_order-keys result [] d h = ap keys (sym (ok-eq-ok h))
in_slot_order-keys result (slot ∷ slots) d h = elim (Option-cases (lookup slot result)) [
  | inl e ↦ absurd (cc (rw (e, in_slot_order) at h))
  | inr (p, e) ↦
      let (rest, first, second) =
        >>=-eq-ok (in_slot_order result slots) _ (rw (e, in_slot_order) at h) in
      ap keys (sym (ok-eq-ok second))
      ∙ ap (λ l. slot ∷ l) (in_slot_order-keys result slots rest first)
]

save_claims-keys :
    (slots : List String) (file : Dict ℕ) (r : Result AllocError Claims) (d after : Dict ℕ)
    → save_claims slots file r ≡ (ok d, after)
    → keys d ≡ slots
unfolding save_claims
save_claims-keys slots file (ok c) d after h = in_slot_order-keys c.result slots d (ap (λ p. p.0) h)
save_claims-keys slots file (err e) d after h = absurd (cc h)

pub allocate-keys :
    (in_use : ℕ → Bool) (shuffle : String → List ℕ → List ℕ) (low high : ℕ) (slots : List String)
    (wid : String) (pinned file d after : Dict ℕ)
    → allocate in_use shuffle low high slots wid pinned file ≡ (ok d, after)
    → keys d ≡ slots
unfolding allocate
allocate-keys in_use shuffle low high [] wid pinned file d after h =
    ap keys (sym (ok-eq-ok (ap (λ p. p.0) h)))
allocate-keys in_use shuffle low high (slot ∷ slots) wid pinned file d after h =
    save_claims-keys (slot ∷ slots) file _ d after h

pub has_key-false : (k : String) (d : Dict ℕ) → has_key k d ≡ false → lookup k d ≡ none
unfolding has_key
has_key-false k d h = ground arith

abbrev pub or_else : Option ℕ → Option ℕ → Option ℕ
or_else none next = next
or_else (some p) next = some p

-- A binding of an updated dict is that of the update, if it has one.
pub lookup-update_ports :
    (k : String) (ports d : Dict ℕ)
    → IsDistinct (keys d)
    → lookup k (Sessions.update_ports ports d) ≡ or_else (lookup k d) (lookup k ports)
unfolding Sessions.update_ports lookup
lookup-update_ports k ports [] once = refl
lookup-update_ports k ports ((j, v) ∷ d) (fresh, once) =
    lookup-update_ports k (insert j v ports) d once
    ∙ ap (or_else (lookup k d)) (lookup-insert j k v ports)
    ∙ elim (Bool-cases (str_eq j k)) [
      | inr e ↦ rw e refl
      | inl e ↦
          let same : j ≡ k = (eq_iff j k).0 e in
          let gone : lookup k d ≡ none =
            has_key-false k d (sym (has-keys k d) ∙ (rw same at fresh)) in
          rw (e, gone) refl
    ]

module _ (ports : Dict ℕ) where
  has-names :
      (slot : PortSlot) (ss : List PortSlot)
      → Any (λ s. s ≡ slot) ss
      → has slot.name (names ss) ≡ true
  unfolding has
  has-names slot [] m = absurd m
  has-names slot (s ∷ ss) (inl e) =
      rw (ap (λ (s : PortSlot). s.name) e) (ground (arith, eq_refl slot.name))
  has-names slot (s ∷ ss) (inr m) = ground (arith, has-names slot ss m)

  has-needs_alloc :
      (k : String) (ss : List PortSlot)
      → has k (names ss) ≡ false
      → has k (Sessions.needs_alloc ports ss) ≡ false
  unfolding Sessions.needs_alloc has
  has-needs_alloc k [] h = refl
  has-needs_alloc k (s ∷ ss) h = ground (arith, has-needs_alloc k ss)

  pub needs_alloc-IsDistinct :
      (ss : List PortSlot) → IsDistinct (names ss) → IsDistinct (Sessions.needs_alloc ports ss)
  unfolding Sessions.needs_alloc
  needs_alloc-IsDistinct [] once = tt
  needs_alloc-IsDistinct (s ∷ ss) (fresh, once) =
      elim (Bool-cases (Sessions.is_needed s.port (lookup s.name ports))) [
        | inl e ↦ rw e (has-needs_alloc s.name ss fresh, needs_alloc-IsDistinct ss once)
        | inr e ↦ rw e (needs_alloc-IsDistinct ss once)
      ]

  -- A slot is allocated exactly if it is needed.
  pub has-needs_alloc_slot :
      (slot : PortSlot) (ss : List PortSlot)
      → IsDistinct (names ss)
      → Any (λ s. s ≡ slot) ss
      → has slot.name (Sessions.needs_alloc ports ss)
        ≡ Sessions.is_needed slot.port (lookup slot.name ports)
  unfolding Sessions.needs_alloc has
  has-needs_alloc_slot slot [] once m = absurd m
  has-needs_alloc_slot slot (s ∷ ss) (fresh, once) (inl e) =
      let same = ap (λ (s : PortSlot). s.name) e in
      let pin = ap (λ (s : PortSlot). s.port) e in
      rw (same, pin)
        (ground (arith, eq_refl slot.name, has-needs_alloc slot.name ss (rw same at fresh)))
  has-needs_alloc_slot slot (s ∷ ss) (fresh, once) (inr m) =
      let later = has-needs_alloc_slot slot ss once m in
      let apart : str_eq slot.name s.name ≡ false =
        ground (arith, eq_iff slot.name s.name, fresh, has-names slot ss m) in
      elim (Bool-cases (Sessions.is_needed s.port (lookup s.name ports))) [
        | inl e ↦ rw (e, apart) later
        | inr e ↦ rw e later
      ]

module _ (needed : List String) where
  lookup-needed_pins_other :
      (k : String) (ss : List PortSlot) (d : Dict ℕ)
      → has k (names ss) ≡ false
      → lookup k (Sessions.needed_pins needed ss d) ≡ lookup k d
  unfolding Sessions.needed_pins has
  lookup-needed_pins_other k [] d h = refl
  lookup-needed_pins_other k (s ∷ ss) d h =
      lookup-needed_pins_other k ss _ (ground arith) ∙ skipped s.port
    where
      skipped :
          (port : Option ℕ)
          → lookup k
              (elim port [ none ↦ d | some p ↦ if has s.name needed then insert s.name p d else d ])
            ≡ lookup k d
      skipped none = refl
      skipped (some p) =
          ground (arith, eq_iff k s.name, eq_iff s.name k, h, lookup-insert s.name k p d)

  pub lookup-needed_pins :
      (slot : PortSlot) (pin : ℕ) (ss : List PortSlot) (d : Dict ℕ)
      → IsDistinct (names ss)
      → Any (λ s. s ≡ slot) ss
      → slot.port ≡ some pin
      → has slot.name needed ≡ true
      → lookup slot.name (Sessions.needed_pins needed ss d) ≡ some pin
  unfolding Sessions.needed_pins
  lookup-needed_pins slot pin [] d once m e h = absurd m
  lookup-needed_pins slot pin (s ∷ ss) d (fresh, once) (inr m) e h =
      lookup-needed_pins slot pin ss _ once m e h
  lookup-needed_pins slot pin (s ∷ ss) d (fresh, once) (inl q) e h =
      let name = ap (λ (s : PortSlot). s.name) q in
      let port = ap (λ (s : PortSlot). s.port) q in
      rw (port, e, name, h)
        (lookup-needed_pins_other slot.name ss (insert slot.name pin d) (rw name at fresh)
          ∙ (lookup-insert slot.name slot.name pin d ∙ rw (eq_refl slot.name) refl))
