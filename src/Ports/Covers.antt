-- ===== src/Ports/Covers.antt =====
-- Both passes of `allocate` together give every slot of the call a result.
use lib_python_worktree.Prelude.{
  ℕ, String, ◌≡◌, refl, inl, inr, Bool, true, ◌||◌, ◌&&◌, not, List, [], ◌∷◌, map, arith, eq_iff,
  eq_refl, if◌then◌else◌, Option-cases, str_eq,
}
use lib_python_worktree.Prelude.Results.{ok, >>=-eq-ok}
use lib_python_worktree.Prelude.Dict.{Dict, lookup, has_key, has_key-insert, has_key-eq-true}
use lib_python_worktree.Prelude.Lists.{has}
use lib_python_worktree.Ports.{
  in_slot_order, Claims, port_key, claim, reclaim, claim_pin, claim_free, pass_one, pass_two,
  claim_all, taken_by_others,
}
use lib_python_worktree.Ports.PassOne.{claim_pin-eq-ok}
use lib_python_worktree.Ports.Exclusive.{claim_free-eq-ok}

-- The slots that have a result once they are claimed.
module _ (in_use : ℕ → Bool) (wid : String) (pinned : Dict ℕ) where
  abbrev Grew : Claims → Claims → Type 0
  Grew c c' = (t : String) → has_key t c.result ≡ true → has_key t c'.result ≡ true

  claim_pin-has_key :
      (slot : String) (port : ℕ) (c : Claims) {c' : Claims}
      → claim_pin in_use wid slot port c ≡ ok c'
      → (t : String) → has_key t c'.result ≡ (if str_eq slot t then true else has_key t c.result)
  unfolding claim reclaim
  claim_pin-has_key slot port c h t = elim (claim_pin-eq-ok in_use wid slot port c h) [
    | inl (_, e) ↦ rw e (has_key-insert slot t port c.result)
    | inr (_, _, e) ↦ rw e (has_key-insert slot t port c.result)
  ]

  pass_one-has_key :
      (slots : List String) (c : Claims) {c' : Claims}
      → pass_one in_use wid pinned slots c ≡ ok c'
      → (t : String) → (has_key t c.result || has t slots && has_key t pinned) ≡ true
      → has_key t c'.result ≡ true
  unfolding pass_one has has_key
  pass_one-has_key [] c {c'} h t m = ground arith
  pass_one-has_key (slot ∷ rest) c h t m = elim (Option-cases (lookup slot pinned)) [
    | inl e ↦
        pass_one-has_key rest c (rw (e, pass_one) at h) t
          (ground (arith, eq_iff t slot, eq_iff slot t))
    | inr (port, e) ↦
        let (c₁, first, h') =
          >>=-eq-ok (claim_pin in_use wid slot port c) (pass_one in_use wid pinned rest)
            (rw (e, pass_one) at h) in
        pass_one-has_key rest c₁ h' t
          (ground (arith, claim_pin-has_key slot port c first t, eq_iff t slot, eq_iff slot t))
  ]

  module _ (shuffle : String → List ℕ → List ℕ) (all_ports : List ℕ) where
    pass_two-has_key :
        (slots : List String) (c : Claims) {c' : Claims}
        → pass_two in_use shuffle wid pinned all_ports slots c ≡ ok c'
        → (t : String) → (has_key t c.result || has t slots && not (has_key t pinned)) ≡ true
        → has_key t c'.result ≡ true
    unfolding pass_two has claim has_key
    pass_two-has_key [] c {c'} h t m = ground arith
    pass_two-has_key (slot ∷ rest) c h t m = elim (Option-cases (lookup slot pinned)) [
      | inr (_, e) ↦
          pass_two-has_key rest c (rw (e, pass_two) at h) t
            (ground (arith, eq_iff t slot, eq_iff slot t))
      | inl e ↦
          let (c₁, first, h') =
            >>=-eq-ok (claim_free in_use shuffle wid all_ports slot c)
              (pass_two in_use shuffle wid pinned all_ports rest) (rw (e, pass_two) at h) in
          let (p, _, _, _, e₁) = claim_free-eq-ok in_use shuffle wid all_ports slot c first in
          pass_two-has_key rest c₁ h' t
            (ground (arith, has_key-insert slot t p c.result, eq_iff t slot, eq_iff slot t))
    ]

-- Both passes together give every slot of the call a result.
pub claim_all-has_key :
    (in_use : ℕ → Bool) (shuffle : String → List ℕ → List ℕ) (wid : String) (pinned : Dict ℕ)
    (all_ports : List ℕ) (slots : List String) (file : Dict ℕ) {c : Claims}
    → claim_all in_use shuffle wid pinned all_ports slots file ≡ ok c
    → (t : String) → has t slots ≡ true
    → has_key t c.result ≡ true
unfolding claim_all
claim_all-has_key in_use shuffle wid pinned all_ports slots file h t m =
    let start : Claims = record {
      allocated = file;
      taken = taken_by_others (map (port_key wid) slots) file;
      result = [];
    } in
    let (c₁, first, second) =
      >>=-eq-ok (pass_one in_use wid pinned slots start)
        (pass_two in_use shuffle wid pinned all_ports slots) h in
    pass_two-has_key in_use wid pinned shuffle all_ports slots c₁ second t
      (ground (arith, pass_one-has_key in_use wid pinned slots start first t))

-- The mapping that is returned has the results of the slots, and every slot has one.
pub in_slot_order_lem :
    (result : Dict ℕ) (slots : List String)
    → ((t : String) → has t slots ≡ true → has_key t result ≡ true)
    → (r : Dict ℕ) × (in_slot_order result slots ≡ ok r)
      × ((t : String) → has t slots ≡ true → lookup t r ≡ lookup t result)
unfolding in_slot_order has lookup
in_slot_order_lem result [] all = ([], refl, λ t m. cc)
in_slot_order_lem result (slot ∷ slots) all =
    let (p, e) = has_key-eq-true slot result (all slot (ground (arith, eq_refl slot))) in
    let (r, e', same) = in_slot_order_lem result slots (λ t m. all t (ground arith)) in
    (
      (slot, p) ∷ r,
      rw (e, in_slot_order, e'),
      λ t m. ground (arith, same t, eq_iff t slot, eq_iff slot t),
    )
