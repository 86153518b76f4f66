-- ===== src/Ports/Granted.antt =====
-- What a successful call of `allocate` grants.
use lib_python_worktree.Prelude.{
  ℕ, ◌+◌, ◌-◌, ◌≤◌, String, ◌≡◌, subst₂, ◌⊎◌, inl, inr, Bool, false, none, some, List, [], map,
  arith, eq_iff, eq_refl, str_eq-cases,
}
use lib_python_worktree.Prelude.Results.{ok, >>=-eq-ok}
use lib_python_worktree.Prelude.Dict.{Dict, lookup, lookup-insert, lookup-nil}
use lib_python_worktree.Prelude.Lists.{contains, range, contains-range}
use lib_python_worktree.Ports.{
  Claims, port_key, claim, reclaim, claim_pin, claim_free, pass_one, pass_two, claim_all,
  taken_by_others,
}
use lib_python_worktree.Ports.KeyLaws.{port_key-injective}
use lib_python_worktree.Ports.PassOne.{claim_pin-eq-ok}
use lib_python_worktree.Ports.Exclusive.{claim_free-eq-ok}
use lib_python_worktree.Ports.Passes.{pass_one_keeps, pass_two_keeps}

module _ (in_use : ℕ → Bool) (low high : ℕ) (pinned : Dict ℕ) where
  -- A port that may be granted to a slot: its pin, or a port of the range that nothing listens on.
  abbrev pub IsGood : String → ℕ → Type 0
  IsGood slot p =
      (lookup slot pinned ≡ some p)
      ⊎ ((lookup slot pinned ≡ none) × (in_use p ≡ false) × (low ≤ p) × (p ≤ high))

  module _ (wid : String) where
    -- Each port in the result stands at its key, and may be granted.
    pub record IsSound (c : Claims) : Type 0 where
      pub sound :
          (slot : String) (p : ℕ)
          → lookup slot c.result ≡ some p
          → (lookup (port_key wid slot) c.allocated ≡ some p) × IsGood slot p

    claim-IsSound :
        (slot : String) (port : ℕ) (c : Claims)
        → IsGood slot port
        → IsSound c
        → IsSound (claim (port_key wid slot) slot port c)
    unfolding claim
    claim-IsSound slot port c good s = record {
      sound = λ t p h. elim (str_eq-cases slot t) [
        | inl e ↦
            let q : port ≡ p = ground (arith, lookup-insert slot t port c.result, eq_iff slot t) in
            (rw (← e, lookup-insert, eq_refl, q), subst₂ IsGood e q good)
        | inr ne ↦
            let old = s.sound t p (ground (arith, lookup-insert slot t port c.result)) in
            (
              ground (
                arith,
                lookup-insert (port_key wid slot) (port_key wid t) port c.allocated,
                port_key-injective wid slot t,
                eq_iff (port_key wid slot) (port_key wid t),
                eq_iff slot t,
              ),
              old.1,
            )
      ];
    }

    reclaim-IsSound :
        (slot : String) (port : ℕ) (c : Claims)
        → IsGood slot port
        → lookup (port_key wid slot) c.allocated ≡ some port
        → IsSound c
        → IsSound (reclaim slot port c)
    unfolding reclaim
    reclaim-IsSound slot port c good held s = record {
      sound = λ t p h. elim (str_eq-cases slot t) [
        | inl e ↦
            let q : port ≡ p = ground (arith, lookup-insert slot t port c.result, eq_iff slot t) in
            (
              subst₂ (λ a b. lookup (port_key wid a) c.allocated ≡ some b) e q held,
              subst₂ IsGood e q good,
            )
        | inr ne ↦ s.sound t p (ground (arith, lookup-insert slot t port c.result))
      ];
    }

    claim_pin-IsSound :
        (slot : String) (port : ℕ) (c c' : Claims)
        → lookup slot pinned ≡ some port
        → claim_pin in_use wid slot port c ≡ ok c'
        → IsSound c
        → IsSound c'
    claim_pin-IsSound slot port c c' pin h s = elim (claim_pin-eq-ok in_use wid slot port c h) [
      | inl (held, e) ↦ rw e (reclaim-IsSound slot port c (inl pin) held s)
      | inr (_, _, e) ↦ rw e (claim-IsSound slot port c (inl pin) s)
    ]

    module _ (shuffle : String → List ℕ → List ℕ)
        (shuffle_keeps : (s : String) (ps : List ℕ) (p : ℕ)
          → contains p (shuffle s ps) ≡ contains p ps) where
      claim_free-IsSound :
          (slot : String) (c c' : Claims)
          → lookup slot pinned ≡ none
          → claim_free in_use shuffle wid (range low (high + 1 - low)) slot c ≡ ok c'
          → IsSound c
          → IsSound c'
      claim_free-IsSound slot c c' auto h s =
          let (p, _, unused, drawn, e) =
            claim_free-eq-ok in_use shuffle wid (range low (high + 1 - low)) slot c h in
          let within : (low ≤ p) × (p ≤ high) = ground (
            arith,
            shuffle_keeps slot (range low (high + 1 - low)) p,
            contains-range p low (high + 1 - low),
          ) in
          rw e (claim-IsSound slot p c (inr (auto, unused, within.0, within.1)) s)

      pub claim_all-IsSound :
          (slots : List String) (file : Dict ℕ) {c : Claims}
          → claim_all in_use shuffle wid pinned (range low (high + 1 - low)) slots file ≡ ok c
          → IsSound c
      unfolding claim_all
      claim_all-IsSound slots file h =
          let start : Claims = record {
            allocated = file;
            taken = taken_by_others (map (port_key wid) slots) file;
            result = [];
          } in
          let (c₁, first, second) =
            >>=-eq-ok (pass_one in_use wid pinned slots start)
              (pass_two in_use shuffle wid pinned (range low (high + 1 - low)) slots) h in
          pass_two_keeps in_use wid pinned IsSound shuffle (range low (high + 1 - low)) slots
            (λ slot c c' _. claim_free-IsSound slot c c') c₁ second
            (pass_one_keeps in_use wid pinned IsSound slots
              (λ slot port c c' _. claim_pin-IsSound slot port c c') start first
              (record { sound = λ slot p e. absurd (lookup-nil slot p e) }))
