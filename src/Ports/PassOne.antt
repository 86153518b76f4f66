-- ===== src/Ports/PassOne.antt =====
-- The first pass of `allocate` and its invariant.
use lib_python_worktree.Prelude.{
  ℕ, String, ◌≡◌, sym, ◌∙◌, ap, subst, ◌⊎◌, inl, inr, Bool, true, false, some, List, [], ◌∷◌, ◌++◌,
  map, arith, eq_iff, eq_refl, str_eq, Option-cases, str_eq-cases,
}
use lib_python_worktree.Prelude.Results.{ok, >>=-eq-ok}
use lib_python_worktree.Prelude.Dict.{Dict, lookup, lookup-insert}
use lib_python_worktree.Prelude.Lists.{contains, has, IsDistinct}
use lib_python_worktree.Ports.{Claims, port_key, claim, reclaim, holds, claim_pin, pass_one}
use lib_python_worktree.Ports.Split.{pinned_slots}
use lib_python_worktree.Ports.Settled.{IsExclusive, IsSettled, claim-IsSettled, reclaim-IsSettled}

-- How a pinned slot is claimed, when it is.
pub claim_pin-eq-ok :
    (in_use : ℕ → Bool) (wid slot : String) (port : ℕ) (c : Claims) {c' : Claims}
    → claim_pin in_use wid slot port c ≡ ok c'
    → ((lookup (port_key wid slot) c.allocated ≡ some port) × (c' ≡ reclaim slot port c))
      ⊎ ((contains port c.taken ≡ false)
          × (in_use port ≡ false)
          × (c' ≡ claim (port_key wid slot) slot port c))
unfolding claim_pin holds
claim_pin-eq-ok in_use wid slot port c h = ground arith

module _ (wid : String) (pinned file : Dict ℕ) where
  -- What holds during the first pass: a key has its old port, or the port that its slot pins.
  pub record IsPinning (os : List String) (c : Claims) : Type 0 where
    pub settled : IsSettled os c
    pub fresh : (k : String) → has k os ≡ true → lookup k c.allocated ≡ lookup k file
    pub origin :
        (k : String)
        → (lookup k c.allocated ≡ lookup k file)
          ⊎ ((s : String) × (p : ℕ) × (k ≡ port_key wid s)
              × (lookup s pinned ≡ some p)
              × (lookup k c.allocated ≡ some p))

  module _ (old : IsExclusive file) (pins : IsExclusive pinned) (os : List String) (slot : String)
      (port : ℕ) (c : Claims) (now : IsPinning (port_key wid slot ∷ os) c)
      (pin : lookup slot pinned ≡ some port) (once : has (port_key wid slot) os ≡ false) where
    only_holder :
        lookup (port_key wid slot) c.allocated ≡ some port
        → (k : String) → has k os ≡ false
        → lookup k c.allocated ≡ some port
        → k ≡ port_key wid slot
    unfolding has
    only_holder held k h e = elim (now.origin k) [
      | inl kept ↦
          old.apart k (port_key wid slot) port (sym kept ∙ e) (
            sym (now.fresh (port_key wid slot) (ground (arith, eq_refl (port_key wid slot))))
            ∙ held)
      | inr (s, p, at, pins_s, has_p) ↦
          at ∙ ap (port_key wid) (pins.apart s slot port (pins_s ∙ sym has_p ∙ e) pin)
    ]

    reclaim-IsPinning :
        lookup (port_key wid slot) c.allocated ≡ some port → IsPinning os (reclaim slot port c)
    unfolding has reclaim
    reclaim-IsPinning held = record {
      settled =
          reclaim-IsSettled os (port_key wid slot) slot port c now.settled held (only_holder held);
      fresh = λ k h. now.fresh k (ground arith);
      origin = now.origin;
    }

    claim-origin :
        (k : String)
        → (k ≡ port_key wid slot) ⊎ (str_eq k (port_key wid slot) ≡ false)
        → (lookup k (claim (port_key wid slot) slot port c).allocated ≡ lookup k file)
          ⊎ ((s : String) × (p : ℕ) × (k ≡ port_key wid s)
              × (lookup s pinned ≡ some p)
              × (lookup k (claim (port_key wid slot) slot port c).allocated ≡ some p))
    unfolding claim
    claim-origin k (inl e) = inr (slot, port, e, pin, rw (e, lookup-insert, eq_refl))
    claim-origin k (inr ne) = elim (now.origin k) [
      | inl kept ↦ inl (
          ground (
            arith,
            lookup-insert (port_key wid slot) k port c.allocated,
            eq_iff k (port_key wid slot),
            eq_iff (port_key wid slot) k,
          ))
      | inr (s, p, at, pins_s, has_p) ↦ inr (
        s,
        p,
        at,
        pins_s,
        ground (
          arith,
          lookup-insert (port_key wid slot) k port c.allocated,
          eq_iff k (port_key wid slot),
          eq_iff (port_key wid slot) k,
        ),
      )
    ]

    claim-IsPinning :
        contains port c.taken ≡ false → IsPinning os (claim (port_key wid slot) slot port c)
    unfolding has claim
    claim-IsPinning free = record {
      settled = claim-IsSettled os (port_key wid slot) slot port c now.settled free;
      fresh = λ k h. ground (
        arith,
        lookup-insert (port_key wid slot) k port c.allocated,
        eq_iff (port_key wid slot) k,
        now.fresh k,
      );
      origin = λ k. claim-origin k (str_eq-cases k (port_key wid slot));
    }

    pub claim_pin-IsPinning :
        (in_use : ℕ → Bool) {c' : Claims}
        → claim_pin in_use wid slot port c ≡ ok c'
        → IsPinning os c'
    claim_pin-IsPinning in_use h = elim (claim_pin-eq-ok in_use wid slot port c h) [
      | inl (held, e) ↦ rw e (reclaim-IsPinning held)
      | inr (free, unused, e) ↦ rw e (claim-IsPinning free)
    ]

  -- The keys that the first pass has yet to write, before the slots of `rest`; `os` are those that
  -- it leaves to the second.
  abbrev pub pinning_keys : List String → List String → List String
  pinning_keys os rest = map (port_key wid) (pinned_slots pinned rest) ++ os

  pub pass_one-IsPinning :
      (in_use : ℕ → Bool)
      → IsExclusive file
      → IsExclusive pinned
      → (os rest : List String) → IsDistinct (pinning_keys os rest)
      → (c : Claims) {c' : Claims} → IsPinning (pinning_keys os rest) c
      → pass_one in_use wid pinned rest c ≡ ok c'
      → IsPinning os c'
  unfolding pass_one pinned_slots
  pass_one-IsPinning in_use old pins os [] d c now h = subst (IsPinning os) (cc) now
  pass_one-IsPinning in_use old pins os (slot ∷ rest) d c now h =
      elim (Option-cases (lookup slot pinned)) [
        | inl e ↦
            pass_one-IsPinning in_use old pins os rest (rw (e, pinned_slots) at d) c
              (rw (e, pinned_slots) at now) (rw (e, pass_one) at h)
        | inr (port, e) ↦
            let (once, d'') = rw (e, pinned_slots) at d in
            let (c₁, first, h') =
              >>=-eq-ok (claim_pin in_use wid slot port c) (pass_one in_use wid pinned rest)
                (rw (e, pass_one) at h) in
            pass_one-IsPinning in_use old pins os rest d'' c₁
              (claim_pin-IsPinning old pins (pinning_keys os rest) slot port c
                (rw (e, pinned_slots) at now) e once in_use first)
              h'
      ]
