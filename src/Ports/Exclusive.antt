-- ===== src/Ports/Exclusive.antt =====
-- `allocate` keeps it that no port stands at two keys of ports.yaml.
use lib_python_worktree.Prelude.{
  ℕ, ◌+◌, ◌-◌, String, ◌≡◌, refl, sym, ◌∙◌, subst, inl, inr, Bool, true, false, some, List, [], ◌∷◌,
  map, arith, eq_iff, Option-cases,
}
use lib_python_worktree.Prelude.Results.{Result, ok, err, >>=-eq-ok}
use lib_python_worktree.Prelude.Dict.{Dict, lookup}
use lib_python_worktree.Prelude.Lists.{contains, has, IsDistinct, range}
use lib_python_worktree.Ports.{
  AllocError, Claims, port_key, claim, claim_free, pass_one, pass_two, claim_all, first_free,
  taken_by_others, allocate, save_claims,
}
use lib_python_worktree.Ports.KeyLaws.{port_key-injective}
use lib_python_worktree.Ports.Split.{free_slots, has-split, IsDistinct-split}
use lib_python_worktree.Ports.Settled.{
  IsExclusive, IsSettled, IsSettled-IsExclusive, claim-IsSettled,
}
use lib_python_worktree.Ports.PassOne.{IsPinning, pinning_keys, pass_one-IsPinning}

pub first_free_lem :
    (in_use : ℕ → Bool) (taken ports : List ℕ) (p : ℕ)
    → first_free in_use taken ports ≡ some p
    → (contains p taken ≡ false) × (in_use p ≡ false) × (contains p ports ≡ true)
unfolding first_free contains
first_free_lem in_use taken [] p h = cc
first_free_lem in_use taken (q ∷ ports) p h = ground (arith, first_free_lem in_use taken ports p)

module _ (in_use : ℕ → Bool) (shuffle : String → List ℕ → List ℕ) (wid : String) where
  pub claim_free-eq-ok :
      (all_ports : List ℕ) (slot : String) (c : Claims) {c' : Claims}
      → claim_free in_use shuffle wid all_ports slot c ≡ ok c'
      → (p : ℕ) × (contains p c.taken ≡ false)
        × (in_use p ≡ false)
        × (contains p (shuffle slot all_ports) ≡ true)
        × (c' ≡ claim (port_key wid slot) slot p c)
  unfolding claim_free
  claim_free-eq-ok all_ports slot c h =
      elim (Option-cases (first_free in_use c.taken (shuffle slot all_ports))) [
        | inl e ↦ absurd (cc (rw (e, claim_free) at h))
        | inr (p, e) ↦
            let (free, unused, drawn) =
              first_free_lem in_use c.taken (shuffle slot all_ports) p e in
            (p, free, unused, drawn, cc (rw (e, claim_free) at h))
      ]

  module _ (pinned : Dict ℕ) (all_ports : List ℕ) where
    pub pass_two-IsSettled :
        (rest : List String) (c : Claims) {c' : Claims}
        → IsSettled (map (port_key wid) (free_slots pinned rest)) c
        → pass_two in_use shuffle wid pinned all_ports rest c ≡ ok c'
        → IsSettled [] c'
    unfolding pass_two free_slots
    pass_two-IsSettled [] c s h = subst (IsSettled []) (cc) s
    pass_two-IsSettled (slot ∷ rest) c s h = elim (Option-cases (lookup slot pinned)) [
      | inr (_, e) ↦ pass_two-IsSettled rest c (rw (e, free_slots) at s) (rw (e, pass_two) at h)
      | inl e ↦
          let (c₁, first, h') =
            >>=-eq-ok (claim_free in_use shuffle wid all_ports slot c)
              (pass_two in_use shuffle wid pinned all_ports rest) (rw (e, pass_two) at h) in
          let (p, free, _, _, e₁) = claim_free-eq-ok all_ports slot c first in
          pass_two-IsSettled rest c₁
            (rw e₁ (
              claim-IsSettled (map (port_key wid) (free_slots pinned rest)) (port_key wid slot) slot
                p c (rw (e, free_slots) at s) free))
            h'
    ]

taken_by_others-marks :
    (own : List String) (k : String) (p : ℕ) (d : Dict ℕ)
    → has k own ≡ false
    → lookup k d ≡ some p
    → contains p (taken_by_others own d) ≡ true
unfolding taken_by_others contains lookup
taken_by_others-marks own k p [] h e = cc
taken_by_others-marks own k p ((j, q) ∷ d) h e =
    ground (arith, taken_by_others-marks own k p d, eq_iff j k)

module _ (wid : String) (pinned file : Dict ℕ) (slots : List String) where
  abbrev first_claims : Claims
  first_claims = record {
    allocated = file;
    taken = taken_by_others (map (port_key wid) slots) file;
    result = [];
  }

  abbrev free_keys : List String
  free_keys = map (port_key wid) (free_slots pinned slots)

  IsPinning-start :
      IsExclusive file
      → IsPinning wid pinned file (pinning_keys wid pinned file free_keys slots) first_claims
  IsPinning-start old = record {
    settled = record {
      marked = λ k p h e.
          taken_by_others-marks (map (port_key wid) slots) k p file
            (sym (has-split (port_key wid) pinned k slots) ∙ h) e;
      apart = λ j k p _ _. old.apart j k p;
    };
    fresh = λ k _. refl;
    origin = λ k. inl refl;
  }

  module _ (in_use : ℕ → Bool) (shuffle : String → List ℕ → List ℕ) (all_ports : List ℕ) where
    pub claim_all-IsExclusive :
        IsDistinct slots
        → IsExclusive file
        → IsExclusive pinned
        → {c : Claims} → claim_all in_use shuffle wid pinned all_ports slots file ≡ ok c
        → IsExclusive c.allocated
    unfolding claim_all
    claim_all-IsExclusive d old pins h =
        let (c₁, first, second) =
          >>=-eq-ok (pass_one in_use wid pinned slots first_claims)
            (pass_two in_use shuffle wid pinned all_ports slots) h in
        let pinned_now =
          pass_one-IsPinning wid pinned file in_use old pins free_keys slots
            (IsDistinct-split (port_key wid) (port_key-injective wid) pinned slots d) first_claims
            (IsPinning-start old) first in
        IsSettled-IsExclusive (
          pass_two-IsSettled in_use shuffle wid pinned all_ports slots c₁ pinned_now.settled second)

-- Whatever the outcome, a call of `allocate` for distinct slots, with distinct pins, leaves a
-- ports.yaml in which no port stands at two keys, if it found one.
pub allocate-IsExclusive :
    (in_use : ℕ → Bool) (shuffle : String → List ℕ → List ℕ) (low high : ℕ) (slots : List String)
    (wid : String) (pinned file : Dict ℕ)
    → IsDistinct slots
    → IsExclusive pinned
    → IsExclusive file
    → IsExclusive (allocate in_use shuffle low high slots wid pinned file).1
unfolding allocate save_claims
allocate-IsExclusive in_use shuffle low high [] wid pinned file d pins old = old
allocate-IsExclusive in_use shuffle low high (slot ∷ slots) wid pinned file d pins old =
    saved (claim_all in_use shuffle wid pinned (range low (high + 1 - low)) (slot ∷ slots) file)
      (λ c.
        claim_all-IsExclusive wid pinned file (slot ∷ slots) in_use shuffle
          (range low (high + 1 - low)) d old pins {c = c})
  where
    saved :
        (r : Result AllocError Claims)
        → ((c : Claims) → r ≡ ok c → IsExclusive c.allocated)
        → IsExclusive (save_claims (slot ∷ slots) file r).1
    saved (ok c) h = h c refl
    saved (err e) h = old
