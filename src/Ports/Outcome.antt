-- ===== src/Ports/Outcome.antt =====
-- How a call of `allocate` ends: what it grants, or what it raises and why.
use lib_python_worktree.Prelude.{
  ℕ, ◌+◌, ◌-◌, String, ◌≡◌, ◌≢◌, refl, ◌∙◌, inl, inr, Bool, true, false, some, List, [], ◌∷◌, map,
  arith, Option-cases,
}
use lib_python_worktree.Prelude.Results.{Result, ok, err, >>=-eq-err}
use lib_python_worktree.Prelude.Dict.{Dict, lookup, has_key-eq-true}
use lib_python_worktree.Prelude.Lists.{contains, has, range}
use lib_python_worktree.Ports.{
  AllocError, missing_result, Claims, port_key, holds, claim_pin, claim_free, pass_one, pass_two,
  claim_all, taken_by_others, allocate, save_claims,
}
use lib_python_worktree.Ports.Granted.{IsGood, claim_all-IsSound}
use lib_python_worktree.Ports.Others.{claim_all-KeepsOthers}
use lib_python_worktree.Ports.Covers.{claim_all-has_key, in_slot_order_lem}

module _ (in_use : ℕ → Bool) (shuffle : String → List ℕ → List ℕ) (low high : ℕ)
    (slots : List String) (wid : String) (pinned file : Dict ℕ) where
  -- What the caller of `allocate` may rely on after a success.
  pub record Grants (granted after : Dict ℕ) : Type 0 where
    pub served :
        (slot : String)
        → has slot slots ≡ true
        → (p : ℕ) × (lookup slot granted ≡ some p)
          × (lookup (port_key wid slot) after ≡ some p)
          × IsGood in_use low high pinned slot p
    pub others :
        (k : String) → has k (map (port_key wid) slots) ≡ false → lookup k after ≡ lookup k file

  -- An error other than `KeyError` leaves the file as it was.
  abbrev pub Ends : Result AllocError (Dict ℕ) × Dict ℕ → Type 0
  Ends (ok granted, after) = Grants granted after
  Ends (err e, after) = (after ≡ file) × ((slot : String) → e ≢ missing_result slot)

-- Neither pass looks up a result.
module _ (in_use : ℕ → Bool) (wid : String) (pinned : Dict ℕ) (t : String) where
  claim_pin-ne-missing :
      (slot : String) (port : ℕ) (c : Claims)
      → claim_pin in_use wid slot port c ≢ err (missing_result t)
  unfolding claim_pin holds
  claim_pin-ne-missing slot port c h = ground arith

  pass_one-ne-missing :
      (slots : List String) (c : Claims)
      → pass_one in_use wid pinned slots c ≢ err (missing_result t)
  unfolding pass_one
  pass_one-ne-missing [] c h = cc
  pass_one-ne-missing (slot ∷ rest) c h = elim (Option-cases (lookup slot pinned)) [
    | inl e ↦ pass_one-ne-missing rest c (rw (e, pass_one) at h)
    | inr (port, e) ↦
        elim (>>=-eq-err (claim_pin in_use wid slot port c) (pass_one in_use wid pinned rest)
          (rw (e, pass_one) at h)) [
            | inl q ↦ claim_pin-ne-missing slot port c q
            | inr (c₁, _, q) ↦ pass_one-ne-missing rest c₁ q
          ]
  ]

  module _ (shuffle : String → List ℕ → List ℕ) (all_ports : List ℕ) where
    claim_free-ne-missing :
        (slot : String) (c : Claims)
        → claim_free in_use shuffle wid all_ports slot c ≢ err (missing_result t)
    unfolding claim_free
    claim_free-ne-missing slot c h = ground arith

    pass_two-ne-missing :
        (slots : List String) (c : Claims)
        → pass_two in_use shuffle wid pinned all_ports slots c ≢ err (missing_result t)
    unfolding pass_two
    pass_two-ne-missing [] c h = cc
    pass_two-ne-missing (slot ∷ rest) c h = elim (Option-cases (lookup slot pinned)) [
      | inr (_, e) ↦ pass_two-ne-missing rest c (rw (e, pass_two) at h)
      | inl e ↦
          elim (>>=-eq-err (claim_free in_use shuffle wid all_ports slot c)
            (pass_two in_use shuffle wid pinned all_ports rest) (rw (e, pass_two) at h)) [
              | inl q ↦ claim_free-ne-missing slot c q
              | inr (c₁, _, q) ↦ pass_two-ne-missing rest c₁ q
            ]
    ]

claim_all-ne-missing :
    (in_use : ℕ → Bool) (shuffle : String → List ℕ → List ℕ) (wid : String) (pinned : Dict ℕ)
    (all_ports : List ℕ) (slots : List String) (file : Dict ℕ) (t : String)
    → claim_all in_use shuffle wid pinned all_ports slots file ≢ err (missing_result t)
unfolding claim_all
claim_all-ne-missing in_use shuffle wid pinned all_ports slots file t h =
    let start : Claims = record {
      allocated = file;
      taken = taken_by_others (map (port_key wid) slots) file;
      result = [];
    } in
    elim (>>=-eq-err (pass_one in_use wid pinned slots start)
      (pass_two in_use shuffle wid pinned all_ports slots) h) [
        | inl q ↦ pass_one-ne-missing in_use wid pinned t slots start q
        | inr (c₁, _, q) ↦ pass_two-ne-missing in_use wid pinned t shuffle all_ports slots c₁ q
      ]

module _ (in_use : ℕ → Bool) (shuffle : String → List ℕ → List ℕ)
    (shuffle_keeps : (s : String) (ps : List ℕ) (p : ℕ) → contains p (shuffle s ps) ≡ contains p ps)
    (low high : ℕ) (wid : String) (pinned file : Dict ℕ) where
  saved-Ends :
      (slots : List String) (r : Result AllocError Claims)
      → claim_all in_use shuffle wid pinned (range low (high + 1 - low)) slots file ≡ r
      → Ends in_use shuffle low high slots wid pinned file (save_claims slots file r)
  unfolding save_claims
  saved-Ends slots (err e) h = (
    refl,
    λ t q.
        claim_all-ne-missing in_use shuffle wid pinned (range low (high + 1 - low)) slots file t
          (cc),
  )
  saved-Ends slots (ok c) h =
      let (r, e, same) =
        in_slot_order_lem c.result slots
          (claim_all-has_key in_use shuffle wid pinned (range low (high + 1 - low)) slots file h) in
      rw e (record {
        served = λ slot m.
            let (p, q) = has_key-eq-true slot c.result (
              claim_all-has_key in_use shuffle wid pinned (range low (high + 1 - low)) slots file h
                slot m) in
            let (stored, good) =
              (claim_all-IsSound in_use low high pinned wid shuffle shuffle_keeps slots file
                  h).sound
                slot p q in
            (p, same slot m ∙ q, stored, good);
        others =
            (claim_all-KeepsOthers in_use shuffle wid pinned (range low (high + 1 - low)) slots file
              h).same;
      })

  -- If the shuffle keeps the candidates, a call of `allocate` either grants each slot a port, its pin
  -- or else a free port of the range, that stands at the slot's key in the file, with all keys but
  -- those of its slots as before; or it raises an allocation error, never a `KeyError`, and leaves
  -- the file as it was.
  pub allocate-Ends :
      (slots : List String)
      → Ends in_use shuffle low high slots wid pinned file
          (allocate in_use shuffle low high slots wid pinned file)
  unfolding allocate has
  allocate-Ends [] = record { served = λ slot m. cc; others = λ k m. refl }
  allocate-Ends (slot ∷ slots) = saved-Ends (slot ∷ slots) _ refl
