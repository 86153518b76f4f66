-- ===== src/Ports/Others.antt =====
-- `allocate` touches no entry but those of the slots that it is called for.
use lib_python_worktree.Prelude.{
  ℕ, String, ◌≡◌, refl, ◌∙◌, inl, inr, Bool, true, false, List, [], map, str_eq-cases,
}
use lib_python_worktree.Prelude.Results.{ok, >>=-eq-ok}
use lib_python_worktree.Prelude.Dict.{Dict, lookup, lookup-insert}
use lib_python_worktree.Prelude.Lists.{has, has-map}
use lib_python_worktree.Ports.{
  Claims, port_key, claim, reclaim, claim_pin, claim_free, pass_one, pass_two, claim_all,
  taken_by_others,
}
use lib_python_worktree.Ports.KeyLaws.{port_key-injective}
use lib_python_worktree.Ports.PassOne.{claim_pin-eq-ok}
use lib_python_worktree.Ports.Exclusive.{claim_free-eq-ok}
use lib_python_worktree.Ports.Passes.{pass_one_keeps, pass_two_keeps}

module _ (own : List String) (file : Dict ℕ) where
  pub record KeepsOthers (c : Claims) : Type 0 where
    pub same : (k : String) → has k own ≡ false → lookup k c.allocated ≡ lookup k file

module _ (in_use : ℕ → Bool) (wid : String) (own : List String) (file : Dict ℕ) where
  claim-KeepsOthers :
      (slot : String) (port : ℕ) (c : Claims)
      → has (port_key wid slot) own ≡ true
      → KeepsOthers own file c
      → KeepsOthers own file (claim (port_key wid slot) slot port c)
  unfolding claim
  claim-KeepsOthers slot port c mine s = record {
    same = λ k h. elim (str_eq-cases (port_key wid slot) k) [
      | inl e ↦ absurd (cc (rw e at mine))
      | inr ne ↦ rw (lookup-insert, ne) (s.same k h)
    ];
  }

  pub claim_pin-KeepsOthers :
      (slot : String) (port : ℕ) (c c' : Claims)
      → has (port_key wid slot) own ≡ true
      → claim_pin in_use wid slot port c ≡ ok c'
      → KeepsOthers own file c
      → KeepsOthers own file c'
  unfolding reclaim
  claim_pin-KeepsOthers slot port c c' mine h s = elim (claim_pin-eq-ok in_use wid slot port c h) [
    | inl (held, e) ↦ rw e (record { same = s.same })
    | inr (_, _, e) ↦ rw e (claim-KeepsOthers slot port c mine s)
  ]

  pub claim_free-KeepsOthers :
      (shuffle : String → List ℕ → List ℕ) (all_ports : List ℕ) (slot : String) (c c' : Claims)
      → has (port_key wid slot) own ≡ true
      → claim_free in_use shuffle wid all_ports slot c ≡ ok c'
      → KeepsOthers own file c
      → KeepsOthers own file c'
  claim_free-KeepsOthers shuffle all_ports slot c c' mine h s =
      let (p, _, _, _, e) = claim_free-eq-ok in_use shuffle wid all_ports slot c h in
      rw e (claim-KeepsOthers slot p c mine s)

module _ (in_use : ℕ → Bool) (shuffle : String → List ℕ → List ℕ) (wid : String) (pinned : Dict ℕ)
    (all_ports : List ℕ) where
  pub claim_all-KeepsOthers :
      (slots : List String) (file : Dict ℕ) {c : Claims}
      → claim_all in_use shuffle wid pinned all_ports slots file ≡ ok c
      → KeepsOthers (map (port_key wid) slots) file c
  unfolding claim_all
  claim_all-KeepsOthers slots file h =
      let start : Claims = record {
        allocated = file;
        taken = taken_by_others (map (port_key wid) slots) file;
        result = [];
      } in
      let (c₁, first, second) =
        >>=-eq-ok (pass_one in_use wid pinned slots start)
          (pass_two in_use shuffle wid pinned all_ports slots) h in
      pass_two_keeps in_use wid pinned (KeepsOthers (map (port_key wid) slots) file) shuffle
        all_ports slots
        (λ slot c c' m _.
          claim_free-KeepsOthers in_use wid (map (port_key wid) slots) file shuffle all_ports slot c
            c' (mine slot m))
        c₁ second
        (pass_one_keeps in_use wid pinned (KeepsOthers (map (port_key wid) slots) file) slots
          (λ slot port c c' m _.
            claim_pin-KeepsOthers in_use wid (map (port_key wid) slots) file slot port c c'
              (mine slot m))
          start first (record { same = λ k _. refl }))
    where
      mine :
          (slot : String)
          → has slot slots ≡ true
          → has (port_key wid slot) (map (port_key wid) slots) ≡ true
      mine slot m = has-map (port_key wid) (port_key-injective wid) slot slots ∙ m
