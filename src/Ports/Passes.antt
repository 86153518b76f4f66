-- ===== src/Ports/Passes.antt =====
-- Induction over the two passes of `allocate`: what each claim keeps, the passes keep.
use lib_python_worktree.Prelude.{
  ℕ, String, ◌≡◌, subst, Bool, true, none, some, List, [], ◌∷◌, arith, eq_refl, Option-cases, inl,
  inr,
}
use lib_python_worktree.Prelude.Results.{ok, >>=-eq-ok}
use lib_python_worktree.Prelude.Dict.{Dict, lookup}
use lib_python_worktree.Prelude.Lists.{has}
use lib_python_worktree.Ports.{Claims, claim_pin, claim_free, pass_one, pass_two}

has-here : (s : String) (ss : List String) → has s (s ∷ ss) ≡ true
unfolding has
has-here s ss = ground (arith, eq_refl s)

has-there : (t s : String) (ss : List String) → has t ss ≡ true → has t (s ∷ ss) ≡ true
unfolding has
has-there t s ss h = ground arith

module _ (in_use : ℕ → Bool) (wid : String) (pinned : Dict ℕ) (P : Claims → Type 0) where
  pub pass_one_keeps :
      (slots : List String)
      → ((slot : String) (port : ℕ) (c c' : Claims)
          → has slot slots ≡ true
          → lookup slot pinned ≡ some port
          → claim_pin in_use wid slot port c ≡ ok c'
          → P c
          → P c')
      → (c : Claims) {c' : Claims} → pass_one in_use wid pinned slots c ≡ ok c'
      → P c
      → P c'
  unfolding pass_one
  pass_one_keeps [] step c h p = subst P (cc) p
  pass_one_keeps (slot ∷ rest) step c h p = elim (Option-cases (lookup slot pinned)) [
    | inl e ↦
        pass_one_keeps rest (λ s q d d' m. step s q d d' (has-there s slot rest m)) c
          (rw (e, pass_one) at h) p
    | inr (port, e) ↦
        let (c₁, first, h') =
          >>=-eq-ok (claim_pin in_use wid slot port c) (pass_one in_use wid pinned rest)
            (rw (e, pass_one) at h) in
        pass_one_keeps rest (λ s q d d' m. step s q d d' (has-there s slot rest m)) c₁ h'
          (step slot port c c₁ (has-here slot rest) e first p)
  ]

  module _ (shuffle : String → List ℕ → List ℕ) (all_ports : List ℕ) where
    pub pass_two_keeps :
        (slots : List String)
        → ((slot : String) (c c' : Claims)
            → has slot slots ≡ true
            → lookup slot pinned ≡ none
            → claim_free in_use shuffle wid all_ports slot c ≡ ok c'
            → P c
            → P c')
        → (c : Claims) {c' : Claims} → pass_two in_use shuffle wid pinned all_ports slots c ≡ ok c'
        → P c
        → P c'
    unfolding pass_two
    pass_two_keeps [] step c h p = subst P (cc) p
    pass_two_keeps (slot ∷ rest) step c h p = elim (Option-cases (lookup slot pinned)) [
      | inr (_, e) ↦
          pass_two_keeps rest (λ s d d' m. step s d d' (has-there s slot rest m)) c
            (rw (e, pass_two) at h) p
      | inl e ↦
          let (c₁, first, h') =
            >>=-eq-ok (claim_free in_use shuffle wid all_ports slot c)
              (pass_two in_use shuffle wid pinned all_ports rest) (rw (e, pass_two) at h) in
          pass_two_keeps rest (λ s d d' m. step s d d' (has-there s slot rest m)) c₁ h'
            (step slot c c₁ (has-here slot rest) e first p)
    ]
