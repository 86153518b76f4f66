-- ===== src/Teardown/Exempt.antt =====
-- Which entries of `git status` do not block a removal.
use Prim.Native.Char.{Char, code}
use Prim.Native.String.{◌++◌}
use text.Mathlib.TextLemmas.{nil-append, cons-append}
use text.Mathlib.TextEquality.{Char-path, eq_iff}
use lib_python_worktree.Prelude.{
  ℕ, String, ◌↔◌, ◌⊎◌, ◌≡◌, refl, sym, subst, ap, ◌∙◌, Bool, true, false, ◌&&◌, ◌==◌, arith,
}
use lib_python_worktree.Prelude.Texts.{has_prefix, drop_chars, char_count}
use lib_python_worktree.Teardown.Dirt.{is_exempt_untracked, in_contract_dir, contract_dir}
use lib_python_worktree.Ports.KeyLaws.{has_prefix-append}

both : (a b : Bool) → a && b ≡ true → (a ≡ true) × (b ≡ true)
both a b h = ground arith

same_code : (m n : ℕ) → m == n ≡ true → m ≡ n
same_code m n h = ground arith

has_prefix-split : (p k : String) → has_prefix p k ≡ true → (t : String) × (k ≡ p ++ t)
unfolding has_prefix
has_prefix-split String.[] k h = (k, sym (nil-append k))
has_prefix-split (String.◌∷◌ c p) String.[] h = ground arith
has_prefix-split (String.◌∷◌ c p) (String.◌∷◌ d k) h =
    let (same, more) = both (code c == code d) (has_prefix p k) h in
    let (t, e) = has_prefix-split p k more in
    (
      t,
      rw (cons-append c p t, Char-path c d (same_code (code c) (code d) same))
          (ap (String.◌∷◌ d) e),
    )

-- A text starts with `p` exactly where it is `p` and some more.
has_prefix_iff : (p k : String) → (has_prefix p k ≡ true) ↔ ((t : String) × (k ≡ p ++ t))
has_prefix_iff p k = (has_prefix-split p k, λ h. rw (h.1) (has_prefix-append p (h.0)))

-- The path of a contract directory, or of what is below it.
abbrev pub IsContractPath : String → Type 0
IsContractPath path = (path ≡ contract_dir) ⊎ ((t : String) × (path ≡ ".seretos/" ++ t))

in_contract_dir_iff : (path : String) → (in_contract_dir path ≡ true) ↔ IsContractPath path
unfolding in_contract_dir
in_contract_dir_iff path = ground (arith, has_prefix_iff ".seretos/" path, eq_iff path contract_dir)

marked : (t : String) → "??" ++ t ≡ String.◌∷◌ "?" (String.◌∷◌ "?" t)
marked t =
    cons-append "?" "?" t
    ∙ ap (String.◌∷◌ "?") (cons-append "?" "" t ∙ ap (String.◌∷◌ "?") (nil-append t))

is_exempt_untracked-marked :
    (c : Char) (path : String)
    → is_exempt_untracked ("??" ++ String.◌∷◌ c path) ≡ in_contract_dir path
unfolding is_exempt_untracked has_prefix drop_chars char_count
is_exempt_untracked-marked c path = rw (marked (String.◌∷◌ c path)) (ground arith)

not_exempt-short : is_exempt_untracked "??" ≡ false
unfolding is_exempt_untracked char_count
not_exempt-short = refl

is_exempt_untracked-prefix :
    (entry : String) → is_exempt_untracked entry ≡ true → has_prefix "??" entry ≡ true
unfolding is_exempt_untracked
is_exempt_untracked-prefix entry h = ground arith

-- An entry of `git status` is exempt exactly where it is `??`, one more character and the path of the
-- contract directory or of something below it.
pub is_exempt_untracked_iff :
    (entry : String)
    → (is_exempt_untracked entry ≡ true)
      ↔ ((c : Char) × (path : String) × (entry ≡ "??" ++ String.◌∷◌ c path) × IsContractPath path)
is_exempt_untracked_iff entry = (
  forward entry,
  λ (c, path, e, p). rw e (is_exempt_untracked-marked c path ∙ (in_contract_dir_iff path).1 p),
)
  where
    named :
        (t : String)
        → is_exempt_untracked ("??" ++ t) ≡ true
        → (c : Char) × (path : String) × ("??" ++ t ≡ "??" ++ String.◌∷◌ c path)
          × IsContractPath path
    named String.[] h = ground (arith, not_exempt-short)
    named (String.◌∷◌ c path) h =
        (c, path, refl, (in_contract_dir_iff path).0 (sym (is_exempt_untracked-marked c path) ∙ h))

    forward :
        (entry : String)
        → is_exempt_untracked entry ≡ true
        → (c : Char) × (path : String) × (entry ≡ "??" ++ String.◌∷◌ c path) × IsContractPath path
    forward entry h =
        let (t, e) = has_prefix-split "??" entry (is_exempt_untracked-prefix entry h) in
        subst
          (λ x.
            is_exempt_untracked x ≡ true
            → (c : Char) × (path : String) × (x ≡ "??" ++ String.◌∷◌ c path) × IsContractPath path)
          (sym e) (named t) h
