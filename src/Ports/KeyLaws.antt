-- ===== src/Ports/KeyLaws.antt =====
-- The keys of ports.yaml tell owners and slots apart.
use Prim.Native.String.{◌++◌}
use text.Mathlib.TextLemmas.{nil-append, cons-append, append_assoc, append_cancel_left}
use text.Mathlib.TextEquality.{Char-path}
use lib_python_worktree.Prelude.{
  String, ◌≡◌, refl, sym, ◌∙◌, ap, ◌≢◌, true, false, arith, inl, inr, Bool-cases,
}
use lib_python_worktree.Ports.Keys.{key_sep, port_key, has_prefix, owner_id, is_plain}

pub port_key-injective : (wid s t : String) → port_key wid s ≡ port_key wid t → s ≡ t
unfolding port_key
port_key-injective wid s t h =
    append_cancel_left key_sep s t (append_cancel_left wid (key_sep ++ s) (key_sep ++ t) h)

-- The owner of a key is the worktree id in front of its first separator.
pub owner_id-port_key :
    (wid slot : String) → is_plain wid ≡ true → owner_id (port_key wid slot) ≡ wid
unfolding owner_id port_key is_plain
owner_id-port_key String.[] slot h = rw (nil-append (key_sep ++ slot), cons-append)
owner_id-port_key (String.◌∷◌ c w) slot h =
    rw (cons-append c w (key_sep ++ slot)) (ground (arith, owner_id-port_key w slot))

-- A key that starts with a worktree's prefix belongs to that worktree.
pub owner_id_of_prefix :
    (wid k : String) → is_plain wid ≡ true → has_prefix (wid ++ key_sep) k ≡ true → owner_id k ≡ wid
unfolding owner_id has_prefix is_plain
owner_id_of_prefix String.[] String.[] h p = refl
owner_id_of_prefix String.[] (String.◌∷◌ d k) h p =
    let q : has_prefix key_sep (String.◌∷◌ d k) ≡ true = p in ground arith
owner_id_of_prefix (String.◌∷◌ c w) String.[] h p =
    let q : has_prefix (String.◌∷◌ c (w ++ key_sep)) String.[] ≡ true = rw cons-append at p in cc
owner_id_of_prefix (String.◌∷◌ c w) (String.◌∷◌ d k) h p =
    let q : has_prefix (String.◌∷◌ c (w ++ key_sep)) (String.◌∷◌ d k) ≡ true =
      rw cons-append at p in
    ground (arith, owner_id_of_prefix w k, Char-path c d)

pub has_prefix-append : (p k : String) → has_prefix p (p ++ k) ≡ true
unfolding has_prefix
has_prefix-append String.[] k = refl
has_prefix-append (String.◌∷◌ c p) k =
    rw (cons-append c p k) (ground (arith, has_prefix-append p k))

-- `release` by prefix takes the keys of its own worktree.
pub has_prefix-port_key_self :
    (wid slot : String) → has_prefix (wid ++ key_sep) (port_key wid slot) ≡ true
unfolding port_key
has_prefix-port_key_self wid slot =
    rw (← append_assoc wid key_sep slot) (has_prefix-append (wid ++ key_sep) slot)

-- `release` by prefix takes no key of another worktree.
pub has_prefix-port_key_ne :
    (wid other slot : String)
    → is_plain wid ≡ true
    → is_plain other ≡ true
    → wid ≢ other
    → has_prefix (wid ++ key_sep) (port_key other slot) ≡ false
has_prefix-port_key_ne wid other slot h k ne =
    elim (Bool-cases (has_prefix (wid ++ key_sep) (port_key other slot))) [
      | inl p ↦ absurd (
          ne (
            sym (owner_id_of_prefix wid (port_key other slot) h p)
            ∙ owner_id-port_key other slot k))
      | inr p ↦ p
    ]

-- Keys of two worktrees, or of two slots, are different.
pub port_key_ne :
    (wid other s t : String)
    → is_plain wid ≡ true
    → is_plain other ≡ true
    → wid ≢ other
    → port_key wid s ≢ port_key other t
port_key_ne wid other s t h k ne e =
    ne (sym (owner_id-port_key wid s h) ∙ ap owner_id e ∙ owner_id-port_key other t k)
