-- ===== src/Ports/Release.antt =====
-- `PortAllocator.release`: whose entries go, and whose stay.
use lib_python_worktree.Prelude.{
  ℕ, String, ◌≡◌, ◌≢◌, true, false, Option, none, some, List, [], ◌∷◌, map, arith, refl, eq_iff,
  if◌then◌else◌,
}
use lib_python_worktree.Prelude.Dict.{Dict, lookup, lookup-without, without-without}
use lib_python_worktree.Prelude.Lists.{has, has-map}
use Prim.Native.String.{◌++◌}
use lib_python_worktree.Ports.{key_sep, has_prefix, is_plain, port_key, release}
use lib_python_worktree.Ports.KeyLaws.{
  port_key-injective, port_key_ne, has_prefix-port_key_self, has_prefix-port_key_ne,
}

pub not-has-port_keys :
    (wid other slot : String) (slots : List String)
    → is_plain wid ≡ true
    → is_plain other ≡ true
    → wid ≢ other
    → has (port_key other slot) (map (port_key wid) slots) ≡ false
unfolding has
not-has-port_keys wid other slot [] h k ne = refl
not-has-port_keys wid other slot (s ∷ slots) h k ne = ground (
  arith,
  not-has-port_keys wid other slot slots h k ne,
  port_key_ne wid other s slot h k ne,
  eq_iff (port_key other slot) (port_key wid s),
)

module _ (wid : String) (file : Dict ℕ) where
  -- Releasing a worktree removes the entry of each of its slots.
  pub lookup-release_self :
      (slot : String) → lookup (port_key wid slot) (release wid none file) ≡ none
  unfolding release
  lookup-release_self slot = ground (
    arith,
    lookup-without (has_prefix (wid ++ key_sep)) (port_key wid slot) file,
    has_prefix-port_key_self wid slot,
  )

  -- Whatever slots are named, releasing a worktree leaves the entries of every other worktree as
  -- they were, for ids that hold no separator.
  pub lookup-release_other :
      (slots : Option (List String)) (other slot : String)
      → is_plain wid ≡ true
      → is_plain other ≡ true
      → wid ≢ other
      → lookup (port_key other slot) (release wid slots file) ≡ lookup (port_key other slot) file
  unfolding release
  lookup-release_other none other slot h k ne = ground (
    arith,
    lookup-without (has_prefix (wid ++ key_sep)) (port_key other slot) file,
    has_prefix-port_key_ne wid other slot h k ne,
  )
  lookup-release_other (some slots) other slot h k ne = ground (
    arith,
    lookup-without (λ k. has k (map (port_key wid) slots)) (port_key other slot) file,
    not-has-port_keys wid other slot slots h k ne,
  )

  -- With `slots` given, the entries of exactly the named slots go.
  pub lookup-release_slots :
      (slots : List String) (slot : String)
      → lookup (port_key wid slot) (release wid (some slots) file)
        ≡ (if has slot slots then none else lookup (port_key wid slot) file)
  unfolding release
  lookup-release_slots slots slot = ground (
    arith,
    lookup-without (λ k. has k (map (port_key wid) slots)) (port_key wid slot) file,
    has-map (port_key wid) (port_key-injective wid) slot slots,
  )

  -- A second release with the same arguments changes nothing.
  pub release-release :
      (slots : Option (List String))
      → release wid slots (release wid slots file) ≡ release wid slots file
  unfolding release
  release-release none = without-without _ file
  release-release (some slots) = without-without _ file
