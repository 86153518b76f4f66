-- ===== src/Ports/Settled.antt =====
-- What the two passes of `allocate` keep: the keys that the call has yet to write are the open
-- ones, and the ports of all others are marked as taken and stand apart.
use lib_python_worktree.Prelude.{
  ℕ, String, ◌≡◌, refl, true, false, some, List, [], ◌∷◌, arith, eq_iff,
}
use lib_python_worktree.Prelude.Dict.{Dict, lookup, lookup-insert}
use lib_python_worktree.Prelude.Lists.{contains, has}
use lib_python_worktree.Ports.{Claims, claim, reclaim}

-- No port stands at two keys.
pub record IsExclusive (d : Dict ℕ) : Type 0 where
  pub apart : (j k : String) (p : ℕ) → lookup j d ≡ some p → lookup k d ≡ some p → j ≡ k

-- `os` are the open keys.
pub record IsSettled (os : List String) (c : Claims) : Type 0 where
  pub marked :
      (k : String) (p : ℕ)
      → has k os ≡ false
      → lookup k c.allocated ≡ some p
      → contains p c.taken ≡ true
  pub apart :
      (j k : String) (p : ℕ)
      → has j os ≡ false
      → has k os ≡ false
      → lookup j c.allocated ≡ some p
      → lookup k c.allocated ≡ some p
      → j ≡ k

-- With no open key left, the mapping is exclusive.
pub IsSettled-IsExclusive : {c : Claims} → IsSettled [] c → IsExclusive c.allocated
unfolding has
IsSettled-IsExclusive s = record { apart = λ j k p. s.apart j k p refl refl }

module _ (os : List String) (key slot : String) (port : ℕ) (c : Claims)
    (s : IsSettled (key ∷ os) c) where
  -- Writing an open key at a port that is not taken settles that key.
  pub claim-IsSettled : contains port c.taken ≡ false → IsSettled os (claim key slot port c)
  unfolding claim has contains
  claim-IsSettled fresh = record {
    marked = λ k p h e.
        ground
          (arith, lookup-insert key k port c.allocated, eq_iff key k, eq_iff k key, s.marked k p);
    apart = λ j k p hj hk ej ek. ground (
      arith,
      lookup-insert key j port c.allocated,
      lookup-insert key k port c.allocated,
      eq_iff key j,
      eq_iff key k,
      eq_iff j key,
      eq_iff k key,
      s.marked j p,
      s.marked k p,
      s.apart j k p,
    );
  }

  -- An open key that already holds its port is settled if no settled key holds that port.
  pub reclaim-IsSettled :
      lookup key c.allocated ≡ some port
      → ((k : String) → has k os ≡ false → lookup k c.allocated ≡ some port → k ≡ key)
      → IsSettled os (reclaim slot port c)
  unfolding reclaim has contains
  reclaim-IsSettled held only = record {
    marked = λ k p h e. ground (arith, eq_iff key k, eq_iff k key, s.marked k p);
    apart = λ j k p hj hk ej ek.
        ground (arith, eq_iff j key, eq_iff k key, only j, only k, s.apart j k p);
  }

-- A mapping with one entry is exclusive.
pub single-IsExclusive : (k : String) (p : ℕ) → IsExclusive ((k, p) ∷ [])
unfolding lookup
single-IsExclusive k p = record {
  apart = λ i j q e f. ground (arith, eq_iff i k, eq_iff j k, eq_iff k i, eq_iff k j);
}
