-- ===== src/Reconcile/Freed.antt =====
-- Which allocations `reconcile` frees.
use mathlib.Core.List.{◌++◌}
use lib_python_worktree.Prelude.{
  ℕ, String, ◌≡◌, ◌≢◌, inl, inr, refl, ◌∙◌, subst, true, false, ◌&&◌, ◌||◌, none, some, List, [],
  ◌∷◌, map, arith, eq_iff, eq_refl, if◌then◌else◌, str_eq-cases,
}
use lib_python_worktree.Prelude.Dict.{Dict, lookup, has_key, keys, lookup-without, has-keys}
use lib_python_worktree.Prelude.Lists.{has, has-append, has-map, IsDistinct}
use lib_python_worktree.Ports.{port_key, owner_id, is_plain}
use lib_python_worktree.Ports.KeyLaws.{port_key-injective, owner_id-port_key}
use lib_python_worktree.Ports.Release.{not-has-port_keys}
use lib_python_worktree.Store.{WorktreeRecord, Records}
use lib_python_worktree.Reconcile.{
  Outside, heal_backing, stale_slots, stale_port_keys, is_unowned, unowned, add_stale, to_free,
  reconcile,
}

-- Every tracked id is free of the separator.
abbrev pub ArePlain : Records → Type 0
ArePlain rs = (k : String) → has k (keys rs) ≡ true → is_plain k ≡ true

tracked :
    (rs : Records) (id : String) (rec : WorktreeRecord)
    → lookup id rs ≡ some rec
    → has_key id rs ≡ true
unfolding has_key
tracked rs id rec e = ground arith

module _ (o : Outside) where
  has-unowned :
      (rs : Records) (k : String) (ks : List String)
      → has k (unowned o rs ks) ≡ (has k ks && is_unowned o rs k)
  unfolding unowned has
  has-unowned rs k [] = refl
  has-unowned rs k (j ∷ ks) = elim (str_eq-cases k j) [
    | inl e ↦ rw e (ground (arith, has-unowned rs j ks, eq_refl j))
    | inr e ↦ ground (arith, has-unowned rs k ks)
  ]

  has-add_stale :
      (allocated : Dict ℕ) (k : String) (ks free : List String)
      → has k (add_stale o allocated ks free) ≡ (has k free || (has k ks && has_key k allocated))
  unfolding add_stale has
  has-add_stale allocated k [] free = ground arith
  has-add_stale allocated k (j ∷ ks) free = elim (str_eq-cases k j) [
    | inl e ↦ rw e (
        ground (
          arith,
          has-add_stale allocated j ks free,
          has-add_stale allocated j ks (free ++ j ∷ []),
          has-append j free (j ∷ []),
          eq_refl j,
        ))
    | inr e ↦ ground (
      arith,
      has-add_stale allocated k ks free,
      has-add_stale allocated k ks (free ++ j ∷ []),
      has-append k free (j ∷ []),
    )
  ]

  -- A key of ports.yaml goes exactly where its owner is not tracked, or it is a slot that was pruned.
  lookup-reconcile :
      (rs : Records) (allocated : Dict ℕ) (k : String)
      → lookup k (reconcile o rs allocated).1.0
        ≡ (if is_unowned o rs k || has k (stale_port_keys o rs) then none else lookup k allocated)
  unfolding reconcile to_free has_key
  lookup-reconcile rs allocated k = ground (
    arith,
    lookup-without (λ j. has j (to_free o rs allocated)) k allocated,
    has-add_stale allocated k (stale_port_keys o rs) (unowned o rs (keys allocated)),
    has-unowned rs k (keys allocated),
    has-keys k allocated,
  )

  stale_port_keys-untracked :
      (rs : Records) (id slot : String)
      → ArePlain rs
      → is_plain id ≡ true
      → has id (keys rs) ≡ false
      → has (port_key id slot) (stale_port_keys o rs) ≡ false
  unfolding stale_port_keys has
  stale_port_keys-untracked [] id slot plain p absent = refl
  stale_port_keys-untracked ((j, r) ∷ rs) id slot plain p absent =
      let other : j ≢ id = λ e. ground (arith, eq_iff id j) in
      ground (
        arith,
        has-append (port_key id slot) (map (port_key j) (stale_slots o (heal_backing o r)))
            (stale_port_keys o rs),
        not-has-port_keys j id slot (stale_slots o (heal_backing o r))
            (plain j (ground (arith, eq_refl j))) p other,
        stale_port_keys-untracked rs id slot (λ k m. plain k (ground arith)) p (ground arith),
      )

  stale_port_keys-tracked :
      (rs : Records) (id slot : String) (rec : WorktreeRecord)
      → ArePlain rs
      → IsDistinct (keys rs)
      → lookup id rs ≡ some rec
      → has (port_key id slot) (stale_port_keys o rs)
        ≡ has slot (stale_slots o (heal_backing o rec))
  unfolding stale_port_keys has lookup
  stale_port_keys-tracked [] id slot rec plain d e = absurd (cc)
  stale_port_keys-tracked ((j, r) ∷ rs) id slot rec plain (fresh, d) e =
      let stale = stale_slots o (heal_backing o r) in
      let rest : ArePlain rs = λ k m. plain k (ground arith) in
      has-append (port_key id slot) (map (port_key j) stale) (stale_port_keys o rs)
      ∙ elim (str_eq-cases j id) [
        | inl same ↦
            let mine : r ≡ rec = ground (arith, eq_iff j id) in
            let plain_id : is_plain id ≡ true =
              subst (λ x. is_plain x ≡ true) same (plain j (ground (arith, eq_refl j))) in
            let none_left =
              stale_port_keys-untracked rs id slot rest plain_id
                (subst (λ x. has x (keys rs) ≡ false) same fresh) in
            rw (← mine, same, none_left, has-map (port_key id) (port_key-injective id) slot stale)
              (ground arith)
        | inr differ ↦
            let there : lookup id rs ≡ some rec = ground arith in
            rw
              (
                not-has-port_keys j id slot stale (plain j (ground (arith, eq_refl j)))
                    (plain id (ground (arith, has-keys id rs, tracked rs id rec there)))
                    (λ q. ground (arith, eq_iff j id)),
                stale_port_keys-tracked rs id slot rec rest d there,
              )
              refl
      ]

  -- If the tracked ids are free of the separator, `reconcile` leaves a tracked worktree the port of
  -- each slot but those that are stale: undeclared by its contract, while the record has no pid.
  pub lookup-reconcile_tracked :
      (rs : Records) (allocated : Dict ℕ) (id slot : String) (rec : WorktreeRecord)
      → ArePlain rs
      → IsDistinct (keys rs)
      → lookup id rs ≡ some rec
      → lookup (port_key id slot) (reconcile o rs allocated).1.0 ≡ (
          if has slot (stale_slots o (heal_backing o rec))
          then none
          else lookup (port_key id slot) allocated)
  unfolding is_unowned
  lookup-reconcile_tracked rs allocated id slot rec plain d e =
      let known = tracked rs id rec e in
      rw
        (
          lookup-reconcile rs allocated (port_key id slot),
          stale_port_keys-tracked rs id slot rec plain d e,
          owner_id-port_key id slot (plain id (has-keys id rs ∙ known)),
          known,
        )
        refl

  -- A key of ports.yaml whose owner is not tracked is freed; a key without a separator is its own
  -- owner.
  pub lookup-reconcile_untracked :
      (rs : Records) (allocated : Dict ℕ) (k : String)
      → has_key (owner_id k) rs ≡ false
      → lookup k (reconcile o rs allocated).1.0 ≡ none
  unfolding is_unowned
  lookup-reconcile_untracked rs allocated k e = rw (lookup-reconcile rs allocated k, e) refl
