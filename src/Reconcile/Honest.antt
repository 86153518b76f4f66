-- ===== src/Reconcile/Honest.antt =====
-- The detail of a stop stands only beside the status that it explains.
use lib_python_worktree.Prelude.{
  ℕ, String, ◌≡◌, ◌⊎◌, inl, inr, refl, subst, Option, none, some, List, [], ◌∷◌, ◌||◌, str_eq,
  arith, Bool-cases,
}
use lib_python_worktree.Prelude.Dict.{Dict, lookup, insert}
use lib_python_worktree.Store.{WorktreeRecord, Records}
use lib_python_worktree.Adopt.{Block, or_empty}
use lib_python_worktree.Reconcile.Heal.{
  Healing, blocks_from, is_spoilt, heal_record, heal_path, heal_block, heal_blocks, heal_roots,
  heal_branches,
}
use lib_python_worktree.Reconcile.Healed.{some-injective}
use lib_python_worktree.Reconcile.{
  Outside, is_mislabelled, heal_backing, prune_ports, mark_orphaned, mark_stopped, sweep_role,
  sweep_roles, sweep_dead, reconcile_record, reconcile_records, any_changed, save_changed,
  reconcile,
}

-- `stop_detail is not None` implies `status == "stop_incomplete"`.
abbrev pub IsHonest : WorktreeRecord → Type 0
IsHonest r = (r.stop_detail ≡ none) ⊎ (r.status ≡ "stop_incomplete")

abbrev pub AllHonest : Records → Type 0
AllHonest [] = Unit
AllHonest ((_, r) ∷ rs) = IsHonest r × AllHonest rs

module _ (o : Outside) where
  mark_stopped-IsHonest : (r : WorktreeRecord) → IsHonest r → IsHonest (mark_stopped o r)
  unfolding mark_stopped
  mark_stopped-IsHonest r h =
      elim (Bool-cases (str_eq r.status "orphaned" || str_eq r.status "stop_incomplete")) [
        | inl e ↦ rw e h
        | inr e ↦ rw e (inl refl)
      ]

  sweep_roles-IsHonest :
      (roles : List String) (r : WorktreeRecord) → IsHonest r → IsHonest (sweep_roles o roles r)
  unfolding sweep_roles sweep_role
  sweep_roles-IsHonest [] r h = h
  sweep_roles-IsHonest (role ∷ roles) r h =
      sweep_roles-IsHonest roles (sweep_role o role r) (mark_stopped-IsHonest _ h)

  mark_orphaned-IsHonest : (r : WorktreeRecord) → IsHonest r → IsHonest (mark_orphaned o r)
  unfolding mark_orphaned
  mark_orphaned-IsHonest r h = elim (Bool-cases (o.exists r.path)) [
    | inl e ↦ rw e h
    | inr e ↦ elim (Bool-cases (str_eq r.status "orphaned")) [
      | inl s ↦ rw (e, s) h
      | inr s ↦ rw (e, s) (inl refl)
    ]
  ]

  heal_backing-IsHonest : (r : WorktreeRecord) → IsHonest r → IsHonest (heal_backing o r)
  unfolding heal_backing
  heal_backing-IsHonest r h = elim (Bool-cases (is_mislabelled o r)) [
    | inl e ↦ rw e h
    | inr e ↦ rw e h
  ]

  reconcile_record-IsHonest : (r : WorktreeRecord) → IsHonest r → IsHonest (reconcile_record o r)
  unfolding reconcile_record sweep_dead prune_ports
  reconcile_record-IsHonest r h =
      sweep_roles-IsHonest _ _ (mark_orphaned-IsHonest _ (heal_backing-IsHonest r h))

  reconcile_records-AllHonest : (rs : Records) → AllHonest rs → AllHonest (reconcile_records o rs)
  unfolding reconcile_records
  reconcile_records-AllHonest [] h = tt
  reconcile_records-AllHonest ((id, r) ∷ rs) (h, hs) =
      (reconcile_record-IsHonest r h, reconcile_records-AllHonest rs hs)

-- Setting a record that is honest.
insert-AllHonest :
    (id : String) (r : WorktreeRecord) (rs : Records)
    → IsHonest r
    → AllHonest rs
    → AllHonest (insert id r rs)
unfolding insert
insert-AllHonest id r [] h hs = (h, tt)
insert-AllHonest id r ((k, s) ∷ rs) h (hs, hss) = elim (Bool-cases (str_eq k id)) [
  | inl e ↦ rw e (h, hss)
  | inr e ↦ rw e (hs, insert-AllHonest id r rs h hss)
]

lookup-IsHonest :
    (id : String) (r : WorktreeRecord) (rs : Records)
    → lookup id rs ≡ some r
    → AllHonest rs
    → IsHonest r
unfolding lookup
lookup-IsHonest id r [] e h = absurd (cc)
lookup-IsHonest id r ((k, s) ∷ rs) e (h, hs) = elim (Bool-cases (str_eq k id)) [
  | inl hit ↦ subst IsHonest (some-injective s r (ground arith)) h
  | inr other ↦ lookup-IsHonest id r rs (ground arith) hs
]

module _ (h : Healing) where
  heal_record-AllHonest :
      (live id : String) (rec : Option WorktreeRecord) (rs : Records)
      → lookup id rs ≡ rec
      → AllHonest rs
      → AllHonest (heal_record h live id rec rs)
  unfolding heal_record
  heal_record-AllHonest live id none rs e hs = hs
  heal_record-AllHonest live id (some rec) rs e hs = elim (Bool-cases (is_spoilt h live rec)) [
    | inl q ↦ rw q (
        insert-AllHonest id (record rec { branch = some live }) rs (lookup-IsHonest id rec rs e hs)
          hs)
    | inr q ↦ rw q hs
  ]

  heal_path-AllHonest :
      (live : String) (id : Option String) (rs : Records)
      → AllHonest rs
      → AllHonest (heal_path h live id rs)
  unfolding heal_path
  heal_path-AllHonest live none rs hs = hs
  heal_path-AllHonest live (some id) rs hs = heal_record-AllHonest live id (lookup id rs) rs refl hs

  heal_blocks-AllHonest :
      (by_path : Dict String) (bs : List Block) (rs : Records)
      → AllHonest rs
      → AllHonest (heal_blocks h by_path bs rs)
  unfolding heal_blocks heal_block
  heal_blocks-AllHonest by_path [] rs hs = hs
  heal_blocks-AllHonest by_path (b ∷ bs) rs hs =
      heal_blocks-AllHonest by_path bs (heal_block h by_path b rs)
        (elim (Bool-cases (str_eq (or_empty b.path) "" || str_eq (or_empty b.branch) "")) [
          | inl e ↦ rw e hs
          | inr e ↦ rw e (heal_path-AllHonest (or_empty b.branch) _ rs hs)
        ])

  heal_roots-AllHonest :
      (by_path : Dict String) (roots : List String) (rs : Records)
      → AllHonest rs
      → AllHonest (heal_roots h by_path roots rs)
  unfolding heal_roots
  heal_roots-AllHonest by_path [] rs hs = hs
  heal_roots-AllHonest by_path (root ∷ roots) rs hs =
      heal_roots-AllHonest by_path roots _
        (heal_blocks-AllHonest by_path (blocks_from h (h.worktree_list root)) rs hs)

  heal_branches-AllHonest :
      (records fresh : Records) → AllHonest fresh → AllHonest (heal_branches h records fresh)
  unfolding heal_branches
  heal_branches-AllHonest records fresh hs = elim (Bool-cases h.works) [
    | inl e ↦ simp e (heal_roots-AllHonest _ _ fresh hs)
    | inr e ↦ simp e hs
  ]

module _ (o : Outside) where
  save_changed-AllHonest : (rs : Records) → AllHonest rs → AllHonest (save_changed o rs)
  unfolding save_changed
  save_changed-AllHonest rs h = elim (Bool-cases (any_changed o rs)) [
    | inl e ↦ rw e (reconcile_records-AllHonest o rs h)
    | inr e ↦ rw e h
  ]

  -- If every record that has a stop detail has the status `stop_incomplete`, this is so of the
  -- records that `reconcile` leaves.
  pub reconcile-AllHonest :
      (rs : Records) (allocated : Dict ℕ) → AllHonest rs → AllHonest (reconcile o rs allocated).0
  unfolding reconcile
  reconcile-AllHonest rs allocated h =
      heal_branches-AllHonest o.healing (reconcile_records o rs) _ (save_changed-AllHonest rs h)
