-- ===== src/Reconcile/Healed.antt =====
-- The third phase changes nothing of a record but its branch, and that from a wrong decoding only.
use lib_python_worktree.Prelude.{
  String, ◌≡◌, inl, inr, refl, sym, ap, ◌∙◌, subst, true, Option, none, some, List, [], ◌∷◌, ◌||◌,
  str_eq, arith, eq_iff, Bool-cases,
}
use lib_python_worktree.Prelude.Dict.{Dict, lookup, lookup-insert}
use lib_python_worktree.Adopt.{Block, or_empty}
use lib_python_worktree.Store.{WorktreeRecord, Records}
use lib_python_worktree.Reconcile.Heal.{
  Healing, is_utf8_mojibake_of, blocks_from, is_spoilt, heal_record, heal_path, heal_block,
  heal_blocks, heal_roots, heal_branches,
}

pub some-injective : (a b : WorktreeRecord) → some a ≡ some b → a ≡ b
some-injective a b e = cc

-- The new record is the old one, but for its branch, which has been set as often as there are
-- steps: each time to one of which the branch that stood there was a wrong decoding.
pub data IsHealed (h : Healing) (old : WorktreeRecord) : WorktreeRecord → Type 0 where
  same : IsHealed h old old
  set_branch :
      {mid : WorktreeRecord} {live : String}
      → IsHealed h old mid
      → is_utf8_mojibake_of h (or_empty mid.branch) live ≡ true
      → IsHealed h old (record mid { branch = some live })

module _ (h : Healing) where
  -- Each record is one that was there under its id, healed.
  abbrev pub AllHealed : (before after : Records) → Type 0
  AllHealed before after =
      (id : String) (new : WorktreeRecord)
      → lookup id after ≡ some new
      → (old : WorktreeRecord) × ((lookup id before ≡ some old) × IsHealed h old new)

  IsHealed-trans : (a b c : WorktreeRecord) → IsHealed h a b → IsHealed h b c → IsHealed h a c
  IsHealed-trans a b _ ab same = ab
  IsHealed-trans a b _ ab (set_branch bc m) = set_branch (IsHealed-trans a b _ ab bc) m

  AllHealed-refl : (rs : Records) → AllHealed rs rs
  AllHealed-refl rs id new e = (new, (e, same))

  AllHealed-trans : (a b c : Records) → AllHealed a b → AllHealed b c → AllHealed a c
  AllHealed-trans a b c ab bc id new e =
      let (mid, (found, healed)) = bc id new e in
      let (old, (there, first)) = ab id mid found in
      (old, (there, IsHealed-trans old mid new first healed))

  heal_record-AllHealed :
      (live id : String) (rec : Option WorktreeRecord) (rs : Records)
      → lookup id rs ≡ rec
      → AllHealed rs (heal_record h live id rec rs)
  unfolding heal_record is_spoilt
  heal_record-AllHealed live id none rs e = AllHealed-refl rs
  heal_record-AllHealed live id (some rec) rs e = elim (Bool-cases (is_spoilt h live rec)) [
    | inr q ↦ rw q (AllHealed-refl rs)
    | inl q ↦ rw q (λ k new found. elim (Bool-cases (str_eq id k)) [
      | inr other ↦ (new, (sym (lookup-insert id k _ rs ∙ rw other refl) ∙ found, same))
      | inl hit ↦
          let made : some (record rec { branch = some live }) ≡ some new =
            sym (lookup-insert id k _ rs ∙ rw hit refl) ∙ found in
          (
            rec,
            (
              ap (λ x. lookup x rs) (sym ((eq_iff id k).0 hit)) ∙ e,
              subst (IsHealed h rec) (some-injective _ new made)
                  (set_branch same (ground (arith, q))),
            ),
          )
    ])
  ]

  heal_path-AllHealed :
      (live : String) (id : Option String) (rs : Records) → AllHealed rs (heal_path h live id rs)
  unfolding heal_path
  heal_path-AllHealed live none rs = AllHealed-refl rs
  heal_path-AllHealed live (some id) rs = heal_record-AllHealed live id (lookup id rs) rs refl

  heal_blocks-AllHealed :
      (by_path : Dict String) (bs : List Block) (rs : Records)
      → AllHealed rs (heal_blocks h by_path bs rs)
  unfolding heal_blocks heal_block
  heal_blocks-AllHealed by_path [] rs = AllHealed-refl rs
  heal_blocks-AllHealed by_path (b ∷ bs) rs =
      AllHealed-trans rs (heal_block h by_path b rs) _
        (elim (Bool-cases (str_eq (or_empty b.path) "" || str_eq (or_empty b.branch) "")) [
          | inl e ↦ rw e (AllHealed-refl rs)
          | inr e ↦ rw e (heal_path-AllHealed (or_empty b.branch) _ rs)
        ])
        (heal_blocks-AllHealed by_path bs _)

  heal_roots-AllHealed :
      (by_path : Dict String) (roots : List String) (rs : Records)
      → AllHealed rs (heal_roots h by_path roots rs)
  unfolding heal_roots
  heal_roots-AllHealed by_path [] rs = AllHealed-refl rs
  heal_roots-AllHealed by_path (root ∷ roots) rs =
      AllHealed-trans rs _ _
        (heal_blocks-AllHealed by_path (blocks_from h (h.worktree_list root)) rs)
        (heal_roots-AllHealed by_path roots _)

  pub heal_branches-AllHealed :
      (records fresh : Records) → AllHealed fresh (heal_branches h records fresh)
  unfolding heal_branches
  heal_branches-AllHealed records fresh = elim (Bool-cases h.works) [
    | inl e ↦ simp e (heal_roots-AllHealed _ _ fresh)
    | inr e ↦ simp e (AllHealed-refl fresh)
  ]
