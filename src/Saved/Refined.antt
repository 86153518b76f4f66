-- ===== src/Saved/Refined.antt =====
-- The YAML store against the store on the dict of records.
use lib_python_worktree.Prelude.{
  ℕ, String, Bool, ◌≡◌, ◌⊎◌, inl, inr, refl, sym, ap, ◌∙◌, eq_iff, true, false, Option, none, some,
  [], ◌∷◌, str_eq, arith, Bool-cases, Option-cases,
}
use lib_python_worktree.Prelude.Results.{Result, ok, err, ◌>>=◌, >>=-eq-ok}
use lib_python_worktree.Prelude.Dict.{lookup, insert, without, has_key}
use lib_python_worktree.Store.{WorktreeRecord, Records, StoreError}
use lib_python_worktree.Store
use lib_python_worktree.Saved.Values.{
  Value, Entries, end, entry, get, truthy, as_dict, as_text, entries_of, to_entries,
}
use lib_python_worktree.Saved.Records.{record_to_dict, record_from_dict}
use lib_python_worktree.Saved.Stable.{record_from_dict_again}
use lib_python_worktree.Saved.Files.{
  File, FileError, refused, write_failed, to_value, state_to_value, atomic_write, save_popped,
  save_unless_raised, or_empty_dict, read_record, load_state, yaml_add, yaml_update, yaml_remove,
}

-- What the file's operation returns when it can write.
unfoldable pub lifted : {A : Type 0} → Result StoreError A → Result FileError A
lifted (ok a) = ok a
lifted (err e) = err (refused e)

without_absent : (id : String) (rs : Records) → lookup id rs ≡ none → without (str_eq id) rs ≡ rs
unfolding lookup without
without_absent id [] e = refl
without_absent id ((j, r) ∷ rs) e = ground (arith, without_absent id rs, eq_iff id j, eq_iff j id)

module _ (is_zero : ℕ → Bool) (float_of : Value → Option ℕ) where
  -- The record is written and read back the same.
  abbrev pub IsStable : WorktreeRecord → Type 0
  IsStable r = record_from_dict is_zero float_of (record_to_dict r) ≡ ok r

  abbrev pub AllStable : Records → Type 0
  AllStable [] = Unit
  AllStable ((_, r) ∷ rs) = IsStable r × AllStable rs

  entries_of-AllStable :
      (d : Entries) (rs : Records)
      → entries_of (read_record is_zero float_of) d ≡ ok rs
      → AllStable rs
  unfolding entries_of read_record
  entries_of-AllStable d [] e = tt
  entries_of-AllStable end ((k, r) ∷ rs) e = absurd (cc)
  entries_of-AllStable (entry k v d) ((j, r) ∷ rs) e =
      let here : read_record is_zero float_of v ≡ ok r = ground arith in
      let rest : entries_of (read_record is_zero float_of) d ≡ ok rs = ground arith in
      (stable v r here, entries_of-AllStable d rs rest)
    where
      stable : (v : Value) (r : WorktreeRecord) → read_record is_zero float_of v ≡ ok r → IsStable r
      stable v r h =
          let (d, _, q) = >>=-eq-ok (as_dict v) (record_from_dict is_zero float_of) h in
          record_from_dict_again is_zero float_of d r q

  load_state-AllStable :
      (file : File) (rs : Records) → load_state is_zero float_of file ≡ ok rs → AllStable rs
  unfolding load_state
  load_state-AllStable none [] e = tt
  load_state-AllStable none (r ∷ rs) e = absurd (cc)
  load_state-AllStable (some v) rs e =
      let (d, _, q) =
        >>=-eq-ok (or_empty_dict is_zero float_of (some v))
          (λ d. or_empty_dict is_zero float_of (get "worktrees" d) >>= λ raw.
            entries_of (read_record is_zero float_of) raw)
          e in
      let (raw, _, p) =
        >>=-eq-ok (or_empty_dict is_zero float_of (get "worktrees" d))
          (λ raw. entries_of (read_record is_zero float_of) raw) q in
      entries_of-AllStable raw rs p

  entries_of-state :
      (rs : Records)
      → AllStable rs
      → entries_of (read_record is_zero float_of) (to_entries to_value rs) ≡ ok rs
  unfolding entries_of to_entries read_record as_dict as_text
  entries_of-state [] s = refl
  entries_of-state ((k, r) ∷ rs) (s, ss) = rw (s, entries_of-state rs ss) refl

  pub load_state-state_to_value :
      (rs : Records) → AllStable rs → load_state is_zero float_of (some (state_to_value rs)) ≡ ok rs
  unfolding load_state state_to_value or_empty_dict get truthy as_dict to_entries entries_of
  load_state-state_to_value [] s = refl
  load_state-state_to_value ((k, r) ∷ rs) s = entries_of-state ((k, r) ∷ rs) s

  insert-AllStable :
      (k : String) (r : WorktreeRecord) (rs : Records)
      → IsStable r
      → AllStable rs
      → AllStable (insert k r rs)
  unfolding insert
  insert-AllStable k r [] s ss = (s, tt)
  insert-AllStable k r ((j, q) ∷ rs) s (sq, ss) = elim (Bool-cases (str_eq j k)) [
    | inl e ↦ rw e (s, ss)
    | inr e ↦ rw e (sq, insert-AllStable k r rs s ss)
  ]

  without-AllStable : (p : String → Bool) (rs : Records) → AllStable rs → AllStable (without p rs)
  unfolding without
  without-AllStable p [] ss = tt
  without-AllStable p ((j, q) ∷ rs) (sq, ss) = elim (Bool-cases (p j)) [
    | inl e ↦ rw e (without-AllStable p rs ss)
    | inr e ↦ rw e (sq, without-AllStable p rs ss)
  ]

  -- The file could not be written and is as it was, or the operation returned or raised what that
  -- on the dict does, and the file holds the dict that that leaves.
  abbrev pub Refines :
      {A : Type 0}
      → Bool
      → File
      → Result FileError A × File
      → Result StoreError A × Records
      → Type 0
  Refines writes file call spec =
      ((call ≡ (err write_failed, file)) × (writes ≡ false))
      ⊎ ((call.0 ≡ lifted spec.0) × (load_state is_zero float_of call.1 ≡ ok spec.1))

  atomic_write-Refines :
      {A : Type 0} (writes : Bool) (file : File) (a : A) (rs : Records)
      → AllStable rs
      → Refines writes file (atomic_write writes a (state_to_value rs) file) (ok a, rs)
  unfolding atomic_write lifted
  atomic_write-Refines true file a rs s = inr (refl, load_state-state_to_value rs s)
  atomic_write-Refines false file a rs s = inl (refl, refl)

  module _ (writes : Bool) (file : File) (rs : Records)
      (loaded : load_state is_zero float_of file ≡ ok rs) where
    add-Refines :
        (rec : WorktreeRecord)
        → IsStable rec
        → Refines writes file (yaml_add is_zero float_of writes rec file) (Store.add rec rs)
    unfolding yaml_add Store.add save_unless_raised lifted
    add-Refines rec s =
        rw (loaded, yaml_add)
          (elim (Bool-cases (has_key rec.id rs)) [
            | inl e ↦ rw e (inr (refl, loaded))
            | inr e ↦ rw e (
                atomic_write-Refines writes file tt (insert rec.id rec rs)
                  (insert-AllStable rec.id rec rs s (load_state-AllStable file rs loaded)))
          ])

    update-Refines :
        (rec : WorktreeRecord)
        → IsStable rec
        → Refines writes file (yaml_update is_zero float_of writes rec file) (Store.update rec rs)
    unfolding yaml_update Store.update save_unless_raised lifted
    update-Refines rec s =
        rw (loaded, yaml_update)
          (elim (Bool-cases (has_key rec.id rs)) [
            | inl e ↦ rw e (
                atomic_write-Refines writes file tt (insert rec.id rec rs)
                  (insert-AllStable rec.id rec rs s (load_state-AllStable file rs loaded)))
            | inr e ↦ rw e (inr (refl, loaded))
          ])

    remove-Refines :
        (id : String)
        → Refines writes file
            (yaml_remove is_zero float_of writes id file)
            (let (popped, rest) = Store.remove id rs in (ok popped, rest))
    unfolding yaml_remove Store.remove save_popped lifted
    remove-Refines id =
        rw (loaded, yaml_remove)
          (elim (Option-cases (lookup id rs)) [
            | inl e ↦ rw e (inr (refl, loaded ∙ ap (λ l. ok l) (sym (without_absent id rs e))))
            | inr (r, e) ↦ rw e (
                atomic_write-Refines writes file (some r) (without (str_eq id) rs)
                  (without-AllStable (str_eq id) rs (load_state-AllStable file rs loaded)))
          ])

  -- Where state.yaml can be read, `add` and `update` of a record that is written and read back the
  -- same, and `remove`, do what the operation on the dict does: the same value or error, and the
  -- file then holds the dict that it leaves; or else the file could not be written, and is as it was.
  pub yaml_store-Refines :
      (writes : Bool) (file : File) (rs : Records) (rec : WorktreeRecord) (id : String)
      → load_state is_zero float_of file ≡ ok rs
      → IsStable rec
      → Refines writes file (yaml_add is_zero float_of writes rec file) (Store.add rec rs)
        × Refines writes file (yaml_update is_zero float_of writes rec file) (Store.update rec rs)
        × Refines writes file
            (yaml_remove is_zero float_of writes id file)
            (let (popped, rest) = Store.remove id rs in (ok popped, rest))
  yaml_store-Refines writes file rs rec id loaded s = (
    add-Refines writes file rs loaded rec s,
    update-Refines writes file rs loaded rec s,
    remove-Refines writes file rs loaded id,
  )
