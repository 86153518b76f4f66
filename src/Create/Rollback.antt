-- ===== src/Create/Rollback.antt =====
-- What a call of `create` that does not track its worktree leaves behind.
use Prim.Native.String.{◌++◌ as join}
use lib_python_worktree.Prelude.{
  ℕ, String, ◌≡◌, ◌⊎◌, inl, inr, refl, ap, ◌∙◌, Bool, true, false, Option, none, some, List, [],
  ◌∷◌, map, arith, eq_iff,
}
use lib_python_worktree.Prelude.Results.{Result, ok, err}
use lib_python_worktree.Prelude.Dict.{Dict, lookup, insert}
use lib_python_worktree.Prelude.Lists.{has, contains}
use lib_python_worktree.Contract.{WorktreeContract, slot_names, pins}
use lib_python_worktree.Ports.{AllocError, allocate, has_prefix, key_sep, port_key}
use lib_python_worktree.Ports.KeyLaws.{has_prefix-port_key_self}
use lib_python_worktree.Ports.Outcome.{Ends, allocate-Ends}
use lib_python_worktree.Store.{WorktreeRecord, Records, StoreError, BaseFetchFallback}
use lib_python_worktree.Store
use lib_python_worktree.Create.Types.{State, Outside, CreateError, contract_error, allocation}
use lib_python_worktree.Create.Persisting.{
  remove_text, committed, allocate_ports, track, make_record, persist_from, persist,
}

remove_text_none : (s : String) (xs : List String) → has s xs ≡ false → remove_text s xs ≡ xs
unfolding remove_text has
remove_text_none s [] h = refl
remove_text_none s (x ∷ xs) h = ground (arith, remove_text_none s xs, eq_iff s x, eq_iff x s)

pub remove_text_first :
    (s : String) (xs : List String) → has s xs ≡ false → remove_text s (s ∷ xs) ≡ xs
unfolding remove_text
remove_text_first s xs h = ground (arith, remove_text_none s xs h, eq_iff s s)

not-own_key :
    (wid k : String) (slots : List String)
    → has_prefix (join wid key_sep) k ≡ false
    → has k (map (port_key wid) slots) ≡ false
unfolding has
not-own_key wid k [] h = refl
not-own_key wid k (s ∷ ss) h =
    ground
      (arith, not-own_key wid k ss h, eq_iff k (port_key wid s), has_prefix-port_key_self wid s)

pub committed-cases :
    (writes : Bool) (rec : WorktreeRecord) (p : Result StoreError (Unit {0}) × Records) (s : State)
    → ((e : CreateError) × (committed writes rec p s ≡ (err e, s)))
      ⊎ ((p.0 ≡ ok tt) × (committed writes rec p s ≡ (ok rec, record s { records = p.1 })))
unfolding committed
committed-cases writes rec (err e, rs) s = inl (_, refl)
committed-cases true rec (ok tt, rs) s = inr (refl, refl)
committed-cases false rec (ok tt, rs) s = inl (_, refl)

add-records :
    (rec : WorktreeRecord) (rs : Records)
    → (Store.add rec rs).0 ≡ ok tt
    → (Store.add rec rs).1 ≡ insert rec.id rec rs
unfolding Store.add
add-records rec rs e = ground arith

track-cases :
    (o : Outside) (rec : WorktreeRecord) (s : State)
    → ((e : CreateError) × (track o rec s ≡ (err e, s)))
      ⊎ (track o rec s ≡ (ok rec, record s { records = insert rec.id rec s.records }))
unfolding track
track-cases o rec s = elim (committed-cases o.writes_add rec (Store.add rec s.records) s) [
  | inl e ↦ inl e
  | inr (q, e) ↦
      inr (
        e
        ∙ ap (λ (rs : Records). (ok rec, record s { records = rs })) (add-records rec s.records q))
]

module _ (o : Outside)
    (shuffle_keeps : (s : String) (ps : List ℕ) (p : ℕ)
      → contains p (o.shuffle s ps) ≡ contains p ps) where
  -- The entries of ports.yaml that are not of the new worktree are the same.
  abbrev pub OthersKept : Dict ℕ → Dict ℕ → Type 0
  OthersKept d file =
      (k : String) → has_prefix (join o.new_id key_sep) k ≡ false → lookup k d ≡ lookup k file

  allocate-OthersKept :
      (slots : List String) (pinned file : Dict ℕ)
      → OthersKept (allocate o.in_use o.shuffle o.low o.high slots o.new_id pinned file).1 file
  allocate-OthersKept slots pinned file k h =
      go (allocate o.in_use o.shuffle o.low o.high slots o.new_id pinned file)
        (allocate-Ends o.in_use o.shuffle shuffle_keeps o.low o.high o.new_id pinned file slots)
    where
      go :
          (p : Result AllocError (Dict ℕ) × Dict ℕ)
          → Ends o.in_use o.shuffle o.low o.high slots o.new_id pinned file p
          → lookup k (p.1) ≡ lookup k file
      go (ok granted, d) e = e.others k (not-own_key o.new_id k slots h)
      go (err x, d) (same, _) = ap (λ (f : Dict ℕ). lookup k f) same

  -- How the body of the `try` ends.
  pub data Persisted (s : State) (p : Result CreateError WorktreeRecord × State) : Type 0 where
    failed :
        (e : CreateError) (d : Dict ℕ)
        → OthersKept d s.ports
        → p ≡ (err e, record s { ports = d })
        → Persisted s p
    made :
        (rec : WorktreeRecord) (d : Dict ℕ)
        → OthersKept d s.ports
        → rec.id ≡ o.new_id
        → p ≡ (ok rec, record s { ports = d; records = insert rec.id rec s.records })
        → Persisted s p

  persist_from-Persisted :
      (repo branch : String) (exists : Bool) (fallback : Option BaseFetchFallback)
      (c : WorktreeContract) (s : State)
      → Persisted s (persist_from o repo branch exists fallback c s)
  unfolding persist_from allocate_ports make_record
  persist_from-Persisted repo branch exists fallback c s =
      go (allocate o.in_use o.shuffle o.low o.high (slot_names c) o.new_id (pins c) s.ports)
        (allocate-OthersKept (slot_names c) (pins c) s.ports)
    where
      go :
          (p : Result AllocError (Dict ℕ) × Dict ℕ)
          → OthersKept (p.1) s.ports
          → Persisted s (
              let granted : Result CreateError (Dict ℕ) = elim (p.0) [
                | ok ports ↦ ok ports
                | err e ↦ err (allocation e)
              ] in
              let x : Result CreateError WorktreeRecord × State = elim granted [
                | err e ↦ (err e, record s { ports = p.1 })
                | ok ports ↦
                    track o
                      (make_record o repo branch exists fallback c ports)
                      (record s { ports = p.1 })
              ] in
              x)
      go (err e, d) kept = failed (allocation e) d kept refl
      go (ok ports, d) kept =
          elim (track-cases o (make_record o repo branch exists fallback c ports)
            (record s { ports = d })) [
              | inl (e, q) ↦ failed e d kept q
              | inr q ↦ made _ d kept refl q
            ]

  pub persist-Persisted :
      (repo branch : String) (exists : Bool) (fallback : Option BaseFetchFallback) (s : State)
      → Persisted s (persist o repo branch exists fallback s)
  unfolding persist
  persist-Persisted repo branch exists fallback s = go o.contract
    where
      go :
          (c : Option WorktreeContract)
          → Persisted s (
              let x : Result CreateError WorktreeRecord × State = elim c [
                | none ↦ (err contract_error, s)
                | some c ↦ persist_from o repo branch exists fallback c s
              ] in
              x)
      go none = failed contract_error s.ports (λ k h. refl) refl
      go (some c) = persist_from-Persisted repo branch exists fallback c s
