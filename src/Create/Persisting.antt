-- ===== src/Create/Persisting.antt =====
-- The ports and the record of a new worktree, or its rollback.
use lib_python_worktree.Prelude.{
  ℕ, String, Bool, true, false, Option, none, some, List, [], ◌∷◌, ◌&&◌, not, if◌then◌else◌, str_eq,
}
use lib_python_worktree.Prelude.Results.{Result, ok, err}
use lib_python_worktree.Prelude.Dict.{Dict}
use lib_python_worktree.Contract.{WorktreeContract, slot_names, pins}
use lib_python_worktree.Ports.{allocate, release}
use lib_python_worktree.Store.{
  WorktreeRecord, Records, new_record, SetupOutcome, BaseFetchFallback, StoreError, find_by_branch,
}
use lib_python_worktree.Store
use lib_python_worktree.Variants.{available_variants}
use lib_python_worktree.Create.Types.{
  State, Outside, CreateError, contract_error, write_failed, allocation, store,
}

-- `[x for x in xs if x != s]`
unfoldable pub remove_text : String → List String → List String
remove_text s [] = []
remove_text s (x ∷ xs) = let rest = remove_text s xs in if str_eq x s then rest else x ∷ rest

-- A change of the store, saved if state.yaml can be written.
unfoldable pub committed :
    Bool
    → WorktreeRecord
    → Result StoreError (Unit {0}) × Records
    → State
    → Result CreateError WorktreeRecord × State
committed writes rec (err e, rs) s = (err (store e), s)
committed true rec (ok _, rs) s = (ok rec, record s { records = rs })
committed false rec (ok _, rs) s = (err write_failed, s)

module _ (o : Outside) where
  -- `if contract.ports: ... allocate(...)`
  unfoldable pub allocate_ports : WorktreeContract → State → Result CreateError (Dict ℕ) × State
  allocate_ports c s =
      let (granted, file) =
        allocate o.in_use o.shuffle o.low o.high (slot_names c) o.new_id (pins c) s.ports in
      (elim granted [ ok ports ↦ ok ports | err e ↦ err (allocation e) ], record s { ports = file })

  -- `self.state.add(record)`
  unfoldable pub track : WorktreeRecord → State → Result CreateError WorktreeRecord × State
  track rec s = committed o.writes_add rec (Store.add rec s.records) s

  module _ (repo branch : String) (exists : Bool) (base_fallback : Option BaseFetchFallback) where
    unfoldable pub make_record : WorktreeContract → Dict ℕ → WorktreeRecord
    make_record c ports = record (new_record o.new_id repo (some branch) o.target) {
      branch_created_by_us = not exists;
      ports = ports;
      base_fetch_fallback = base_fallback;
      start_variants = available_variants c.start;
    }

    -- The body of the `try`.
    unfoldable pub persist_from :
        WorktreeContract → State → Result CreateError WorktreeRecord × State
    persist_from c s =
        let (granted, s') = allocate_ports c s in
        elim granted [ err e ↦ (err e, s') | ok ports ↦ track (make_record c ports) s' ]

    unfoldable pub persist : State → Result CreateError WorktreeRecord × State
    persist s = elim o.contract [ none ↦ (err contract_error, s) | some c ↦ persist_from c s ]

    -- The handler of the `try`: the worktree, the ports, and the branch if it is new. What fails of
    -- it is swallowed.
    unfoldable pub roll_back : State → State
    roll_back s = record s {
      trees = if o.removes_tree then remove_text o.target s.trees else s.trees;
      ports = if o.releases then release o.new_id none s.ports else s.ports;
      branches =
          if not exists && o.deletes_branch then remove_text branch s.branches else s.branches;
    }

    unfoldable pub persist_or_roll_back : State → Result CreateError WorktreeRecord × State
    persist_or_roll_back s =
        let (result, s') = persist s in
        elim result [ ok rec ↦ (ok rec, s') | err e ↦ (err e, roll_back s') ]
