-- ===== src/Manager/Sessions.antt =====
-- core/manager.py: `WorktreeManager.start`. The log lines, the notice of a shadowed contract, the
-- environment and the directory of the process are left out. The store is one of YAML files, with a
-- `PortAllocator`. The record that is returned carries `start_variants`, which state.yaml does not
-- hold.
use lib_python_worktree.Prelude.{
  ℕ, String, Bool, true, false, Option, none, some, List, [], ◌∷◌, map, ◌&&◌, ◌==◌, not,
  if◌then◌else◌, str_eq,
}
use lib_python_worktree.Prelude.Results.{Result, ok, err}
use lib_python_worktree.Prelude.Dict.{Dict, lookup, insert, without, keys}
use lib_python_worktree.Prelude.Lists.{has}
use lib_python_worktree.Contract.{Step, PortSlot, WorktreeContract}
use lib_python_worktree.Store.{WorktreeRecord, Records, StoreError}
use lib_python_worktree.Store
use lib_python_worktree.Ports.{AllocError, allocate, release}
use lib_python_worktree.Reconcile.{is_empty, undeclared}
use lib_python_worktree.Variants.{VariantError, choose_step, available_variants}
use lib_python_worktree.Runner.{CommandError, build_step_command, resolve_shell}
use lib_python_worktree.Checkout.{Paths}
use lib_python_worktree.Lifecycle
use lib_python_worktree.Manager.Targets.{TargetError, resolve_target}
use lib_python_worktree.Manager.Removals.{Stored}

-- What each part of `start` raises; `contract_error` is that of `load_contract`.
pub data SessionError : Type 0 where
  contract_error : SessionError
  unresolved : TargetError → SessionError
  setup_incomplete : (id : String) → SessionError
  allocation : AllocError → SessionError
  not_updated : StoreError → SessionError
  variant_error : VariantError → SessionError
  command_error : CommandError → SessionError
  not_started : Lifecycle.StartError → SessionError

abbrev pub Outcome : Type 0 → Type 0
Outcome A = Result SessionError A × Stored

-- The outside of one call: the contract at a repository's root (`none`: it raises), the allocator's
-- range and what it sees, the platform, and the processes.
pub record Outside : Type 0 where
  pub paths : Paths
  pub depth : String → ℕ
  pub contract : String → Option WorktreeContract
  pub in_use : ℕ → Bool
  pub shuffle : String → List ℕ → List ℕ
  pub low : ℕ
  pub high : ℕ
  pub windows : Bool
  pub is_space : ℕ → Bool
  pub is_word : ℕ → Bool
  pub encode : String → String
  pub process : Lifecycle.Outside

-- The arguments `worktree_id`, `checkout_path`, `role`, `variant` and `allow_setup_failed`.
pub record StartRequest : Type 0 where
  pub id : Option String
  pub checkout_path : Option String
  pub role : String
  pub variant : String
  pub allow_setup_failed : Bool

-- What follows on a part that has returned.
unfoldable pub and_then : {A B : Type 0} → Outcome A → (A → Stored → Outcome B) → Outcome B
and_then (ok x, s) rest = rest x s
and_then (err e, s) rest = (err e, s)

unfoldable pub updated :
    WorktreeRecord → Dict ℕ → Result StoreError (Unit {0}) × Records → Outcome WorktreeRecord
updated rec allocated (ok _, rs) = (ok rec, record { records = rs; allocated = allocated })
updated rec allocated (err e, rs) =
    (err (not_updated e), record { records = rs; allocated = allocated })

-- `self.state.update(record)`
unfoldable pub update_record : WorktreeRecord → Stored → Outcome WorktreeRecord
update_record rec s = updated rec s.allocated (Store.update rec s.records)

-- `set(record.ports) - {s.name for s in contract.ports}`
unfoldable pub undeclared_slots : WorktreeContract → WorktreeRecord → List String
undeclared_slots c rec = undeclared (map (λ (s : PortSlot). s.name) c.ports) (keys rec.ports)

unfoldable pub without_slots : List String → WorktreeRecord → WorktreeRecord
without_slots slots rec = record rec { ports = without (λ s. has s slots) rec.ports }

unfoldable pub prune_undeclared :
    WorktreeContract → WorktreeRecord → Stored → Outcome WorktreeRecord
prune_undeclared c rec s =
    let stale = undeclared_slots c rec in
    if not (is_empty stale) && is_empty rec.pids
    then update_record (without_slots stale rec)
        (record s { allocated = release rec.id (some stale) s.allocated })
    else (ok rec, s)

-- `s.port is not None and port != s.port`
unfoldable pub disagrees : Option ℕ → ℕ → Bool
disagrees none port = false
disagrees (some pin) port = not (port == pin)

-- `s.name not in record.ports or (s.port is not None and record.ports[s.name] != s.port)`
unfoldable pub is_needed : Option ℕ → Option ℕ → Bool
is_needed pin none = true
is_needed pin (some port) = disagrees pin port

unfoldable pub needs_alloc : Dict ℕ → List PortSlot → List String
needs_alloc ports [] = []
needs_alloc ports (s ∷ ss) =
    let rest = needs_alloc ports ss in
    if is_needed s.port (lookup s.name ports) then s.name ∷ rest else rest

-- `{s.name: s.port for s in contract.ports if s.port is not None and s.name in needs_alloc}`
unfoldable pub needed_pins : List String → List PortSlot → Dict ℕ → Dict ℕ
needed_pins needed [] d = d
needed_pins needed (s ∷ ss) d =
    needed_pins needed ss
      (elim s.port [ none ↦ d | some port ↦ if has s.name needed then insert s.name port d else d ])

-- `ports.update(allocated)`
unfoldable pub update_ports : Dict ℕ → Dict ℕ → Dict ℕ
update_ports ports [] = ports
update_ports ports ((slot, port) ∷ d) = update_ports (insert slot port ports) d

unfoldable pub granted :
    WorktreeRecord → Records → Result AllocError (Dict ℕ) × Dict ℕ → Outcome WorktreeRecord
granted rec rs (err e, allocated) =
    (err (allocation e), record { records = rs; allocated = allocated })
granted rec rs (ok ports, allocated) =
    update_record (record rec { ports = update_ports rec.ports ports })
      (record { records = rs; allocated = allocated })

-- `step.name or variant`
unfoldable pub name_or : String → Option String → String
name_or variant none = variant
name_or variant (some name) = if str_eq name "" then variant else name

unfoldable pub with_variants : List String → WorktreeRecord → WorktreeRecord
with_variants names rec = record rec { start_variants = names }

unfoldable pub ended :
    List String
    → Dict ℕ
    → Result Lifecycle.StartError WorktreeRecord × Records
    → Outcome WorktreeRecord
ended names allocated (ok rec, rs) =
    (ok (with_variants names rec), record { records = rs; allocated = allocated })
ended names allocated (err e, rs) =
    (err (not_started e), record { records = rs; allocated = allocated })

module _ (o : Outside) where
  unfoldable pub allocate_needed :
      WorktreeContract → WorktreeRecord → Stored → Outcome WorktreeRecord
  allocate_needed c rec s =
      let needed = needs_alloc rec.ports c.ports in
      if is_empty needed
      then (ok rec, s)
      else granted rec s.records (
          allocate o.in_use o.shuffle o.low o.high needed rec.id (needed_pins needed c.ports [])
            s.allocated)

  -- `_lifecycle_start`, and what is set on the record that it returns.
  unfoldable pub start_process :
      StartRequest
      → List Step
      → WorktreeRecord
      → Step
      → List String
      → Stored
      → Outcome WorktreeRecord
  start_process r steps rec step cmd s =
      ended (available_variants steps) s.allocated
        (Lifecycle.start o.process r.role (some (name_or r.variant step.name)) rec.id cmd s.records)

  unfoldable pub start_built :
      StartRequest
      → List Step
      → WorktreeRecord
      → Step
      → Stored
      → Result CommandError (List String)
      → Outcome WorktreeRecord
  start_built r steps rec step s (err e) = (err (command_error e), s)
  start_built r steps rec step s (ok cmd) = start_process r steps rec step cmd s

  unfoldable pub command : Step → Result CommandError (List String)
  command step =
      build_step_command o.is_space o.is_word o.encode (resolve_shell o.windows step.shell) step.run

  unfoldable pub start_chosen :
      StartRequest
      → List Step
      → WorktreeRecord
      → Stored
      → Result VariantError Step
      → Outcome WorktreeRecord
  start_chosen r steps rec s (err e) = (err (variant_error e), s)
  start_chosen r steps rec s (ok step) = start_built r steps rec step s (command step)

  -- Without a `start:` step the worktree is ready.
  unfoldable pub start_steps :
      StartRequest → List Step → WorktreeRecord → Stored → Outcome WorktreeRecord
  start_steps r [] rec s =
      update_record
        (record rec {
          status = "ready";
          start_variants = available_variants [];
          teardown_ran = false;
        })
        s
  start_steps r (step ∷ steps) rec s =
      start_chosen r (step ∷ steps) rec s (choose_step r.variant (step ∷ steps))

  -- Behind the load of the contract.
  unfoldable pub start_under :
      StartRequest → WorktreeContract → WorktreeRecord → Stored → Outcome WorktreeRecord
  start_under r c rec s =
      and_then (and_then (prune_undeclared c rec s) (allocate_needed c)) (start_steps r c.start)

  unfoldable pub start_loaded :
      StartRequest → Option WorktreeContract → WorktreeRecord → Stored → Outcome WorktreeRecord
  start_loaded r none rec s = (err contract_error, s)
  start_loaded r (some c) rec s = start_under r c rec s

  -- Behind the resolution of the target.
  unfoldable pub start_resolved : StartRequest → WorktreeRecord → Stored → Outcome WorktreeRecord
  start_resolved r rec s =
      if str_eq rec.status "setup_failed" && not r.allow_setup_failed
      then (err (setup_incomplete rec.id), s)
      else start_loaded r (o.contract rec.repo_root) rec s

  unfoldable pub start_target :
      StartRequest → Dict ℕ → Result TargetError WorktreeRecord × Records → Outcome WorktreeRecord
  start_target r allocated (err e, rs) =
      (err (unresolved e), record { records = rs; allocated = allocated })
  start_target r allocated (ok rec, rs) =
      start_resolved r rec (record { records = rs; allocated = allocated })

  -- `start(worktree_id, checkout_path=..., role=..., variant=..., allow_setup_failed=...)`
  unfoldable pub start : StartRequest → Stored → Outcome WorktreeRecord
  start r s =
      start_target r s.allocated
        (resolve_target o.paths o.depth r.id r.checkout_path true s.records)
