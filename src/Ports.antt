-- ===== src/Ports.antt =====
-- core/port_allocator.py: the port allocator, one call under the exclusive lock on ports.yaml.
-- The file's `allocated` mapping is a `Dict ℕ`; `in_use` stands for what `_port_in_use` sees of the
-- operating system, and `shuffle` for the order in which `random.shuffle` leaves the candidates of
-- a slot.
mod Keys
pub mod KeyLaws
pub mod Release
pub mod Settled
pub mod Split
pub mod PassOne
pub mod Exclusive
pub mod Passes
pub mod Granted
pub mod Others
pub mod Covers
pub mod Outcome
mod Tests
unfoldable pub use Keys.*
use Prim.Native.String.{◌++◌}
use lib_python_worktree.Prelude.{
  ℕ, suc, ◌-◌, ◌+◌, String, Bool, true, false, Option, none, some, List, [], ◌∷◌, map, ◌==◌, ◌&&◌,
  not, if◌then◌else◌, str_eq,
}
use lib_python_worktree.Prelude.Results.{Result, ok, err, ◌>>=◌}
use lib_python_worktree.Prelude.Dict.{Dict, lookup, insert, without}
use lib_python_worktree.Prelude.Lists.{contains, has, range}

pub data Reason : Type 0 where
  is_taken is_in_use : Reason

-- `PortAllocationError`, its subclass `PinnedPortUnavailableError` (slot, port, worktree_id,
-- reason, owner), and the `KeyError` that `result[slot]` would raise.
pub data AllocError : Type 0 where
  no_free_port : (slot : String) (worktree_id : String) → AllocError
  pinned_unavailable :
      (slot : String) (port : ℕ) (worktree_id : String) (reason : Reason) (owner : Option String)
      → AllocError
  missing_result : (slot : String) → AllocError

-- The local variables of `allocate`.
pub record Claims : Type 0 where
  pub allocated : Dict ℕ
  pub taken : List ℕ
  pub result : Dict ℕ

-- `allocated.get(key) == port`
unfoldable pub holds : Option ℕ → ℕ → Bool
holds none port = false
holds (some p) port = p == port

-- `next((k for k, p in allocated.items() if p == port and k != key), None)`
unfoldable pub owner_of : ℕ → String → Dict ℕ → Option String
owner_of port key [] = none
owner_of port key ((k, p) ∷ d) =
    if (p == port) && not (str_eq k key) then some k else owner_of port key d

-- `{p for k, p in allocated.items() if k not in own_keys}`
unfoldable pub taken_by_others : List String → Dict ℕ → List ℕ
taken_by_others own [] = []
taken_by_others own ((k, p) ∷ d) =
    let rest = taken_by_others own d in if has k own then rest else p ∷ rest

-- `allocated[key] = port; taken.add(port); result[slot] = port`
unfoldable pub claim : String → String → ℕ → Claims → Claims
claim key slot port c = record {
  allocated = insert key port c.allocated;
  taken = port ∷ c.taken;
  result = insert slot port c.result;
}

-- `result[slot] = port; taken.add(port)`
unfoldable pub reclaim : String → ℕ → Claims → Claims
reclaim slot port c = record c { taken = port ∷ c.taken; result = insert slot port c.result }

module _ (in_use : ℕ → Bool) where
  -- The body of the first loop, for a slot that is in `pinned`.
  unfoldable pub claim_pin : String → String → ℕ → Claims → Result AllocError Claims
  claim_pin wid slot port c =
      let key = port_key wid slot in
      if holds (lookup key c.allocated) port
      then ok (reclaim slot port c)
      else if contains port c.taken
      then err (pinned_unavailable slot port wid is_taken (owner_of port key c.allocated))
      else if in_use port
      then err (pinned_unavailable slot port wid is_in_use none)
      else ok (claim key slot port c)

  -- Pass 1: every slot that is in `pinned`, in order.
  unfoldable pub pass_one : String → Dict ℕ → List String → Claims → Result AllocError Claims
  pass_one wid pinned [] c = ok c
  pass_one wid pinned (slot ∷ slots) c = elim (lookup slot pinned) [
    | none ↦ pass_one wid pinned slots c
    | some port ↦ claim_pin wid slot port c >>= λ c'. pass_one wid pinned slots c'
  ]

  -- The first candidate that is neither taken nor in use.
  unfoldable pub first_free : List ℕ → List ℕ → Option ℕ
  first_free taken [] = none
  first_free taken (port ∷ ports) =
      let rest = first_free taken ports in
      if contains port taken then rest else if in_use port then rest else some port

  module _ (shuffle : String → List ℕ → List ℕ) where
    -- The body of the second loop.
    unfoldable pub claim_free : String → List ℕ → String → Claims → Result AllocError Claims
    claim_free wid all_ports slot c = elim (first_free c.taken (shuffle slot all_ports)) [
      | none ↦ err (no_free_port slot wid)
      | some port ↦ ok (claim (port_key wid slot) slot port c)
    ]

    -- Pass 2: the other slots, in order.
    unfoldable pub pass_two :
        String → Dict ℕ → List ℕ → List String → Claims → Result AllocError Claims
    pass_two wid pinned all_ports [] c = ok c
    pass_two wid pinned all_ports (slot ∷ slots) c = elim (lookup slot pinned) [
      | some _ ↦ pass_two wid pinned all_ports slots c
      | none ↦ claim_free wid all_ports slot c >>= λ c'. pass_two wid pinned all_ports slots c'
    ]

    unfoldable pub claim_all :
        String → Dict ℕ → List ℕ → List String → Dict ℕ → Result AllocError Claims
    claim_all wid pinned all_ports slots allocated = do
      c ← pass_one wid pinned slots (record {
        allocated = allocated;
        taken = taken_by_others (map (port_key wid) slots) allocated;
        result = [];
      })
      pass_two wid pinned all_ports slots c

-- `{slot: result[slot] for slot in slots}`
unfoldable pub in_slot_order : Dict ℕ → List String → Result AllocError (Dict ℕ)
in_slot_order result [] = ok []
in_slot_order result (slot ∷ slots) = elim (lookup slot result) [
  | none ↦ err (missing_result slot)
  | some port ↦ in_slot_order result slots >>= λ rest. ok ((slot, port) ∷ rest)
]

-- The file is written once, after both passes; a call that raises before leaves it as it was.
unfoldable pub save_claims :
    List String → Dict ℕ → Result AllocError Claims → Result AllocError (Dict ℕ) × Dict ℕ
save_claims slots file (ok c) = (in_slot_order c.result slots, c.allocated)
save_claims slots file (err e) = (err e, file)

-- `allocate(slots, worktree_id, pinned=pinned)` over the port range `(low, high)`.
unfoldable pub allocate :
    (ℕ → Bool)
    → (String → List ℕ → List ℕ)
    → (low high : ℕ) → List String
    → String
    → Dict ℕ
    → Dict ℕ
    → Result AllocError (Dict ℕ) × Dict ℕ
allocate in_use shuffle low high [] wid pinned file = (ok [], file)
allocate in_use shuffle low high (slot ∷ slots) wid pinned file =
    save_claims (slot ∷ slots) file
      (claim_all in_use shuffle wid pinned (range low (high + 1 - low)) (slot ∷ slots) file)

-- `release(worktree_id, slots=slots)`; `none` stands for `slots=None`.
unfoldable pub release : String → Option (List String) → Dict ℕ → Dict ℕ
release wid none file = without (has_prefix (wid ++ key_sep)) file
release wid (some slots) file = without (λ k. has k (map (port_key wid) slots)) file
