-- ===== src/Lifecycle/Shares.antt =====
-- The shares of a stop.
use lib_python_worktree.Prelude.{ℕ, zero, suc, ◌+◌, ◌*◌, ◌≤◌, ◌≡◌, refl, Bool, true, false, arith}
use lib_python_worktree.Prelude.Int.{ℤ, pos, negsuc}
use lib_python_worktree.Lifecycle.Budget.{
  StopBudget, smaller, no_budget, tree_floor_of, orphan_floor_of, split_budget, compute_stop_budget,
}

-- `max(timeout, 0)`, in tenths of a millisecond.
abbrev pub tenths : ℤ → ℕ
tenths (pos n) = 10 * n
tenths (negsuc n) = 0

-- The primary wait has three fifths of the timeout, the floors have at most a tenth and three tenths
-- and their ceilings, and all of it is within the timeout.
pub record IsShared (timeout : ℤ) (b : StopBudget) : Type 0 where
  pub primary : 10 * b.primary_cap ≡ 6 * tenths timeout
  pub tree : 10 * b.tree_floor ≤ tenths timeout
  pub tree_ceiling : b.tree_floor ≤ 10000
  pub orphan : 10 * b.orphan_floor ≤ 3 * tenths timeout
  pub orphan_ceiling : b.orphan_floor ≤ 30000
  pub total : b.primary_cap + b.tree_floor + b.orphan_floor ≤ tenths timeout

split_budget-IsShared :
    (kill_orphans : Bool) (n : ℕ) → IsShared (pos n) (split_budget kill_orphans n)
unfolding split_budget tree_floor_of orphan_floor_of smaller
split_budget-IsShared true n = record {
  primary = ground arith;
  tree = ground arith;
  tree_ceiling = ground arith;
  orphan = ground arith;
  orphan_ceiling = ground arith;
  total = ground arith;
}
split_budget-IsShared false n = record {
  primary = ground arith;
  tree = ground arith;
  tree_ceiling = ground arith;
  orphan = ground arith;
  orphan_ceiling = ground arith;
  total = ground arith;
}

no_budget-IsShared : (timeout : ℤ) → tenths timeout ≡ 0 → IsShared timeout no_budget
no_budget-IsShared timeout h = record {
  primary = omega (arith, h);
  tree = omega arith;
  tree_ceiling = omega arith;
  orphan = omega arith;
  orphan_ceiling = omega arith;
  total = omega arith;
}

-- For every timeout, also one below 0, and with or without the orphan scan, the primary wait gets
-- exactly three fifths of the timeout: what is reserved for the tree kill and the orphan scan never
-- cuts it. The floors keep to their shares and ceilings, and the three together to the timeout.
pub compute_stop_budget-IsShared :
    (timeout : ℤ) (kill_orphans : Bool)
    → IsShared timeout (compute_stop_budget timeout kill_orphans)
unfolding compute_stop_budget
compute_stop_budget-IsShared (negsuc n) kill_orphans = no_budget-IsShared (negsuc n) refl
compute_stop_budget-IsShared (pos zero) kill_orphans = no_budget-IsShared (pos zero) refl
compute_stop_budget-IsShared (pos (suc n)) kill_orphans = split_budget-IsShared kill_orphans (suc n)
