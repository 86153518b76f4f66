-- ===== src/Lifecycle/Budget.antt =====
-- `_compute_stop_budget`. Its results count tenths of a millisecond, in which the shares are whole.
use lib_python_worktree.Prelude.{ℕ, zero, suc, ◌+◌, ◌-◌, ◌*◌, Bool, leb, if◌then◌else◌}
use lib_python_worktree.Prelude.Int.{ℤ, pos, negsuc}

-- `(primary_cap, tree_floor, orphan_floor)`
pub record StopBudget : Type 0 where
  pub primary_cap : ℕ
  pub tree_floor : ℕ
  pub orphan_floor : ℕ

unfoldable pub smaller : ℕ → ℕ → ℕ
smaller m n = if leb m n then m else n

abbrev pub no_budget : StopBudget
no_budget = record { primary_cap = 0; tree_floor = 0; orphan_floor = 0 }

unfoldable pub tree_floor_of : ℕ → ℕ
tree_floor_of timeout = smaller 10000 timeout

unfoldable pub orphan_floor_of : Bool → ℕ → ℕ
orphan_floor_of kill_orphans timeout = if kill_orphans then smaller 30000 (3 * timeout) else 0

-- The subtraction stops at 0, as `max(0.0, ...)` does.
unfoldable pub split_budget : Bool → ℕ → StopBudget
split_budget kill_orphans timeout = record {
  primary_cap =
      smaller (timeout * 6)
        (10 * timeout - (tree_floor_of timeout + orphan_floor_of kill_orphans timeout));
  tree_floor = tree_floor_of timeout;
  orphan_floor = orphan_floor_of kill_orphans timeout;
}

unfoldable pub compute_stop_budget : ℤ → Bool → StopBudget
compute_stop_budget (negsuc n) kill_orphans = no_budget
compute_stop_budget (pos zero) kill_orphans = no_budget
compute_stop_budget (pos (suc n)) kill_orphans = split_budget kill_orphans (suc n)
