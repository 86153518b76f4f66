-- ===== src/Git.antt =====
-- core/_git_utils.py: how a call of git ends, and which timeout it has. `strip` and `float` are
-- Python's; `float` is `none` where it raises ValueError.
use lib_python_worktree.Prelude.{
  ℕ, String, Bool, false, Option, none, some, ◌==◌, if◌then◌else◌, str_eq,
}
use lib_python_worktree.Prelude.Int.{ℤ, pos, negsuc}

-- `proc.returncode`, `proc.stdout` and `proc.stderr`.
pub record Completed : Type 0 where
  pub returncode : ℤ
  pub stdout : String
  pub stderr : String

unfoldable pub is_exit : ℕ → ℤ → Bool
is_exit n (pos m) = m == n
is_exit n (negsuc m) = false

-- How a call of git ends: it completes, it is killed at its timeout after some time, or there is no
-- git.
pub data Call : Type 0 where
  completed : Completed → Call
  timed_out : (elapsed : ℕ) → Call
  no_git : Call

module _ {F : Type 0} (is_positive : F → Bool) (strip : String → String)
    (float : String → Option F) where
  -- The default where `float` raises, else `value if value > 0 else None`.
  unfoldable pub unless_off : F → Option F → Option F
  unless_off default none = some default
  unless_off default (some value) = if is_positive value then some value else none

  -- `_resolve_git_timeout`, by the default, the explicit timeout and the environment variable.
  unfoldable pub resolve_git_timeout : F → Option F → Option String → Option F
  resolve_git_timeout default (some explicit) raw = some explicit
  resolve_git_timeout default none none = some default
  resolve_git_timeout default none (some raw) =
      if str_eq (strip raw) "" then none else unless_off default (float (strip raw))
