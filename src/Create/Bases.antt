-- ===== src/Create/Bases.antt =====
-- The base of the branch that `create` makes, and its fetch.
use lib_python_worktree.Git.{is_exit, Call, completed, timed_out, no_git}
use lib_python_worktree.Prelude.{
  ℕ, String, Bool, true, false, Option, none, some, ◌&&◌, if◌then◌else◌, str_eq,
}
use lib_python_worktree.Prelude.Int.{ℤ}
use lib_python_worktree.Prelude.Results.{Result, ok, err, ◌>>=◌}
use lib_python_worktree.Prelude.Lists.{has}
use lib_python_worktree.Prelude.Texts.{take_chars}
use lib_python_worktree.Store.{BaseFetchFallback}
use lib_python_worktree.Create.Git.{has_text}
use lib_python_worktree.Create.Types.{
  State, Outside, CreateError, no_default_base, os_error, base_not_found, git_timeout, git_command,
}

-- The base and whether it is the default.
abbrev pub Base : Type 0
Base = Option String × Bool

-- A new record's ports, and the call's fallback.
abbrev pub Fetched : Type 0
Fetched = Option BaseFetchFallback × Bool

unfoldable pub or_empty_text : Option String → String
or_empty_text none = ""
or_empty_text (some s) = s

module _ (o : Outside) where
  -- `_current_branch`
  unfoldable pub current_branch : Call → Result CreateError String
  current_branch (timed_out _) = err git_timeout
  current_branch no_git = err os_error
  current_branch (completed p) =
      let ref = o.strip p.stdout in
      if is_exit 0 p.returncode
      then ok (if str_eq ref "HEAD" then "" else ref)
      else if is_exit 128 p.returncode
          && has_text "unknown revision or path not in the working tree" p.stderr
      then ok ""
      else err (git_command p.returncode)

  -- `_branch_exists`
  unfoldable pub branch_exists : String → State → Bool
  branch_exists branch s = has branch s.branches

  -- The base of a branch that is to be created; that of an existing branch is ignored.
  unfoldable pub choose_base : Bool → Option String → State → Result CreateError Base
  choose_base true base s = ok (base, false)
  choose_base false none s = current_branch o.rev_parse >>= λ ref.
      if str_eq ref "" then err no_default_base else ok (some ref, true)
  choose_base false (some base) s =
      if branch_exists base s then ok (some base, false) else err (base_not_found base)

  abbrev pub fallback : String → String → Option ℤ → Option String → Option ℕ → BaseFetchFallback
  fallback reason base returncode stderr elapsed = record {
    reason = reason;
    base = base;
    message = o.message reason;
    returncode = returncode;
    stderr = stderr;
    elapsed_sec = elapsed;
  }

  -- What becomes of a fetch: its fallback, and whether the fetched ref is used.
  unfoldable pub after_fetch : String → Call → State → Result CreateError Fetched
  after_fetch base no_git s = err os_error
  after_fetch base (timed_out elapsed) s =
      if branch_exists base s
      then ok (some (fallback "fetch_timeout" base none none (some elapsed)), false)
      else err git_timeout
  after_fetch base (completed p) s =
      if is_exit 0 p.returncode
      then ok (none, true)
      else if branch_exists base s
      then ok (
        some (
            fallback "fetch_failed" base (some p.returncode) (some (take_chars 2000 p.stderr))
              none),
        false,
      )
      else err (git_command p.returncode)

  -- `fetch_base and base is not None`
  unfoldable pub fetch_base : Bool → Base → State → Result CreateError Fetched × State
  fetch_base false base s = (ok (none, false), s)
  fetch_base true (none, defaulted) s = (ok (none, true), s)
  fetch_base true (some base, defaulted) s =
      let s' = record s { branches = o.during_fetch s.branches } in
      if defaulted then (ok (none, false), s) else (after_fetch base (o.fetch base) s', s')
