-- ===== src/Runner/Refusal.antt =====
-- Which run lines are refused.
use lib_python_worktree.Prelude.{
  ℕ, String, ◌≡◌, refl, Bool, true, false, Option, none, some, List, [], ◌&&◌, suc, arith,
}
use lib_python_worktree.Prelude.Results.{Result, ok, err}
use lib_python_worktree.Prelude.Texts.{char_count}
use lib_python_worktree.Contract.{Shell, bash, pwsh, sh, powershell}
use lib_python_worktree.Runner.Quoting.{outside, walk, nested_rest, double_evaluated_tokens}
use lib_python_worktree.Runner.Commands.{resolve_shell, is_powershell, build_step_command}
use lib_python_worktree.Runner.Scan.{expands, is_nonempty, walk_lem}

abbrev pub is_refused {ℓ κ} : {E : Type ℓ} {A : Type κ} → Result E A → Bool
is_refused (ok _) = false
is_refused (err _) = true

-- The shell that a step runs under is PowerShell.
abbrev pub under_powershell : Bool → Option Shell → Bool
under_powershell windows none = windows
under_powershell windows (some bash) = false
under_powershell windows (some sh) = false
under_powershell windows (some pwsh) = true
under_powershell windows (some powershell) = true

module _ (is_space is_word : ℕ → Bool) where
  -- The line begins with a nested interpreter, and the outer one expands something behind it.
  abbrev pub is_mangled : String → Bool
  is_mangled run_line = elim (nested_rest is_space run_line) [
    | none ↦ false
    | some rest ↦ expands is_space is_word outside true false rest
  ]

  tokens_lem :
      (run_line : String)
      → is_nonempty (double_evaluated_tokens is_space is_word run_line) ≡ is_mangled run_line
  unfolding double_evaluated_tokens
  tokens_lem run_line = go (nested_rest is_space run_line)
    where
      go :
          (o : Option String)
          → is_nonempty (
              let ts : List String = elim o [
                | none ↦ []
                | some rest ↦ walk is_space is_word (suc (char_count rest)) outside true rest
              ] in
              ts)
            ≡ (let b : Bool = elim o [
              | none ↦ false
              | some rest ↦ expands is_space is_word outside true false rest
            ] in
                b)
      go none = refl
      go (some rest) =
          walk_lem is_space is_word (suc (char_count rest)) outside true rest (omega arith)

  module _ (encode : String → String) where
    build-refused :
        (cmd : List String) (run_line : String)
        → is_refused (build_step_command is_space is_word encode cmd run_line)
          ≡ (is_powershell cmd && is_nonempty (double_evaluated_tokens is_space is_word run_line))
    unfolding build_step_command
    build-refused cmd run_line = ground arith

    resolve_shell-is_powershell :
        (windows : Bool) (shell : Option Shell)
        → is_powershell (resolve_shell windows shell) ≡ under_powershell windows shell
    unfolding resolve_shell is_powershell
    resolve_shell-is_powershell true none = refl
    resolve_shell-is_powershell false none = refl
    resolve_shell-is_powershell windows (some bash) = refl
    resolve_shell-is_powershell windows (some sh) = refl
    resolve_shell-is_powershell windows (some pwsh) = refl
    resolve_shell-is_powershell windows (some powershell) = refl

    -- The command of a step is refused exactly where the step runs under PowerShell, its line begins
    -- with a nested interpreter, and behind it, read character by character, a dollar sign that
    -- begins a token stands within double quotes, not escaped by an odd run of backticks, and not
    -- behind a standalone `--%` outside quotes.
    pub build_step_command_refuses :
        (windows : Bool) (shell : Option Shell) (run_line : String)
        → is_refused
            (build_step_command is_space is_word encode (resolve_shell windows shell) run_line)
          ≡ (under_powershell windows shell && is_mangled run_line)
    build_step_command_refuses windows shell run_line = ground (
      arith,
      build-refused (resolve_shell windows shell) run_line,
      resolve_shell-is_powershell windows shell,
      tokens_lem run_line,
    )
