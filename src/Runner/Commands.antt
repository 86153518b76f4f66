-- ===== src/Runner/Commands.antt =====
-- `_resolve_shell` and `_build_step_command`. `encode` stands for the base64 of the UTF-16 text.
use Prim.Native.String.{◌++◌}
use lib_python_worktree.Prelude.{
  ℕ, String, Bool, false, Option, none, some, List, [], ◌∷◌, ◌||◌, if◌then◌else◌, str_eq,
}
use lib_python_worktree.Prelude.Results.{Result, ok, err}
use lib_python_worktree.Contract.{Shell, bash, pwsh, sh, powershell}
use lib_python_worktree.Runner.Quoting.{double_evaluated_tokens}

-- `RunLineExpansionError(run_line, tokens)`
pub data CommandError : Type 0 where
  run_line_expansion : (run_line : String) (tokens : List String) → CommandError

abbrev pub powershell_prefix : List String
powershell_prefix = "powershell.exe" ∷ "-NoProfile" ∷ "-NonInteractive" ∷ "-Command" ∷ []

-- The schema permits no other shell.
unfoldable pub resolve_shell : Bool → Option Shell → List String
resolve_shell windows (some bash) = "bash" ∷ "-c" ∷ []
resolve_shell windows (some sh) = "sh" ∷ "-c" ∷ []
resolve_shell windows (some pwsh) = "pwsh" ∷ "-NoProfile" ∷ "-NonInteractive" ∷ "-Command" ∷ []
resolve_shell windows (some powershell) = powershell_prefix
resolve_shell windows none = if windows then powershell_prefix else "bash" ∷ "-c" ∷ []

-- `shell_cmd and shell_cmd[0] in _POWERSHELL_INTERPRETERS`
unfoldable pub is_powershell : List String → Bool
is_powershell [] = false
is_powershell (s ∷ ss) = str_eq s "powershell.exe" || str_eq s "pwsh"

-- `shell_cmd[:-1] if shell_cmd[-1] == "-Command" else shell_cmd`
unfoldable pub without_command : List String → List String
without_command [] = []
without_command (s ∷ []) = if str_eq s "-Command" then [] else s ∷ []
without_command (s ∷ t ∷ ss) = s ∷ without_command (t ∷ ss)

-- `_PS_EXIT_CODE_EPILOGUE`
abbrev pub exit_code_epilogue : String
exit_code_epilogue =
    "\n$__wt_ok = $?\n"
    ++ ("$__wt_rc = Get-Variable -Name LASTEXITCODE -Scope Global -ValueOnly "
        ++ ("-ErrorAction SilentlyContinue\n"
            ++ ("if ($__wt_ok) { exit 0 }\n"
                ++ ("if ($null -ne $__wt_rc -and $__wt_rc -ne 0) { exit $__wt_rc }\n"
                    ++ "exit 1\n"))))

abbrev append : List String → List String → List String
append [] ts = ts
append (s ∷ ss) ts = s ∷ append ss ts

module _ (is_space is_word : ℕ → Bool) (encode : String → String) where
  unfoldable pub build_step_command : List String → String → Result CommandError (List String)
  build_step_command shell_cmd run_line =
      if is_powershell shell_cmd
      then elim (double_evaluated_tokens is_space is_word run_line) [
        | t ∷ ts ↦ err (run_line_expansion run_line (t ∷ ts))
        | [] ↦ ok (
            append (without_command shell_cmd)
              ("-EncodedCommand" ∷ encode (run_line ++ exit_code_epilogue) ∷ []))
      ]
      else ok (append shell_cmd (run_line ∷ []))
