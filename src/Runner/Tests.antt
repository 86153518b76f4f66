-- ===== src/Runner/Tests.antt =====
-- Run lines and runs of the setup steps.
use lib_python_worktree.Prelude.{
  ℕ, String, ◌≡◌, ◌≢◌, refl, Bool, true, false, none, some, List, [], ◌∷◌, ◌&&◌, ◌||◌, ◌==◌, leb,
  if◌then◌else◌,
}
use lib_python_worktree.Prelude.Int.{pos, negsuc}
use lib_python_worktree.Prelude.Results.{err}
use lib_python_worktree.Contract.{Step, full, isolation_none, powershell, bash}
use lib_python_worktree.Prelude.Texts.{has_char, char_count}
use lib_python_worktree.Runner.Quoting.{
  double_evaluated_tokens, nested_rest, first_token, skip_spaces, quoted_rest, bare_rest, to_quote,
  to_space, is_interpreter, same_folded, fold, base_name, has_separator, is_separator, at_space,
  walk, stops_parsing, after_stop, at_dollar, at_ticks, token_at, name_run, to_brace, skip_ticks,
  starts_name,
}
use lib_python_worktree.Runner.Commands.{resolve_shell, build_step_command, is_powershell}
use lib_python_worktree.Runner.Steps.{
  Host, exited, overran, setup_failed, run, run_steps, is_zero, prepend, run_step, spawn_step,
  end_step, command, step_name,
}
use lib_python_worktree.Runner.Refusal.{
  is_refused, under_powershell, is_mangled, build_step_command_refuses,
}
use lib_python_worktree.Runner.Loop.{Outcome, run-Outcome}

-- Spaces and word characters of ASCII.
abbrev is_space : ℕ → Bool
is_space c = c == 32 || (leb 9 c && leb c 13)

abbrev is_word : ℕ → Bool
is_word c = (leb 48 c && leb c 57) || (leb 65 c && leb c 90) || (leb 97 c && leb c 122) || c == 95

nested :
    double_evaluated_tokens is_space is_word "pwsh -Command \"Write $env:X $true\""
    ≡ "$env:X" ∷ "$true" ∷ []
unfolding double_evaluated_tokens nested_rest first_token skip_spaces quoted_rest bare_rest to_quote
    to_space is_interpreter same_folded fold base_name has_separator is_separator at_space has_char
    char_count walk stops_parsing after_stop at_dollar at_ticks token_at name_run to_brace
    skip_ticks starts_name
nested = refl

quoted_path :
    double_evaluated_tokens is_space is_word "\"C:\\Program Files\\PWSH.exe\" -c \"$(x)\""
    ≡ "$(" ∷ []
unfolding double_evaluated_tokens nested_rest first_token skip_spaces quoted_rest bare_rest to_quote
    to_space is_interpreter same_folded fold base_name has_separator is_separator at_space has_char
    char_count walk stops_parsing after_stop at_dollar at_ticks token_at name_run to_brace
    skip_ticks starts_name
quoted_path = refl

escaped : double_evaluated_tokens is_space is_word "pwsh -Command \"a `$x ``$y\"" ≡ "$y" ∷ []
unfolding double_evaluated_tokens nested_rest first_token skip_spaces quoted_rest bare_rest to_quote
    to_space is_interpreter same_folded fold base_name has_separator is_separator at_space has_char
    char_count walk stops_parsing after_stop at_dollar at_ticks token_at name_run to_brace
    skip_ticks starts_name
escaped = refl

single_quoted : double_evaluated_tokens is_space is_word "pwsh -Command 'Write \"$env:X\"'" ≡ []
unfolding double_evaluated_tokens nested_rest first_token skip_spaces quoted_rest bare_rest to_quote
    to_space is_interpreter same_folded fold base_name has_separator is_separator at_space has_char
    char_count walk stops_parsing after_stop at_dollar at_ticks token_at name_run to_brace
    skip_ticks starts_name
single_quoted = refl

stopped : double_evaluated_tokens is_space is_word "pwsh --% \"$x\"" ≡ []
unfolding double_evaluated_tokens nested_rest first_token skip_spaces quoted_rest bare_rest to_quote
    to_space is_interpreter same_folded fold base_name has_separator is_separator at_space has_char
    char_count walk stops_parsing after_stop at_dollar at_ticks token_at name_run to_brace
    skip_ticks starts_name
stopped = refl

not_nested : double_evaluated_tokens is_space is_word "echo \"$x\"" ≡ []
unfolding double_evaluated_tokens nested_rest first_token skip_spaces quoted_rest bare_rest to_quote
    to_space is_interpreter same_folded fold base_name has_separator is_separator at_space has_char
    char_count walk stops_parsing after_stop at_dollar at_ticks token_at name_run to_brace
    skip_ticks starts_name
not_nested = refl

abbrev encode : String → String
encode s = s

build_step_command_refuses_example :
    is_refused (
      build_step_command is_space is_word encode
        (resolve_shell false (some powershell))
        "pwsh -c \"$x\"")
    ≡ (under_powershell false (some powershell) && is_mangled is_space is_word "pwsh -c \"$x\"")
build_step_command_refuses_example =
    build_step_command_refuses is_space is_word encode false (some powershell) "pwsh -c \"$x\""

-- The second step overruns.
abbrev host : Host
host = record {
  windows = false;
  is_space = is_space;
  is_word = is_word;
  encode = encode;
  show = λ n. if n == 0 then "0" else "1";
  spawn = λ index argv. if index == 1 then overran else exited (pos 0);
}

abbrev three_steps : List Step
three_steps =
    record { run = "npm ci"; name = some "install"; shell = none }
    ∷ record { run = "npm test"; name = none; shell = some bash }
    ∷ record { run = "true"; name = none; shell = none }
    ∷ []

run_three : (run host full three_steps).0 ≡ err (setup_failed 1 "step-1" (negsuc 0) true)
unfolding run run_steps run_step spawn_step end_step command build_step_command is_powershell
    resolve_shell is_zero prepend step_name
run_three = refl

full-ne-isolation_none : full ≢ isolation_none
full-ne-isolation_none e = cc

run-Outcome_example : Outcome host 0 three_steps (run host full three_steps)
run-Outcome_example = run-Outcome host full three_steps full-ne-isolation_none
