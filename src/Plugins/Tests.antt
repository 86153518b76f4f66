-- ===== src/Plugins/Tests.antt =====
-- Two enabled plugins: one is cloned, for the other the CLI fails.
use lib_python_worktree.Git.{is_exit}
use lib_python_worktree.Prelude.Texts.{less_text}
use lib_python_worktree.Prelude.{◌≡◌, refl, Bool, true, false, Option, none, some, [], ◌∷◌}
use lib_python_worktree.Prelude.Int.{pos}
use lib_python_worktree.Prelude.Dict.{Dict, insert}
use lib_python_worktree.Plugins.Registry.{
  Entry, is_older, best_candidate, same_value, clone_into, best_of, cloned, candidates,
  clone_entry_to_worktree, find_clone_source, or_empty_key,
}
use lib_python_worktree.Plugins.Registry.{
  already_registered, any_entry, entries_of, listed, is_project_at, is_text, is_structurally_valid,
}
use lib_python_worktree.Prelude.Lists.{has}
use lib_python_worktree.Prelude.Dict.{lookup}
use lib_python_worktree.Plugins.Install.{
  is_registered, State, Outside, install_enabled_plugins, read_enabled_plugins, or_no_plugins,
  truthy_keys, update_all, with_clone, clone_or, first_found, install_from, remaining_keys,
  install_all, install_keys, add_installed, registered_keys, is_missing, resolve_claude_exe,
  install_by_cli, after_cli, add_failed,
}
use lib_python_worktree.Plugins.Registered.{IsInstaller, IsSound, install_enabled_plugins-IsSound}

abbrev fmt_entry : Entry
fmt_entry = record {
  scope = some "user";
  project_path = none;
  install_path = some "/p/fmt";
  installed_at = some "2026-01-01";
  resolved_version = some "1.0.0";
}

abbrev before : State
before = record {
  registry = some (("fmt", some (some fmt_entry ∷ [])) ∷ []);
  manifests = "/p/fmt" ∷ [];
}

-- A CLI that always fails, and changes nothing.
abbrev outside : Outside
outside = record {
  str_path = λ p. p;
  normcase = λ p. p;
  windows = false;
  which = λ name. some "/bin/claude";
  cli = λ exe key s. (pos 1, s);
}

abbrev base : Option (Dict Bool)
base = some (("fmt", true) ∷ ("lint", true) ∷ ("old", true) ∷ [])

abbrev local : Option (Dict Bool)
local = some (("old", false) ∷ [])

enabled : read_enabled_plugins base local ≡ "fmt" ∷ "lint" ∷ []
unfolding read_enabled_plugins truthy_keys update_all or_no_plugins insert
enabled = refl

run_result : (install_enabled_plugins outside "/w/a" base local before).0 ≡ record {
  installed = "fmt" ∷ [];
  skipped = [];
  failed = "lint" ∷ [];
  claude_unavailable = false;
}
unfolding install_enabled_plugins read_enabled_plugins truthy_keys update_all or_no_plugins insert
    is_registered already_registered any_entry entries_of listed lookup is_project_at is_text
    is_structurally_valid has install_keys install_all remaining_keys add_failed add_installed
    after_cli clone_or first_found install_by_cli install_from is_missing registered_keys
    resolve_claude_exe with_clone best_candidate best_of candidates clone_entry_to_worktree
    clone_into cloned find_clone_source is_older or_empty_key same_value is_exit less_text
run_result = refl

outside-IsInstaller : IsInstaller outside "/w/a"
unfolding is_exit
outside-IsInstaller = record {
  file = λ exe key s h. h;
  keeps = λ exe key other s h. h;
  registers = λ exe key s h. absurd (cc h);
  path = refl;
}

install_enabled_plugins-IsSound_example :
    IsSound outside "/w/a" (install_enabled_plugins outside "/w/a" base local before)
install_enabled_plugins-IsSound_example =
    install_enabled_plugins-IsSound outside "/w/a" outside-IsInstaller base local before (_, refl)
