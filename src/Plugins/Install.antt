-- ===== src/Plugins/Install.antt =====
-- `install_enabled_plugins`. The texts of the warnings and the logs are left out.
use lib_python_worktree.Prelude.{
  String, Bool, true, false, Option, none, some, List, [], ◌∷◌, ◌++◌, if◌then◌else◌, str_eq,
}
use lib_python_worktree.Prelude.Int.{ℤ}
use lib_python_worktree.Prelude.Dict.{Dict, insert}
use lib_python_worktree.Git.{is_exit}
use lib_python_worktree.Plugins.Registry.{
  Registry, Entry, find_clone_source, already_registered, clone_entry_to_worktree,
}

pub record PluginInstallResult : Type 0 where
  pub installed : List String
  pub skipped : List String
  pub failed : List String
  pub claude_unavailable : Bool

-- The file, and the install paths that have a manifest which parses.
pub record State : Type 0 where
  pub registry : Registry
  pub manifests : List String

-- `merged.update(d)`
unfoldable pub update_all : Dict Bool → Dict Bool → Dict Bool
update_all merged [] = merged
update_all merged ((k, v) ∷ d) = update_all (insert k v merged) d

unfoldable pub truthy_keys : Dict Bool → List String
truthy_keys [] = []
truthy_keys ((k, v) ∷ d) = let rest = truthy_keys d in if v then k ∷ rest else rest

unfoldable pub or_no_plugins : Option (Dict Bool) → Dict Bool
or_no_plugins none = []
or_no_plugins (some d) = d

-- `_read_enabled_plugins`, by the truth of the values of `enabledPlugins` in both files; `none` where
-- there is no such object.
unfoldable pub read_enabled_plugins : Option (Dict Bool) → Option (Dict Bool) → List String
read_enabled_plugins base local =
    truthy_keys (update_all (update_all [] (or_no_plugins base)) (or_no_plugins local))

unfoldable pub first_found : (String → Option String) → List String → Option String
first_found which [] = none
first_found which (name ∷ names) =
    let rest = first_found which names in
    elim (which name) [ none ↦ rest | some exe ↦ if str_eq exe "" then rest else some exe ]

-- `_resolve_claude_exe`
unfoldable pub resolve_claude_exe : Bool → (String → Option String) → Option String
resolve_claude_exe windows which =
    first_found which ("claude" ∷ (if windows then "claude.cmd" ∷ "claude.exe" ∷ [] else []))

-- The outside: `cli` runs `<exe> plugin install <key> --scope project` in the worktree, and yields -1
-- where it is cut off or cannot be started.
pub record Outside : Type 0 where
  pub str_path : String → String
  pub normcase : String → String
  pub windows : Bool
  pub which : String → Option String
  pub cli : (exe key : String) → State → ℤ × State

unfoldable pub is_missing : Option String → Bool
is_missing none = true
is_missing (some exe) = false

module _ (o : Outside) (worktree_path : String) where
  unfoldable pub with_clone : String → Entry → State → State
  with_clone key source s = record s {
    registry = clone_entry_to_worktree o.str_path o.normcase key source worktree_path s.registry;
  }

  unfoldable pub add_installed : String → PluginInstallResult → PluginInstallResult
  add_installed key r = record r { installed = r.installed ++ (key ∷ []) }

  unfoldable pub add_failed : String → PluginInstallResult → PluginInstallResult
  add_failed key r = record r { failed = r.failed ++ (key ∷ []) }

  -- The second chance for a clone, else a failure.
  unfoldable pub clone_or :
      String → Option Entry → PluginInstallResult × State → PluginInstallResult × State
  clone_or key none (r, s) = (add_failed key r, s)
  clone_or key (some source) (r, s) = (add_installed key r, with_clone key source s)

  unfoldable pub after_cli : String → PluginInstallResult → ℤ × State → PluginInstallResult × State
  after_cli key r (rc, s) =
      if is_exit 0 rc
      then (add_installed key r, s)
      else clone_or key (find_clone_source s.manifests s.registry key) (r, s)

  unfoldable pub install_by_cli :
      Option String → String → PluginInstallResult × State → PluginInstallResult × State
  install_by_cli none key (r, s) = (add_failed key r, s)
  install_by_cli (some exe) key (r, s) = after_cli key r (o.cli exe key s)

  -- One round of the loop over `remaining`; the source is of the registry as it was loaded first.
  unfoldable pub install_from :
      Option String
      → String
      → Option Entry
      → PluginInstallResult × State
      → PluginInstallResult × State
  install_from exe key (some source) (r, s) = (add_installed key r, with_clone key source s)
  install_from exe key none (r, s) = install_by_cli exe key (r, s)

  unfoldable pub install_all :
      Option String
      → Registry
      → List String
      → PluginInstallResult × State
      → PluginInstallResult × State
  install_all exe loaded [] (r, s) = (r, s)
  install_all exe loaded (key ∷ keys) (r, s) =
      install_all exe loaded keys
        (install_from exe key (find_clone_source s.manifests loaded key) (r, s))

  unfoldable pub is_registered : State → String → Bool
  is_registered s key =
      already_registered o.str_path o.normcase s.manifests s.registry key worktree_path

  -- `result.skipped` and `remaining`
  unfoldable pub registered_keys : State → List String → List String
  registered_keys s [] = []
  registered_keys s (k ∷ ks) =
      let rest = registered_keys s ks in if is_registered s k then k ∷ rest else rest

  unfoldable pub remaining_keys : State → List String → List String
  remaining_keys s [] = []
  remaining_keys s (k ∷ ks) =
      let rest = remaining_keys s ks in if is_registered s k then rest else k ∷ rest

  unfoldable pub install_keys : List String → State → PluginInstallResult × State
  install_keys [] s =
      (record { installed = []; skipped = []; failed = []; claude_unavailable = false }, s)
  install_keys (k ∷ ks) s =
      let exe = resolve_claude_exe o.windows o.which in
      install_all exe s.registry (remaining_keys s (k ∷ ks)) (
        record {
          installed = [];
          skipped = registered_keys s (k ∷ ks);
          failed = [];
          claude_unavailable = is_missing exe;
        },
        s,
      )

  -- `install_enabled_plugins`
  unfoldable pub install_enabled_plugins :
      Option (Dict Bool) → Option (Dict Bool) → State → PluginInstallResult × State
  install_enabled_plugins base local s = install_keys (read_enabled_plugins base local) s
