-- ===== src/Plugins/Accounted.antt =====
-- Every enabled plugin is accounted for.
use lib_python_worktree.Prelude.{
  ℕ, ◌+◌, String, ◌≡◌, inl, inr, refl, Bool, Option, none, some, List, [], ◌∷◌, ◌++◌, if◌then◌else◌,
  str_eq, arith, Bool-cases,
}
use lib_python_worktree.Prelude.Int.{ℤ}
use lib_python_worktree.Prelude.Dict.{Dict}
use lib_python_worktree.Git.{is_exit}
use lib_python_worktree.Plugins.Registry.{Entry, Registry, find_clone_source}
use lib_python_worktree.Plugins.Install.{
  PluginInstallResult, State, Outside, read_enabled_plugins, resolve_claude_exe, add_installed,
  add_failed, clone_or, after_cli, install_by_cli, install_from, install_all, is_registered,
  registered_keys, remaining_keys, is_missing, install_keys, install_enabled_plugins,
}

-- How often a key stands in a list.
unfoldable pub times : String → List String → ℕ
times k [] = 0
times k (j ∷ js) = (if str_eq j k then 1 else 0) + times k js

-- How often a result reports a key.
abbrev pub reports : String → PluginInstallResult → ℕ
reports k r = times k r.installed + times k r.skipped + times k r.failed

times-append : (k : String) (xs ys : List String) → times k (xs ++ ys) ≡ times k xs + times k ys
unfolding times
times-append k [] ys = omega arith
times-append k (x ∷ xs) ys = omega (arith, times-append k xs ys)

module _ (o : Outside) (wt k : String) where
  add_installed-reports :
      (key : String) (r : PluginInstallResult)
      → reports k (add_installed o wt key r) ≡ reports k r + times k (key ∷ [])
  unfolding add_installed
  add_installed-reports key r = omega (arith, times-append k r.installed (key ∷ []))

  add_failed-reports :
      (key : String) (r : PluginInstallResult)
      → reports k (add_failed o wt key r) ≡ reports k r + times k (key ∷ [])
  unfolding add_failed
  add_failed-reports key r = omega (arith, times-append k r.failed (key ∷ []))

  clone_or-reports :
      (key : String) (source : Option Entry) (r : PluginInstallResult) (s : State)
      → reports k (clone_or o wt key source (r, s)).0 ≡ reports k r + times k (key ∷ [])
  unfolding clone_or
  clone_or-reports key none r s = add_failed-reports key r
  clone_or-reports key (some source) r s = add_installed-reports key r

  after_cli-reports :
      (key : String) (r : PluginInstallResult) (rc : ℤ) (s : State)
      → reports k (after_cli o wt key r (rc, s)).0 ≡ reports k r + times k (key ∷ [])
  unfolding after_cli
  after_cli-reports key r rc s = elim (Bool-cases (is_exit 0 rc)) [
    | inl e ↦ rw e (add_installed-reports key r)
    | inr e ↦ rw e (clone_or-reports key _ r s)
  ]

  install_from-reports :
      (exe : Option String) (key : String) (source : Option Entry) (r : PluginInstallResult)
      (s : State)
      → reports k (install_from o wt exe key source (r, s)).0 ≡ reports k r + times k (key ∷ [])
  unfolding install_from install_by_cli
  install_from-reports none key none r s = add_failed-reports key r
  install_from-reports (some exe) key none r s = after_cli-reports key r _ _
  install_from-reports exe key (some source) r s = add_installed-reports key r

  install_all-reports :
      (exe : Option String) (loaded : Registry) (keys : List String) (r : PluginInstallResult)
      (s : State)
      → reports k (install_all o wt exe loaded keys (r, s)).0 ≡ reports k r + times k keys
  unfolding install_all times
  install_all-reports exe loaded [] r s = omega arith
  install_all-reports exe loaded (key ∷ keys) r s = omega (
    arith,
    install_from-reports exe key (find_clone_source s.manifests loaded key) r s,
    install_all-reports exe loaded keys
        (install_from o wt exe key (find_clone_source s.manifests loaded key) (r, s)).0
        (install_from o wt exe key (find_clone_source s.manifests loaded key) (r, s)).1,
  )

  times-registered_keys :
      (s : State) (ks : List String)
      → times k (registered_keys o wt s ks) + times k (remaining_keys o wt s ks) ≡ times k ks
  unfolding times registered_keys remaining_keys
  times-registered_keys s [] = refl
  times-registered_keys s (j ∷ js) = elim (Bool-cases (is_registered o wt s j)) [
    | inl e ↦ rw e (omega (arith, times-registered_keys s js))
    | inr e ↦ rw e (omega (arith, times-registered_keys s js))
  ]

  install_keys-reports :
      (ks : List String) (s : State) → reports k (install_keys o wt ks s).0 ≡ times k ks
  unfolding install_keys times
  install_keys-reports [] s = refl
  install_keys-reports (j ∷ js) s = omega (
    arith,
    install_all-reports (resolve_claude_exe o.windows o.which) s.registry
        (remaining_keys o wt s (j ∷ js))
        (record {
          installed = [];
          skipped = registered_keys o wt s (j ∷ js);
          failed = [];
          claude_unavailable = is_missing (resolve_claude_exe o.windows o.which);
        })
        s,
    times-registered_keys s (j ∷ js),
  )

  -- Whatever the files hold and however the installs go, a call reports a plugin as installed, skipped
  -- or failed as often, taken together, as it stands among the enabled ones: no failure ends the batch,
  -- and nothing is reported twice.
  pub install_enabled_plugins-reports :
      (base local : Option (Dict Bool)) (s : State)
      → reports k (install_enabled_plugins o wt base local s).0
        ≡ times k (read_enabled_plugins base local)
  unfolding install_enabled_plugins
  install_enabled_plugins-reports base local s =
      install_keys-reports (read_enabled_plugins base local) s
