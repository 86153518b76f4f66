-- ===== src/Plugins/Registered.antt =====
-- The registrations behind what a call reports as installed or skipped.
use lib_python_worktree.Prelude.{
  String, ◌≡◌, inl, inr, refl, ap, ◌∙◌, Bool, true, Option, none, some, List, [], ◌∷◌, ◌&&◌,
  Bool-cases,
}
use lib_python_worktree.Prelude.Int.{ℤ}
use lib_python_worktree.Prelude.Dict.{Dict}
use lib_python_worktree.Prelude.Lists.{All, All-append}
use lib_python_worktree.Git.{is_exit}
use lib_python_worktree.Plugins.Registry.{
  Entry, Registry, already_registered, clone_entry_to_worktree, clone_into, entries_of, any_entry,
  is_project_at, same_value,
}
use lib_python_worktree.Plugins.Install.{
  PluginInstallResult, State, Outside, read_enabled_plugins, resolve_claude_exe, with_clone,
  add_installed, add_failed, clone_or, after_cli, install_by_cli, install_from, install_all,
  is_registered, registered_keys, install_keys, install_enabled_plugins,
}
use lib_python_worktree.Plugins.Clones.{
  IsValid, find_clone_source-IsValid, clone-already_registered, clone-keeps_registered,
}

-- The file is one of version 2.
abbrev pub HasRegistry : State → Type 0
HasRegistry s = (plugins : Dict (Option (List (Option Entry)))) × (s.registry ≡ some plugins)

module _ (o : Outside) (wt : String) where
  abbrev pub IsRegistered : State → String → Type 0
  IsRegistered s key = is_registered o wt s key ≡ true

  -- `claude plugin install` leaves a file of version 2 and takes no registration of the worktree away;
  -- where it succeeds it registers the plugin.
  pub record IsInstaller : Type 0 where
    pub file : (exe key : String) (s : State) → HasRegistry s → HasRegistry (o.cli exe key s).1
    pub keeps :
        (exe key other : String) (s : State)
        → IsRegistered s other
        → IsRegistered (o.cli exe key s).1 other
    pub registers :
        (exe key : String) (s : State)
        → is_exit 0 (o.cli exe key s).0 ≡ true
        → IsRegistered (o.cli exe key s).1 key
    pub path : o.str_path (o.str_path wt) ≡ o.str_path wt

  -- The state is sound for what the result reports.
  pub record IsSound (x : PluginInstallResult × State) : Type 0 where
    pub file : HasRegistry (x.1)
    pub installed : All (IsRegistered (x.1)) x.0.installed
    pub skipped : All (IsRegistered (x.1)) x.0.skipped

  All-mono :
      (s t : State) (ks : List String)
      → ((k : String) → IsRegistered s k → IsRegistered t k)
      → All (IsRegistered s) ks
      → All (IsRegistered t) ks
  All-mono s t [] f h = tt
  All-mono s t (k ∷ ks) f (p, ps) = (f k p, All-mono s t ks f ps)

  -- A step that takes no registration away.
  IsSound-step :
      (r : PluginInstallResult) (s t : State)
      → IsSound (r, s)
      → HasRegistry t
      → ((k : String) → IsRegistered s k → IsRegistered t k)
      → IsSound (r, t)
  IsSound-step r s t h file f = record {
    file = file;
    installed = All-mono s t r.installed f h.installed;
    skipped = All-mono s t r.skipped f h.skipped;
  }

  add_installed-IsSound :
      (key : String) (r : PluginInstallResult) (s : State)
      → IsSound (r, s)
      → IsRegistered s key
      → IsSound (add_installed o wt key r, s)
  unfolding add_installed
  add_installed-IsSound key r s h p = record {
    file = h.file;
    installed = All-append (IsRegistered s) r.installed (key ∷ []) h.installed (p, tt);
    skipped = h.skipped;
  }

  add_failed-IsSound :
      (key : String) (r : PluginInstallResult) (s : State)
      → IsSound (r, s)
      → IsSound (add_failed o wt key r, s)
  unfolding add_failed
  add_failed-IsSound key r s h = record {
    file = h.file;
    installed = h.installed;
    skipped = h.skipped;
  }

  with_clone-keeps :
      (key other : String) (source : Entry) (s : State)
      → IsRegistered s other
      → IsRegistered (with_clone o wt key source s) other
  unfolding with_clone is_registered
  with_clone-keeps key other source s h =
      clone-keeps_registered s.manifests o.str_path o.normcase key other source wt s.registry h

  clone_into-some :
      (key : String) (source : Entry) (dest : String) (es : List (Option Entry))
      (plugins : Dict (Option (List (Option Entry))))
      → (after : Dict (Option (List (Option Entry)))) × (clone_into o.str_path o.normcase key source
            dest es plugins
          ≡ some after)
  unfolding clone_into
  clone_into-some key source dest es plugins =
      elim (Bool-cases (
        any_entry
          (λ e.
            is_project_at o.str_path o.normcase dest e
            && same_value e.install_path source.install_path)
          es)) [ inl e ↦ rw e (_, refl) | inr e ↦ rw e (_, refl) ]

  with_clone-HasRegistry :
      (key : String) (source : Entry) (s : State)
      → HasRegistry s
      → HasRegistry (with_clone o wt key source s)
  unfolding with_clone clone_entry_to_worktree
  with_clone-HasRegistry key source s (plugins, e) =
      let (after, q) =
        clone_into-some key source (o.str_path wt) (entries_of (some plugins) key) plugins in
      (after, ap (λ g. clone_entry_to_worktree o.str_path o.normcase key source wt g) e ∙ q)

  with_clone-IsRegistered :
      (key : String) (source : Entry) (s : State)
      → o.str_path (o.str_path wt) ≡ o.str_path wt
      → HasRegistry s
      → IsValid s.manifests source
      → IsRegistered (with_clone o wt key source s) key
  unfolding with_clone is_registered
  with_clone-IsRegistered key source s path (plugins, e) v =
      ap
        (λ g.
          already_registered o.str_path o.normcase s.manifests
            (clone_entry_to_worktree o.str_path o.normcase key source wt g) key wt)
        e
      ∙ clone-already_registered s.manifests o.str_path o.normcase key source wt plugins path v

  module _ (cli : IsInstaller) where
    cloned-IsSound :
        (key : String) (source : Entry) (r : PluginInstallResult) (s : State)
        → IsSound (r, s)
        → IsValid s.manifests source
        → IsSound (add_installed o wt key r, with_clone o wt key source s)
    cloned-IsSound key source r s h v =
        add_installed-IsSound key r _
          (IsSound-step r s _ h (with_clone-HasRegistry key source s h.file)
            (λ k. with_clone-keeps key k source s))
          (with_clone-IsRegistered key source s cli.path h.file v)

    clone_or-IsSound :
        (key : String) (source : Option Entry) (r : PluginInstallResult) (s : State)
        → ((e : Entry) → source ≡ some e → IsValid s.manifests e)
        → IsSound (r, s)
        → IsSound (clone_or o wt key source (r, s))
    unfolding clone_or
    clone_or-IsSound key none r s v h = add_failed-IsSound key r s h
    clone_or-IsSound key (some source) r s v h = cloned-IsSound key source r s h (v source refl)

    after_cli-IsSound :
        (key : String) (r : PluginInstallResult) (rc : ℤ) (s : State)
        → (is_exit 0 rc ≡ true → IsRegistered s key)
        → IsSound (r, s)
        → IsSound (after_cli o wt key r (rc, s))
    unfolding after_cli
    after_cli-IsSound key r rc s p h = elim (Bool-cases (is_exit 0 rc)) [
      | inl e ↦ rw e (add_installed-IsSound key r s h (p e))
      | inr e ↦ rw e (
          clone_or-IsSound key _ r s
            (λ x q. find_clone_source-IsValid s.manifests s.registry key x q) h)
    ]

    install_by_cli-IsSound :
        (exe : Option String) (key : String) (r : PluginInstallResult) (s : State)
        → IsSound (r, s)
        → IsSound (install_by_cli o wt exe key (r, s))
    unfolding install_by_cli
    install_by_cli-IsSound none key r s h = add_failed-IsSound key r s h
    install_by_cli-IsSound (some exe) key r s h =
        after_cli-IsSound key r (o.cli exe key s).0 (o.cli exe key s).1 (cli.registers exe key s)
          (IsSound-step r s _ h (cli.file exe key s h.file) (λ k. cli.keeps exe key k s))

    install_from-IsSound :
        (exe : Option String) (key : String) (source : Option Entry) (r : PluginInstallResult)
        (s : State)
        → ((e : Entry) → source ≡ some e → IsValid s.manifests e)
        → IsSound (r, s)
        → IsSound (install_from o wt exe key source (r, s))
    unfolding install_from
    install_from-IsSound exe key none r s v h = install_by_cli-IsSound exe key r s h
    install_from-IsSound exe key (some source) r s v h =
        cloned-IsSound key source r s h (v source refl)

    install_all-IsSound :
        (exe : Option String) (loaded : Registry) (keys : List String) (r : PluginInstallResult)
        (s : State)
        → IsSound (r, s)
        → IsSound (install_all o wt exe loaded keys (r, s))
    unfolding install_all
    install_all-IsSound exe loaded [] r s h = h
    install_all-IsSound exe loaded (key ∷ keys) r s h = install_all-IsSound exe loaded keys _ _ (
        install_from-IsSound exe key _ r s
          (λ x q. find_clone_source-IsValid s.manifests loaded key x q) h)

    registered_keys-IsRegistered :
        (s : State) (ks : List String) → All (IsRegistered s) (registered_keys o wt s ks)
    unfolding registered_keys
    registered_keys-IsRegistered s [] = tt
    registered_keys-IsRegistered s (k ∷ ks) = elim (Bool-cases (is_registered o wt s k)) [
      | inl e ↦ rw (All, e) (e, registered_keys-IsRegistered s ks)
      | inr e ↦ rw (All, e) (registered_keys-IsRegistered s ks)
    ]

    install_keys-IsSound :
        (ks : List String) (s : State) → HasRegistry s → IsSound (install_keys o wt ks s)
    unfolding install_keys
    install_keys-IsSound [] s file = record { file = file; installed = tt; skipped = tt }
    install_keys-IsSound (k ∷ ks) s file =
        install_all-IsSound (resolve_claude_exe o.windows o.which) s.registry _ _ s (record {
          file = file;
          installed = tt;
          skipped = registered_keys-IsRegistered s (k ∷ ks);
        })

    -- If the file is of version 2 and `claude plugin install` registers where it succeeds and takes
    -- nothing away, then every plugin that a call reports as installed or as skipped is registered for
    -- the worktree in the end, with an install path that has a manifest; those that are cloned as well,
    -- though their sources are looked for in the file as it was at first.
    pub install_enabled_plugins-IsSound :
        (base local : Option (Dict Bool)) (s : State)
        → HasRegistry s
        → IsSound (install_enabled_plugins o wt base local s)
    unfolding install_enabled_plugins
    install_enabled_plugins-IsSound base local s file =
        install_keys-IsSound (read_enabled_plugins base local) s file
