-- ===== src/Plugins/Clones.antt =====
-- A clone registers its plugin, and takes no registration away.
use lib_python_worktree.Prelude.{
  String, ◌≡◌, inl, inr, refl, sym, ap, ◌∙◌, Bool, true, false, Option, none, some, List, [], ◌∷◌,
  ◌++◌, ◌&&◌, ◌||◌, if◌then◌else◌, str_eq, arith, eq_iff, eq_refl, Bool-cases,
}
use lib_python_worktree.Prelude.Dict.{Dict, lookup-insert}
use lib_python_worktree.Prelude.Lists.{All}
use lib_python_worktree.Plugins.Registry.{
  Entry, Registry, listed, entries_of, any_entry, is_text, same_value, is_structurally_valid,
  is_older, best_of, candidates, best_candidate, find_clone_source, is_project_at,
  already_registered, cloned, clone_into, clone_entry_to_worktree,
}

any_entry-append :
    (p : Entry → Bool) (es fs : List (Option Entry))
    → any_entry p (es ++ fs) ≡ (any_entry p es || any_entry p fs)
unfolding any_entry
any_entry-append p [] fs = refl
any_entry-append p (none ∷ es) fs = any_entry-append p es fs
any_entry-append p (some e ∷ es) fs = ground (arith, any_entry-append p es fs)

any_entry_implies :
    (p q : Entry → Bool) (es : List (Option Entry))
    → ((e : Entry) → p e ≡ true → q e ≡ true)
    → any_entry p es ≡ true
    → any_entry q es ≡ true
unfolding any_entry
any_entry_implies p q [] f h = h
any_entry_implies p q (none ∷ es) f h = any_entry_implies p q es f h
any_entry_implies p q (some e ∷ es) f h = ground (arith, h, f e, any_entry_implies p q es f)

module _ (manifests : List String) where
  abbrev pub IsValid : Entry → Type 0
  IsValid e = is_structurally_valid manifests e.install_path ≡ true

  candidates-IsValid : (es : List (Option Entry)) → All IsValid (candidates manifests es)
  unfolding candidates
  candidates-IsValid [] = tt
  candidates-IsValid (none ∷ es) = candidates-IsValid es
  candidates-IsValid (some e ∷ es) =
      elim (Bool-cases (is_structurally_valid manifests e.install_path)) [
        | inl v ↦ rw v (v, candidates-IsValid es)
        | inr v ↦ rw v (candidates-IsValid es)
      ]

  best_of-IsValid :
      (best : Entry) (es : List Entry) → IsValid best → All IsValid es → IsValid (best_of best es)
  unfolding best_of
  best_of-IsValid best [] v vs = v
  best_of-IsValid best (e ∷ es) v (w, vs) =
      best_of-IsValid (if is_older e best then best else e) es (either (is_older e best)) vs
    where
      either : (b : Bool) → IsValid (if b then best else e)
      either true = v
      either false = w

  best_candidate-IsValid :
      (es : List Entry) (source : Entry)
      → All IsValid es
      → best_candidate es ≡ some source
      → IsValid source
  unfolding best_candidate
  best_candidate-IsValid [] source vs h = absurd (cc)
  best_candidate-IsValid (e ∷ es) source (v, vs) h =
      let same : best_of e es ≡ source = cc in
      ap (λ (x : Entry). is_structurally_valid manifests x.install_path) (sym same)
      ∙ best_of-IsValid e es v vs

  pub find_clone_source-IsValid :
      (registry : Registry) (key : String) (source : Entry)
      → find_clone_source manifests registry key ≡ some source
      → IsValid source
  unfolding find_clone_source
  find_clone_source-IsValid registry key source h =
      best_candidate-IsValid _ source (candidates-IsValid (entries_of registry key)) h

  -- Two valid install paths that are the same text.
  same_value-valid :
      (a b : Option String)
      → same_value a b ≡ true
      → is_structurally_valid manifests b ≡ true
      → is_structurally_valid manifests a ≡ true
  unfolding same_value is_text is_structurally_valid
  same_value-valid none none h v = v
  same_value-valid none (some t) h v = absurd (cc)
  same_value-valid (some s) none h v = absurd (cc)
  same_value-valid (some s) (some t) h v =
      ap (λ x. is_structurally_valid manifests (some x)) (sym ((eq_iff t s).0 h)) ∙ v

  module _ (str_path normcase : String → String) where
    abbrev registers : String → Entry → Bool
    registers dest e =
        is_project_at str_path normcase dest e && is_structurally_valid manifests e.install_path

    registers-cloned :
        (source : Entry) (dest : String)
        → str_path dest ≡ dest
        → IsValid source
        → registers dest (cloned str_path normcase source dest) ≡ true
    unfolding is_project_at cloned is_text
    registers-cloned source dest same v = rw (same, v) (ground (arith, eq_refl (normcase dest)))

    clone_into-registers :
        (key : String) (source : Entry) (dest : String) (es : List (Option Entry))
        (plugins : Dict (Option (List (Option Entry))))
        → es ≡ entries_of (some plugins) key
        → str_path dest ≡ dest
        → IsValid source
        → any_entry
            (registers dest)
            (entries_of (clone_into str_path normcase key source dest es plugins) key)
          ≡ true
    unfolding clone_into entries_of listed any_entry
    clone_into-registers key source dest es plugins same path v =
        elim (Bool-cases (
          any_entry
            (λ e.
              is_project_at str_path normcase dest e
              && same_value e.install_path source.install_path)
            es)) [
              | inl h ↦
                  rw (h, sym same)
                    (any_entry_implies _ (registers dest) es
                      (λ e p.
                        ground (arith, p, v, same_value-valid e.install_path source.install_path))
                      h)
              | inr h ↦
                  rw
                    (
                      h,
                      lookup-insert key key
                          (some (es ++ (some (cloned str_path normcase source dest) ∷ []))) plugins,
                      eq_refl key,
                    )
                    (any_entry-append (registers dest) es _
                      ∙ ground (arith, registers-cloned source dest path v))
            ]

    -- What another plugin has, and what this one had, stays.
    clone_into-keeps :
        (key other : String) (source : Entry) (dest : String) (p : Entry → Bool)
        (plugins : Dict (Option (List (Option Entry))))
        → any_entry p (entries_of (some plugins) other) ≡ true
        → any_entry p (
            entries_of
              (clone_into str_path normcase key source dest (entries_of (some plugins) key) plugins)
              other)
          ≡ true
    unfolding clone_into entries_of listed any_entry
    clone_into-keeps key other source dest p plugins h =
        elim (Bool-cases (
          any_entry
            (λ e.
              is_project_at str_path normcase dest e
              && same_value e.install_path source.install_path)
            (entries_of (some plugins) key))) [
              | inl g ↦ rw g h
              | inr g ↦
                  rw
                    (
                      g,
                      lookup-insert key other
                          (some (
                            entries_of (some plugins) key
                            ++ (some (cloned str_path normcase source dest) ∷ [])))
                          plugins,
                    )
                    (elim (Bool-cases (str_eq key other)) [
                      | inr q ↦ rw q h
                      | inl q ↦ rw q (
                          any_entry-append p (entries_of (some plugins) key) _
                          ∙ ground (
                            arith,
                            h,
                            ap (λ k. any_entry p (entries_of (some plugins) k))
                                ((eq_iff key other).0 q),
                          ))
                    ])
            ]

    -- The clone of a valid entry registers the plugin for the worktree.
    pub clone-already_registered :
        (key : String) (source : Entry) (wt : String)
        (plugins : Dict (Option (List (Option Entry))))
        → str_path (str_path wt) ≡ str_path wt
        → IsValid source
        → already_registered str_path normcase manifests
            (clone_entry_to_worktree str_path normcase key source wt (some plugins))
            key
            wt
          ≡ true
    unfolding already_registered clone_entry_to_worktree
    clone-already_registered key source wt plugins path v =
        clone_into-registers key source (str_path wt) _ plugins refl path v

    pub clone-keeps_registered :
        (key other : String) (source : Entry) (wt : String) (registry : Registry)
        → already_registered str_path normcase manifests registry other wt ≡ true
        → already_registered str_path normcase manifests
            (clone_entry_to_worktree str_path normcase key source wt registry)
            other
            wt
          ≡ true
    unfolding already_registered clone_entry_to_worktree
    clone-keeps_registered key other source wt none h = h
    clone-keeps_registered key other source wt (some plugins) h =
        clone_into-keeps key other source (str_path wt) _ plugins h
