-- ===== src/Plugins/Registry.antt =====
-- `installed_plugins.json` and the entries that are looked for and cloned. `str_path` stands for
-- `str(Path(p))`, `normcase` for `os.path.normcase`.
use lib_python_worktree.Prelude.{
  String, Bool, true, false, Option, none, some, List, [], ◌∷◌, ◌++◌, ◌&&◌, ◌||◌, not,
  if◌then◌else◌, str_eq,
}
use lib_python_worktree.Prelude.Dict.{Dict, lookup, insert}
use lib_python_worktree.Prelude.Lists.{has}
use lib_python_worktree.Prelude.Texts.{less_text}

-- An entry of a plugin; `none` is a value that is missing, null or no text.
pub record Entry : Type 0 where
  pub scope : Option String
  pub project_path : Option String
  pub install_path : Option String
  pub installed_at : Option String
  pub resolved_version : Option String

-- The file: `none` is one that is missing, malformed or of another version. Of a plugin, `none` is a
-- value that is no list; in a list, one that is no object.
abbrev pub Registry : Type 0
Registry = Option (Dict (Option (List (Option Entry))))

-- `data["plugins"].get(key)`, with no entries for what is no list.
unfoldable pub listed : Option (Option (List (Option Entry))) → List (Option Entry)
listed none = []
listed (some none) = []
listed (some (some es)) = es

unfoldable pub entries_of : Registry → String → List (Option Entry)
entries_of none key = []
entries_of (some plugins) key = listed (lookup key plugins)

unfoldable pub any_entry : (Entry → Bool) → List (Option Entry) → Bool
any_entry p [] = false
any_entry p (none ∷ es) = any_entry p es
any_entry p (some e ∷ es) = p e || any_entry p es

unfoldable pub is_text : String → Option String → Bool
is_text s none = false
is_text s (some t) = str_eq t s

-- `a == b` of two values of `.get`
unfoldable pub same_value : Option String → Option String → Bool
same_value none none = true
same_value none (some t) = false
same_value (some s) b = is_text s b

-- `_is_structurally_valid`, by the install paths that have a manifest which parses.
unfoldable pub is_structurally_valid : List String → Option String → Bool
is_structurally_valid manifests none = false
is_structurally_valid manifests (some path) = not (str_eq path "") && has path manifests

unfoldable pub or_empty_key : Option String → String
or_empty_key none = ""
or_empty_key (some s) = s

-- `_sort_key(a) < _sort_key(b)`
unfoldable pub is_older : Entry → Entry → Bool
is_older a b =
    less_text (or_empty_key a.installed_at) (or_empty_key b.installed_at)
    || (str_eq (or_empty_key a.installed_at) (or_empty_key b.installed_at)
        && less_text (or_empty_key a.resolved_version) (or_empty_key b.resolved_version))

unfoldable pub best_of : Entry → List Entry → Entry
best_of best [] = best
best_of best (e ∷ es) = best_of (if is_older e best then best else e) es

unfoldable pub candidates : List String → List (Option Entry) → List Entry
candidates manifests [] = []
candidates manifests (none ∷ es) = candidates manifests es
candidates manifests (some e ∷ es) =
    let rest = candidates manifests es in
    if is_structurally_valid manifests e.install_path then e ∷ rest else rest

unfoldable pub best_candidate : List Entry → Option Entry
best_candidate [] = none
best_candidate (e ∷ es) = some (best_of e es)

unfoldable pub find_clone_source : List String → Registry → String → Option Entry
find_clone_source manifests registry key =
    best_candidate (candidates manifests (entries_of registry key))

module _ (str_path normcase : String → String) where
  unfoldable pub is_project_at : String → Entry → Bool
  is_project_at dest e = is_text "project" e.scope && elim e.project_path [
    | none ↦ false
    | some p ↦ str_eq (normcase (str_path p)) (normcase dest)
  ]

  -- `_already_registered`
  unfoldable pub already_registered : List String → Registry → String → String → Bool
  already_registered manifests registry key worktree_path =
      any_entry
        (λ e.
          is_project_at (str_path worktree_path) e
          && is_structurally_valid manifests e.install_path)
        (entries_of registry key)

  unfoldable pub cloned : Entry → String → Entry
  cloned source dest = record source { scope = some "project"; project_path = some dest }

  -- `plugins[key]` with the clone, unless there is one.
  unfoldable pub clone_into :
      String → Entry → String → List (Option Entry) → Dict (Option (List (Option Entry))) → Registry
  clone_into key source dest es plugins =
      if any_entry (λ e. is_project_at dest e && same_value e.install_path source.install_path) es
      then some plugins
      else some (insert key (some (es ++ (some (cloned source dest) ∷ []))) plugins)

  -- `_clone_entry_to_worktree`
  unfoldable pub clone_entry_to_worktree : String → Entry → String → Registry → Registry
  clone_entry_to_worktree key source worktree_path none = none
  clone_entry_to_worktree key source worktree_path (some plugins) =
      clone_into key source (str_path worktree_path) (entries_of (some plugins) key) plugins
