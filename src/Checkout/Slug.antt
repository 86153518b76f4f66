-- ===== src/Checkout/Slug.antt =====
-- `_slug`, which core/manager.py, core/checkout.py and core/yaml_store.py each have, and the ids
-- made with it. `lower`, `sha256` (the first eight hex digits) and `name` (of a path) are parameters.
use Prim.Native.Char.{Char, code}
use Prim.Native.String.{◌++◌ as join}
use lib_python_worktree.Prelude.{
  ℕ, String, Bool, true, false, ◌&&◌, ◌||◌, ◌==◌, leb, not, if◌then◌else◌, str_eq,
}
use lib_python_worktree.Prelude.Texts.{take_chars}

abbrev pub dash : Char
dash = "-"

-- `[a-z0-9]`
unfoldable pub is_alnum : ℕ → Bool
is_alnum c = (leb 97 c && leb c 122) || (leb 48 c && leb c 57)

-- What a character of the text leaves: itself, or a dash at the start of a run.
unfoldable pub emit : (keep in_run : Bool) → Char → String → String
emit true in_run c s = String.◌∷◌ c s
emit false true c s = s
emit false false c s = String.◌∷◌ dash s

-- `_SLUG_RE.sub("-", s)`, from inside a run or not.
unfoldable pub dash_runs : Bool → String → String
dash_runs in_run String.[] = String.[]
dash_runs in_run (String.◌∷◌ c s) =
    emit (is_alnum (code c)) in_run c (dash_runs (not (is_alnum (code c))) s)

-- `s.lstrip("-")`
unfoldable pub lstrip_dashes : String → String
lstrip_dashes String.[] = String.[]
lstrip_dashes (String.◌∷◌ c s) =
    let rest = lstrip_dashes s in if code c == 45 then rest else String.◌∷◌ c s

-- `s.rstrip("-")`
unfoldable pub rstrip_dashes : String → String
rstrip_dashes String.[] = String.[]
rstrip_dashes (String.◌∷◌ c s) =
    let rest = rstrip_dashes s in
    if (code c == 45) && str_eq rest "" then String.[] else String.◌∷◌ c rest

module _ (lower : String → String) where
  unfoldable pub slug_text : String → String
  slug_text value = rstrip_dashes (lstrip_dashes (dash_runs false (lower value)))

  -- `_slug(value)`
  unfoldable pub slug : String → String
  slug value = take_chars 40 (if str_eq (slug_text value) "" then "x" else slug_text value)

  module _ (sha256 name : String → String) where
    -- `primary_id_for`, of a resolved root
    unfoldable pub primary_id_for : String → String
    primary_id_for root = join (slug (name root)) (join "-root-" (sha256 root))

    -- `untracked_id_for`, of a resolved path
    unfoldable pub untracked_id_for : String → String
    untracked_id_for path = join (slug (name path)) (join "-untracked-" (sha256 path))
