-- ===== src/Ports/Keys.antt =====
-- The keys of ports.yaml, `<worktree id>:<slot>` (`_PORT_KEY_SEP` of core/yaml_store.py).
use Prim.Native.Char.{code}
use Prim.Native.String.{◌++◌}
unfoldable pub use lib_python_worktree.Prelude.Texts.{has_prefix}
use lib_python_worktree.Prelude.{String, Bool, true, false, ◌==◌, if◌then◌else◌}

abbrev pub key_sep : String
key_sep = ":"

-- `f"{worktree_id}:{slot}"`
unfoldable pub port_key : String → String → String
port_key wid slot = wid ++ (key_sep ++ slot)

-- `name.split(":", 1)[0]`
unfoldable pub owner_id : String → String
owner_id String.[] = String.[]
owner_id (String.◌∷◌ c k) = if code c == b':' then String.[] else String.◌∷◌ c (owner_id k)

-- No character of the text is the separator.
unfoldable pub is_plain : String → Bool
is_plain String.[] = true
is_plain (String.◌∷◌ c s) = if code c == b':' then false else is_plain s
