-- ===== src/Contract/Slug.antt =====
-- The names that `_PORT_NAME_RE`, `^[a-z][a-z0-9_]{0,31}$`, matches. `$` matches at the end of the
-- text, and before a line feed that ends it.
use Prim.Native.Char.{code}
use lib_python_worktree.Prelude.{
  ℕ, zero, suc, String, Bool, true, false, ◌&&◌, ◌||◌, ◌==◌, leb, if◌then◌else◌,
}

-- `[a-z]`
unfoldable pub is_lower : ℕ → Bool
is_lower c = leb b'a' c && leb c b'z'

-- `[a-z0-9_]`
unfoldable pub is_word : ℕ → Bool
unfolding is_lower
is_word c = is_lower c || (leb b'0' c && leb c b'9') || (c == b'_')

-- `$`
unfoldable pub at_end : String → Bool
at_end String.[] = true
at_end (String.◌∷◌ c String.[]) = code c == 10
at_end (String.◌∷◌ c (String.◌∷◌ d s)) = false

-- `[a-z0-9_]{0,n}$`; the classes leave no choice to go back to.
unfoldable pub is_slug_tail : ℕ → String → Bool
is_slug_tail n String.[] = true
is_slug_tail zero (String.◌∷◌ c s) = at_end (String.◌∷◌ c s)
is_slug_tail (suc n) (String.◌∷◌ c s) =
    let rest = is_slug_tail n s in if is_word (code c) then rest else at_end (String.◌∷◌ c s)

-- `_PORT_NAME_RE.match(v)`
unfoldable pub is_slug : String → Bool
unfolding is_lower is_word at_end is_slug_tail
is_slug String.[] = false
is_slug (String.◌∷◌ c s) = is_lower (code c) && is_slug_tail 31 s
