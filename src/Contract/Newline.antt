-- ===== src/Contract/Newline.antt =====
-- A port slot's name may end in a line feed.
use Prim.Native.Char.{Char, code}
use Prim.Native.String.{◌++◌}
use text.Mathlib.TextLemmas.{cons-append}
use lib_python_worktree.Prelude.{
  ℕ, zero, suc, String, ◌≡◌, refl, Bool, true, false, ◌||◌, ◌==◌, arith,
}
use lib_python_worktree.Contract.Slug.{is_slug, is_slug_tail, at_end}

unfoldable pub has_line_feed : String → Bool
has_line_feed String.[] = false
has_line_feed (String.◌∷◌ c s) = code c == 10 || has_line_feed s

at_end_no_line_feed :
    (c : Char) (s : String)
    → has_line_feed (String.◌∷◌ c s) ≡ false
    → at_end (String.◌∷◌ c s) ≡ false
unfolding at_end has_line_feed
at_end_no_line_feed c String.[] f = ground arith
at_end_no_line_feed c (String.◌∷◌ d s) f = refl

pub is_slug_tail-line_feed :
    (n : ℕ) (s : String)
    → has_line_feed s ≡ false
    → is_slug_tail n s ≡ true
    → is_slug_tail n (s ++ "\n") ≡ true
unfolding is_slug has_line_feed
is_slug_tail-line_feed zero String.[] f h = refl
is_slug_tail-line_feed (suc n) String.[] f h = refl
is_slug_tail-line_feed zero (String.◌∷◌ c s) f h = absurd (cc (at_end_no_line_feed c s f))
is_slug_tail-line_feed (suc n) (String.◌∷◌ c s) f h =
    rw cons-append (ground (arith, at_end_no_line_feed c s f, is_slug_tail-line_feed n s))

-- Whatever name without a line feed the pattern accepts, it accepts with a line feed behind it.
pub is_slug-line_feed :
    (s : String) → has_line_feed s ≡ false → is_slug s ≡ true → is_slug (s ++ "\n") ≡ true
unfolding is_slug has_line_feed
is_slug-line_feed String.[] f h = absurd (cc)
is_slug-line_feed (String.◌∷◌ c s) f h =
    rw cons-append (ground (arith, is_slug_tail-line_feed 31 s))
