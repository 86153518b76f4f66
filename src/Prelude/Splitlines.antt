-- ===== src/Prelude/Splitlines.antt =====
-- Python's `str.splitlines`, and what it makes of a text that is written line by line.
use Prim.Native.Char.{Char, code}
use Prim.Native.String.{String, ◌++◌ as join}
use text.Mathlib.TextLemmas.{cons-append, nil-append}
use mathlib.Core.Bool.{Bool, true, false, ◌&&◌, ◌||◌, not}
use mathlib.Core.List.{List, [], ◌∷◌}
use mathlib.Core.Path.{◌≡◌, refl, ap, ◌∙◌}
use native.Mathlib.Omega.{arith}
use lib_python_worktree.Prelude.Tests.{◌==◌, ltb, if◌then◌else◌}

-- Where Python ends a line: \n, \v, \f, \r, \x1c to \x1e, \x85, U+2028 and U+2029.
unfoldable pub is_break : Char → Bool
is_break c =
    (ltb 9 (code c) && ltb (code c) 14)
    || (ltb 27 (code c) && ltb (code c) 31)
    || code c == 133
    || code c == 8232
    || code c == 8233

unfoldable pub put_first : Char → List String → List String
put_first c [] = String.◌∷◌ c String.[] ∷ []
put_first c (l ∷ ls) = String.◌∷◌ c l ∷ ls

-- The lines of the rest of a text, behind a \r or not: the \n of \r\n ends no line of its own.
unfoldable pub split_after : Bool → String → List String
split_after cr String.[] = []
split_after cr (String.◌∷◌ c s) =
    let rest = split_after (code c == 13) s in
    if cr && code c == 10 then rest else if is_break c then String.[] ∷ rest else put_first c rest

-- `s.splitlines()`
unfoldable pub split_lines : String → List String
split_lines s = split_after false s

-- Each line with a \n behind it.
unfoldable pub write_lines : List String → String
write_lines [] = ""
write_lines (l ∷ ls) = join l (join "\n" (write_lines ls))

-- Python ends no line in the text.
unfoldable pub is_unbroken : String → Bool
is_unbroken String.[] = true
is_unbroken (String.◌∷◌ c s) = not (is_break c) && is_unbroken s

pub is_unbroken-append :
    (p s : String) → is_unbroken p ≡ true → is_unbroken s ≡ true → is_unbroken (join p s) ≡ true
unfolding is_unbroken
is_unbroken-append String.[] s h k = rw (nil-append s) k
is_unbroken-append (String.◌∷◌ c p) s h k =
    rw (cons-append c p s) (ground (arith, is_unbroken-append p s))

abbrev pub AllUnbroken : List String → Type 0
AllUnbroken [] = Unit
AllUnbroken (l ∷ ls) = (is_unbroken l ≡ true) × AllUnbroken ls

not_return : (c : Char) → is_break c ≡ false → code c == 13 ≡ false
unfolding is_break
not_return c h = ground arith

split_after-end : (t : String) → split_after false (join "\n" t) ≡ "" ∷ split_after false t
unfolding split_after is_break
split_after-end t = rw (cons-append "\n" "" t, nil-append t) refl

split_after-line :
    (l t : String)
    → is_unbroken l ≡ true
    → split_after false (join l (join "\n" t)) ≡ l ∷ split_after false t
unfolding split_after is_unbroken put_first
split_after-line String.[] t h = rw (nil-append (join "\n" t)) (split_after-end t)
split_after-line (String.◌∷◌ c l) t h =
    rw
      (
        cons-append c l (join "\n" t),
        not_return c (ground arith),
        split_after-line l t (ground arith),
      )
      (ground arith)

-- Lines that Python does not break are read back.
pub split_lines-write_lines :
    (ls : List String) → AllUnbroken ls → split_lines (write_lines ls) ≡ ls
unfolding split_lines write_lines split_after
split_lines-write_lines [] h = refl
split_lines-write_lines (l ∷ ls) (h, hs) =
    split_after-line l (write_lines ls) h ∙ ap (λ ms. l ∷ ms) (split_lines-write_lines ls hs)
