-- ===== src/Checkout/Printed.antt =====
-- The parser reads back the porcelain output of git on worktrees that are not bare.
use Prim.Native.Char.{Char, code}
use Prim.Native.String.{◌++◌ as join}
use text.Mathlib.TextLemmas.{cons-append, nil-append}
use lib_python_worktree.Prelude.{
  ℕ, zero, suc, String, ◌≡◌, refl, ap, ◌∙◌, Bool, true, false, Option, none, some, List, [], ◌∷◌,
  ◌++◌, map, ◌||◌, not, ◌==◌, str_eq, arith, eq_iff,
}
use lib_python_worktree.Prelude.Texts.{has_prefix, drop_chars, char_count, str_eq-cons_nil}
use lib_python_worktree.Prelude.Splitlines.{write_lines, split_lines-write_lines}
use lib_python_worktree.Adopt.{Block}
use lib_python_worktree.Checkout.Porcelain.{
  no_keys, has_keys, branch_of_ref, block_if_any, read_line, current_after, closed_by, parse_from,
  parse_worktree_porcelain,
}
use lib_python_worktree.Checkout.Output.{
  Listed, head_line, locked_lines, prunable_lines, printed, is_some, block_of, AllWhole,
  printed-AllUnbroken,
}

has_prefix-append : (p q s : String) → has_prefix p q ≡ true → has_prefix p (join q s) ≡ true
unfolding has_prefix
has_prefix-append String.[] q s h = refl
has_prefix-append (String.◌∷◌ c p) String.[] s h = absurd (cc)
has_prefix-append (String.◌∷◌ c p) (String.◌∷◌ d q) s h =
    rw (cons-append d q s) (ground (arith, has_prefix-append p q s))

drop_chars-append : (n : ℕ) (p s : String) → char_count p ≡ n → drop_chars n (join p s) ≡ s
unfolding drop_chars char_count
drop_chars-append zero String.[] s h = nil-append s
drop_chars-append zero (String.◌∷◌ c p) s h = absurd (omega arith)
drop_chars-append (suc n) String.[] s h = absurd (omega arith)
drop_chars-append (suc n) (String.◌∷◌ c p) s h =
    rw (cons-append c p s) (drop_chars-append n p s (omega arith))

-- Two texts differ at a place that both have.
unfoldable clash : String → String → Bool
clash String.[] q = false
clash (String.◌∷◌ c p) String.[] = false
clash (String.◌∷◌ c p) (String.◌∷◌ d q) = not (code c == code d) || clash p q

has_prefix-append_clash : (p q s : String) → clash p q ≡ true → has_prefix p (join q s) ≡ false
unfolding has_prefix clash
has_prefix-append_clash String.[] q s h = absurd (cc)
has_prefix-append_clash (String.◌∷◌ c p) String.[] s h = absurd (cc)
has_prefix-append_clash (String.◌∷◌ c p) (String.◌∷◌ d q) s h =
    rw (cons-append d q s) (ground (arith, has_prefix-append_clash p q s))

has_prefix_self : (p : String) → has_prefix p p ≡ true
unfolding has_prefix
has_prefix_self String.[] = refl
has_prefix_self (String.◌∷◌ c p) = ground (arith, has_prefix_self p)

str_eq-append_clash : (q s t : String) → clash t q ≡ true → str_eq (join q s) t ≡ false
str_eq-append_clash q s t h = ground (
  arith,
  eq_iff (join q s) t,
  has_prefix-append_clash t q s h,
  has_prefix_self t,
  ap (has_prefix t),
)

str_eq-append_nil : (c : Char) (q s : String) → str_eq (join (String.◌∷◌ c q) s) "" ≡ false
str_eq-append_nil c q s = rw (cons-append c q s) (str_eq-cons_nil c (join q s))

module _ (strip rstrip : String → String) where
  -- Python's strips leave the printed texts as they are.
  pub record IsClean (w : Listed) : Type 0 where
    pub path : strip w.path ≡ w.path
    pub branch :
        (b : String) → w.branch ≡ some b → strip (join "refs/heads/" b) ≡ join "refs/heads/" b
    pub path_line : rstrip (join "worktree " w.path) ≡ join "worktree " w.path
    pub sha_line : rstrip (join "HEAD " w.head) ≡ join "HEAD " w.head
    pub branch_line : rstrip (head_line w.branch) ≡ head_line w.branch
    pub locked_line : (r : String) → w.locked ≡ some r → rstrip (join "locked" r) ≡ join "locked" r
    pub reason_line :
        (r : String) → w.prunable ≡ some r → rstrip (join "prunable " r) ≡ join "prunable " r
    pub empty_line : rstrip "" ≡ ""

  read_line-path :
      (p : String) (b : Block)
      → strip p ≡ p
      → read_line strip rstrip (join "worktree " p) b ≡ record b { path = some p }
  unfolding read_line has_prefix char_count
  read_line-path p b h =
      rw
        (
          has_prefix-append "worktree " "worktree " p refl,
          drop_chars-append 9 "worktree " p refl,
          h,
        )
        refl

  read_line-sha : (x : String) (b : Block) → read_line strip rstrip (join "HEAD " x) b ≡ b
  unfolding read_line clash
  read_line-sha x b =
      rw
        (
          has_prefix-append_clash "worktree " "HEAD " x refl,
          has_prefix-append_clash "branch " "HEAD " x refl,
          str_eq-append_clash "HEAD " x "detached" refl,
          has_prefix-append_clash "prunable" "HEAD " x refl,
        )
        refl

  read_line-locked : (x : String) (b : Block) → read_line strip rstrip (join "locked" x) b ≡ b
  unfolding read_line clash
  read_line-locked x b =
      rw
        (
          has_prefix-append_clash "worktree " "locked" x refl,
          has_prefix-append_clash "branch " "locked" x refl,
          str_eq-append_clash "locked" x "detached" refl,
          has_prefix-append_clash "prunable" "locked" x refl,
        )
        refl

  read_line-branch :
      (x : String) (b : Block)
      → strip (join "refs/heads/" x) ≡ join "refs/heads/" x
      → read_line strip rstrip (join "branch " (join "refs/heads/" x)) b
        ≡ record b { branch = some x }
  unfolding read_line clash has_prefix branch_of_ref char_count
  read_line-branch x b h =
      rw
        (
          has_prefix-append_clash "worktree " "branch " (join "refs/heads/" x) refl,
          has_prefix-append "branch " "branch " (join "refs/heads/" x) refl,
          drop_chars-append 7 "branch " (join "refs/heads/" x) refl,
          h,
          has_prefix-append "refs/heads/" "refs/heads/" x refl,
          drop_chars-append 11 "refs/heads/" x refl,
        )
        refl

  read_line-prunable :
      (x : String) (b : Block)
      → read_line strip rstrip (join "prunable " x) b ≡ record b { prunable = true }
  unfolding read_line clash has_prefix
  read_line-prunable x b =
      rw
        (
          has_prefix-append_clash "worktree " "prunable " x refl,
          has_prefix-append_clash "branch " "prunable " x refl,
          str_eq-append_clash "prunable " x "detached" refl,
          has_prefix-append "prunable" "prunable " x refl,
        )
        refl

  -- A line that is not empty is read into the block.
  parse_from-line :
      (line : String) (b b' : Block) (ls : List String)
      → rstrip line ≡ line
      → str_eq line "" ≡ false
      → read_line strip rstrip line b ≡ b'
      → parse_from strip rstrip b (line ∷ ls) ≡ parse_from strip rstrip b' ls
  unfolding parse_from closed_by current_after
  parse_from-line line b b' ls h k e = rw (h, k, e) refl

  parse_from-head :
      (br : Option String) (path : Option String) (ls : List String)
      → ((x : String) → br ≡ some x → strip (join "refs/heads/" x) ≡ join "refs/heads/" x)
      → rstrip (head_line br) ≡ head_line br
      → parse_from strip rstrip (record no_keys { path = path }) (head_line br ∷ ls)
        ≡ parse_from strip rstrip
            (record no_keys { path = path; branch = br; detached = not (is_some br) })
            ls
  unfolding read_line has_prefix
  parse_from-head none path ls h k = parse_from-line "detached" _ _ ls k refl refl
  parse_from-head (some x) path ls h k =
      parse_from-line _ _ _ ls k (str_eq-append_nil _ _ (join "refs/heads/" x))
        (read_line-branch x _ (h x refl))

  parse_from-locked :
      (reason : Option String) (b : Block) (ls : List String)
      → ((r : String) → reason ≡ some r → rstrip (join "locked" r) ≡ join "locked" r)
      → parse_from strip rstrip b (locked_lines reason ++ ls) ≡ parse_from strip rstrip b ls
  parse_from-locked none b ls h = refl
  parse_from-locked (some r) b ls h =
      parse_from-line _ b b ls (h r refl) (str_eq-append_nil _ _ r) (read_line-locked r b)

  parse_from-reason :
      (reason path branch : Option String) (detached : Bool) (ls : List String)
      → ((r : String) → reason ≡ some r → rstrip (join "prunable " r) ≡ join "prunable " r)
      → parse_from strip rstrip
          (record { path = path; branch = branch; detached = detached; prunable = false })
          (prunable_lines reason ++ ls)
        ≡ parse_from strip rstrip
            (record {
              path = path;
              branch = branch;
              detached = detached;
              prunable = is_some reason;
            })
            ls
  parse_from-reason none path branch detached ls h = refl
  parse_from-reason (some r) path branch detached ls h =
      parse_from-line _ _ _ ls (h r refl) (str_eq-append_nil _ _ r) (read_line-prunable r _)

  parse_from-end :
      (w : Listed) (ls : List String)
      → rstrip "" ≡ ""
      → parse_from strip rstrip (block_of w) ("" ∷ ls)
        ≡ block_of w ∷ parse_from strip rstrip no_keys ls
  unfolding parse_from closed_by current_after block_if_any has_keys
  parse_from-end w ls h = rw h refl

  parse_from-nil : parse_from strip rstrip no_keys [] ≡ []
  unfolding parse_from block_if_any has_keys
  parse_from-nil = refl

  abbrev pub AllClean : List Listed → Type 0
  AllClean [] = Unit
  AllClean (w ∷ ws) = IsClean w × AllClean ws

  parse_from-printed :
      (ws : List Listed)
      → AllClean ws
      → parse_from strip rstrip no_keys (printed ws) ≡ map block_of ws
  unfolding printed
  parse_from-printed [] h = parse_from-nil
  parse_from-printed (w ∷ ws) (h, hs) =
      parse_from-line _ _ _ _ h.path_line (str_eq-append_nil _ _ w.path)
        (read_line-path w.path _ h.path)
      ∙ parse_from-line _ _ _ _ h.sha_line (str_eq-append_nil _ _ w.head) (read_line-sha w.head _)
      ∙ parse_from-head w.branch (some w.path) _ h.branch h.branch_line
      ∙ parse_from-locked w.locked _ _ h.locked_line
      ∙ parse_from-reason w.prunable _ _ _ _ h.reason_line
      ∙ parse_from-end w (printed ws) h.empty_line
      ∙ ap (λ bs. block_of w ∷ bs) (parse_from-printed ws hs)

  -- What git prints of worktrees none of which is bare, each line with its line feed, is read back,
  -- as long as Python ends no line within a path, head, branch or reason (at U+2028, say), and its
  -- strips leave the paths, the branches and the lines as they are: each block has the path, the
  -- branch or the mark of a detached HEAD, and the mark of a prunable worktree.
  pub parse_worktree_porcelain-printed :
      (ws : List Listed)
      → AllClean ws
      → AllWhole ws
      → parse_worktree_porcelain strip rstrip (write_lines (printed ws)) ≡ map block_of ws
  unfolding parse_worktree_porcelain
  parse_worktree_porcelain-printed ws h k =
      ap (parse_from strip rstrip no_keys)
        (split_lines-write_lines (printed ws) (printed-AllUnbroken ws k))
      ∙ parse_from-printed ws h
