-- ===== src/Checkout/Output.antt =====
-- What `git worktree list --porcelain` prints of worktrees, and the blocks that it stands for.
use Prim.Native.String.{◌++◌ as join}
use lib_python_worktree.Prelude.{
  String, ◌≡◌, refl, Bool, true, false, Option, none, some, List, [], ◌∷◌, ◌++◌, not,
}
use lib_python_worktree.Prelude.Splitlines.{is_break, is_unbroken, is_unbroken-append, AllUnbroken}
use lib_python_worktree.Adopt.{Block}

-- A worktree that is not bare, as git knows it: no branch is a detached HEAD, what stands behind
-- `locked` is empty or a reason, and a reason tells why it is prunable.
pub record Listed : Type 0 where
  pub path : String
  pub head : String
  pub branch : Option String
  pub locked : Option String
  pub prunable : Option String

abbrev pub head_line : Option String → String
head_line none = "detached"
head_line (some b) = join "branch " (join "refs/heads/" b)

abbrev pub locked_lines : Option String → List String
locked_lines none = []
locked_lines (some reason) = join "locked" reason ∷ []

abbrev pub prunable_lines : Option String → List String
prunable_lines none = []
prunable_lines (some reason) = join "prunable " reason ∷ []

-- The blocks, with an empty line behind each.
unfoldable pub printed : List Listed → List String
printed [] = []
printed (w ∷ ws) =
    join "worktree " w.path
    ∷ join "HEAD " w.head
    ∷ head_line w.branch
    ∷ (locked_lines w.locked ++ (prunable_lines w.prunable ++ ("" ∷ printed ws)))

abbrev pub is_some {ℓ} : {A : Type ℓ} → Option A → Bool
is_some none = false
is_some (some x) = true

abbrev pub block_of : Listed → Block
block_of w = record {
  path = some w.path;
  branch = w.branch;
  detached = not (is_some w.branch);
  prunable = is_some w.prunable;
}

abbrev pub is_whole : Option String → Bool
is_whole none = true
is_whole (some s) = is_unbroken s

-- Python ends no line within a text of the worktree.
pub record IsWhole (w : Listed) : Type 0 where
  pub path : is_unbroken w.path ≡ true
  pub head : is_unbroken w.head ≡ true
  pub branch : is_whole w.branch ≡ true
  pub locked : is_whole w.locked ≡ true
  pub prunable : is_whole w.prunable ≡ true

abbrev pub AllWhole : List Listed → Type 0
AllWhole [] = Unit
AllWhole (w ∷ ws) = IsWhole w × AllWhole ws

head_line-is_unbroken : (b : Option String) → is_whole b ≡ true → is_unbroken (head_line b) ≡ true
unfolding is_unbroken is_break
head_line-is_unbroken none h = refl
head_line-is_unbroken (some b) h =
    is_unbroken-append "branch " (join "refs/heads/" b) refl
      (is_unbroken-append "refs/heads/" b refl h)

locked_lines-AllUnbroken :
    (r : Option String) (ls : List String)
    → is_whole r ≡ true
    → AllUnbroken ls
    → AllUnbroken (locked_lines r ++ ls)
unfolding is_unbroken is_break
locked_lines-AllUnbroken none ls h hs = hs
locked_lines-AllUnbroken (some r) ls h hs = (is_unbroken-append "locked" r refl h, hs)

prunable_lines-AllUnbroken :
    (r : Option String) (ls : List String)
    → is_whole r ≡ true
    → AllUnbroken ls
    → AllUnbroken (prunable_lines r ++ ls)
unfolding is_unbroken is_break
prunable_lines-AllUnbroken none ls h hs = hs
prunable_lines-AllUnbroken (some r) ls h hs = (is_unbroken-append "prunable " r refl h, hs)

pub printed-AllUnbroken : (ws : List Listed) → AllWhole ws → AllUnbroken (printed ws)
unfolding printed is_unbroken is_break
printed-AllUnbroken [] h = tt
printed-AllUnbroken (w ∷ ws) (h, hs) = (
  is_unbroken-append "worktree " w.path refl h.path,
  (
    is_unbroken-append "HEAD " w.head refl h.head,
    (
      head_line-is_unbroken w.branch h.branch,
      locked_lines-AllUnbroken w.locked _ h.locked
          (prunable_lines-AllUnbroken w.prunable _ h.prunable (refl, printed-AllUnbroken ws hs)),
    ),
  ),
)
