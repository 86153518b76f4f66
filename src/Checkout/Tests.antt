-- ===== src/Checkout/Tests.antt =====
-- Slugs, a listing of git, and a repository on concrete values.
use lib_python_worktree.Prelude.Texts.{take_chars, has_prefix, less_text, drop_chars}
use lib_python_worktree.Prelude.{
  String, ◌≡◌, inl, inr, refl, sym, true, false, none, some, List, [], ◌∷◌, map, if◌then◌else◌,
  str_eq, Bool-cases, ap, ◌∙◌,
}
use lib_python_worktree.Prelude.Int.{pos}
use lib_python_worktree.Prelude.Results.{ok}
use lib_python_worktree.Prelude.Dict.{Dict, lookup, insert}
use lib_python_worktree.Prelude.Lists.{has, Any, IsDistinct}
use lib_python_worktree.Git.{Call, completed, is_exit}
use lib_python_worktree.Adopt.{Block}
use lib_python_worktree.Store.{WorktreeRecord, new_record}
use lib_python_worktree.Checkout.Slug.{
  is_alnum, emit, dash_runs, lstrip_dashes, rstrip_dashes, slug_text, slug,
}
use lib_python_worktree.Checkout.SlugBounds.{IsSlug, slug-IsSlug}
use lib_python_worktree.Prelude.Splitlines.{
  write_lines, is_unbroken, split_lines, split_after, is_break, put_first,
}
use lib_python_worktree.Checkout.Porcelain.{
  parse_worktree_porcelain, has_keys, closed_by, parse_from, read_line, current_after, block_if_any,
  branch_of_ref,
}
use lib_python_worktree.Checkout.Output.{Listed, AllWhole, printed, block_of}
use lib_python_worktree.Checkout.Printed.{AllClean, parse_worktree_porcelain-printed}
use lib_python_worktree.Checkout.Listing.{
  CheckoutInfo, RepoListing, Paths, list_repo, listing, live_entries, by_path, append_live,
  live_entry, info_of, list_blocks, classify_checkout, list_from, as_orphaned, orphaned_entries,
  before, primary_path_of, non_empty_lines, refresh, sort, untracked, info_from, place, live_path,
  less_pair,
}
use lib_python_worktree.Checkout.Complete.{Shows, IsAlone, list_repo-Shows}
use lib_python_worktree.Checkout.Order.{IsSorted}
use lib_python_worktree.Checkout.Primary.{IsPlaced, IsPrimaryFirst, listing-IsPrimaryFirst}

slug_run : slug (λ s. s) "--feat/a  b!" ≡ "feat-a-b"
unfolding slug take_chars slug_text rstrip_dashes lstrip_dashes dash_runs emit is_alnum
slug_run = refl

slug_of_nothing : slug (λ s. s) "//" ≡ "x"
unfolding slug take_chars slug_text rstrip_dashes lstrip_dashes dash_runs emit is_alnum
slug_of_nothing = refl

slug-IsSlug_example : IsSlug (slug (λ s. s) "--feat/a  b!")
slug-IsSlug_example = slug-IsSlug (λ s. s) "--feat/a  b!"

abbrev two_worktrees : List Listed
two_worktrees =
    record { path = "/r"; head = "1a"; branch = some "main"; locked = none; prunable = none }
    ∷ record {
      path = "/w/a";
      head = "2b";
      branch = none;
      locked = some " mine";
      prunable = some "gone";
    }
    ∷ []

two_worktrees-AllClean : AllClean (λ s. s) (λ s. s) two_worktrees
two_worktrees-AllClean = (
  record {
    path = refl;
    branch = λ b e. refl;
    path_line = refl;
    sha_line = refl;
    branch_line = refl;
    locked_line = λ r e. refl;
    reason_line = λ r e. refl;
    empty_line = refl;
  },
  (
    record {
      path = refl;
      branch = λ b e. refl;
      path_line = refl;
      sha_line = refl;
      branch_line = refl;
      locked_line = λ r e. refl;
      reason_line = λ r e. refl;
      empty_line = refl;
    },
    tt,
  ),
)

two_worktrees-AllWhole : AllWhole two_worktrees
unfolding is_unbroken is_break
two_worktrees-AllWhole = (
  record { path = refl; head = refl; branch = refl; locked = refl; prunable = refl },
  (record { path = refl; head = refl; branch = refl; locked = refl; prunable = refl }, tt),
)

parse_worktree_porcelain-printed_example :
    parse_worktree_porcelain (λ s. s) (λ s. s) (write_lines (printed two_worktrees))
    ≡ map block_of two_worktrees
parse_worktree_porcelain-printed_example =
    parse_worktree_porcelain-printed (λ s. s) (λ s. s) two_worktrees two_worktrees-AllClean
      two_worktrees-AllWhole

abbrev exit_0 : String → Call
exit_0 out = completed (record { returncode = pos 0; stdout = out; stderr = "" })

-- `/r` is the primary checkout, with a linked worktree that is not tracked.
abbrev paths : Paths
paths = record {
  resolved = λ p. some p;
  resolve = λ p. p;
  parent = λ p. if str_eq p "/r/.git" then "/r" else p;
  exists = λ p. true;
  is_dir = λ p. true;
  contains = λ root target. str_eq root target;
  strip = λ s. s;
  rstrip = λ s. s;
  rev_parse = λ p. exit_0 "/r/.git\n/r/.git\n";
  worktree_list =
      λ root. exit_0 "worktree /r\nbranch refs/heads/main\n\nworktree /w/b\nbranch refs/heads/b\n";
  primary_id = λ p. "r-root";
  untracked_id = λ p. "b-untracked";
}

-- A record whose worktree git has forgotten.
abbrev forgotten : WorktreeRecord
forgotten = new_record "r-a-1" "/r" (some "a") "/w/a"

abbrev shown : RepoListing
shown = record {
  repo_root = "/r";
  entries =
      record {
        rec = record (new_record "r-root" "/r" none "/r") { backing = "primary" };
        is_current = true;
        tracked = false;
      }
      ∷ record {
        rec = record forgotten { status = "orphaned" };
        is_current = false;
        tracked = true;
      }
      ∷ record {
        rec = new_record "b-untracked" "/r" (some "b") "/w/b";
        is_current = false;
        tracked = false;
      }
      ∷ [];
}

list_repo_run : list_repo paths "/r" (forgotten ∷ []) ≡ ok shown
unfolding list_repo listing live_entries by_path parse_worktree_porcelain lookup has
    classify_checkout info_from info_of non_empty_lines list_from list_blocks primary_path_of
    append_live as_orphaned before less_pair live_entry live_path orphaned_entries place refresh
    sort untracked is_exit parse_from closed_by block_if_any has_keys current_after read_line
    branch_of_ref has_prefix drop_chars less_text insert split_lines split_after is_break put_first
list_repo_run = refl

forgotten-IsAlone : IsAlone paths "/r" (forgotten ∷ []) forgotten
forgotten-IsAlone other m root path = elim m [ inl e ↦ sym e | inr n ↦ absurd n ]

list_repo-Shows_example : Any (Shows forgotten) shown.entries
list_repo-Shows_example =
    list_repo-Shows paths "/r" (forgotten ∷ []) shown list_repo_run forgotten (inl refl) refl refl
      forgotten-IsAlone

abbrev info : CheckoutInfo
info = record { backing = "primary"; repo_root = "/r"; checkout_path = "/r" }

abbrev known : Dict WorktreeRecord
known = ("/w/a", forgotten) ∷ []

abbrev two_blocks : List Block
two_blocks =
    record { path = some "/w/a"; branch = some "a"; detached = false; prunable = false }
    ∷ record { path = some "/r"; branch = some "main"; detached = false; prunable = false }
    ∷ []

known-IsPlaced : IsPlaced paths info "/r" known
unfolding lookup
known-IsPlaced path rec e p = elim (Bool-cases (str_eq "/w/a" path)) [
  | inl q ↦
      let same : forgotten ≡ rec = cc (rw q at e) in
      let not_primary : false ≡ true =
        ap (λ (r : WorktreeRecord). str_eq r.backing "primary") same ∙ p in
      absurd (cc not_primary)
  | inr q ↦ absurd (cc (rw q at e))
]

two_blocks-IsDistinct : IsDistinct (map (λ p. p.0) (live_entries paths info "/r" known two_blocks))
unfolding live_entries has append_live live_path
two_blocks-IsDistinct = (refl, (refl, tt))

listing-IsPrimaryFirst_example :
    IsSorted (listing paths info "/r" known two_blocks).entries
    × IsPrimaryFirst (listing paths info "/r" known two_blocks).entries
listing-IsPrimaryFirst_example =
    listing-IsPrimaryFirst paths info "/r" known two_blocks known-IsPlaced two_blocks-IsDistinct
