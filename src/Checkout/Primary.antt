-- ===== src/Checkout/Primary.antt =====
-- Where the primary checkout may stand in a listing.
use lib_python_worktree.Prelude.{
  ℕ, ◌+◌, ◌≤◌, String, ◌≡◌, inl, inr, refl, sym, ap, ◌∙◌, Bool, true, false, Option, none, some,
  List, [], ◌∷◌, ◌++◌, map, if◌then◌else◌, str_eq, arith, eq_iff, Bool-cases,
}
use lib_python_worktree.Prelude.Dict.{Dict, lookup}
use lib_python_worktree.Prelude.Lists.{has, All, IsDistinct}
use lib_python_worktree.Adopt.{Block}
use lib_python_worktree.Store.{WorktreeRecord}
use lib_python_worktree.Checkout.Listing.{
  CheckoutInfo, EnvironmentEntry, Paths, less_pair, before, place, sort, refresh, untracked,
  live_entry, live_path, append_live, live_entries, as_orphaned, orphaned_entries, listing,
}
use lib_python_worktree.Checkout.Order.{IsSorted, sort-IsSorted}

abbrev pub is_primary : EnvironmentEntry → Bool
is_primary e = str_eq e.rec.backing "primary"

unfoldable primaries : List EnvironmentEntry → ℕ
primaries [] = 0
primaries (e ∷ es) = (if is_primary e then 1 else 0) + primaries es

primaries-place :
    (e : EnvironmentEntry) (es : List EnvironmentEntry)
    → primaries (place e es) ≡ primaries (e ∷ es)
unfolding primaries place
primaries-place e [] = refl
primaries-place e (x ∷ xs) = elim (Bool-cases (before x e)) [
  | inl b ↦ rw b (omega (arith, primaries-place e xs))
  | inr b ↦ rw b refl
]

primaries-sort : (es : List EnvironmentEntry) → primaries (sort es) ≡ primaries es
unfolding primaries sort
primaries-sort [] = refl
primaries-sort (e ∷ es) =
    primaries-place e (sort es) ∙ ap (λ n. (if is_primary e then 1 else 0) + n) (primaries-sort es)

primaries-append :
    (es fs : List EnvironmentEntry) → primaries (es ++ fs) ≡ primaries es + primaries fs
unfolding primaries
primaries-append [] fs = omega arith
primaries-append (e ∷ es) fs = omega (arith, primaries-append es fs)

-- The first entry may be the primary checkout; none of the others is.
abbrev pub IsPrimaryFirst : List EnvironmentEntry → Type 0
IsPrimaryFirst [] = Unit
IsPrimaryFirst (e ∷ es) = All (λ x. is_primary x ≡ false) es

none_primary : (es : List EnvironmentEntry) → primaries es ≡ 0 → All (λ x. is_primary x ≡ false) es
unfolding primaries
none_primary [] h = tt
none_primary (e ∷ es) h = (ground (arith, h), none_primary es (ground (arith, h)))

behind_linked :
    (e : EnvironmentEntry) (es : List EnvironmentEntry)
    → is_primary e ≡ false
    → All (λ y. before y e ≡ false) es
    → All (λ x. is_primary x ≡ false) es
unfolding before less_pair
behind_linked e [] n h = tt
behind_linked e (x ∷ xs) n (h, hs) = (ground (arith, n, h), behind_linked e xs n hs)

sorted-IsPrimaryFirst :
    (es : List EnvironmentEntry) → IsSorted es → primaries es ≤ 1 → IsPrimaryFirst es
unfolding primaries
sorted-IsPrimaryFirst [] h k = tt
sorted-IsPrimaryFirst (e ∷ es) (h, hs) k = elim (Bool-cases (is_primary e)) [
  | inl p ↦ none_primary es (omega (arith, rw p at k))
  | inr p ↦ behind_linked e es p h
]

module _ (o : Paths) (info : CheckoutInfo) (primary_path : String) (d : Dict WorktreeRecord) where
  -- What is recorded as the primary checkout is at the path of the primary checkout.
  abbrev pub IsPlaced : Type 0
  IsPlaced =
      (path : String) (rec : WorktreeRecord)
      → lookup path d ≡ some rec
      → str_eq rec.backing "primary" ≡ true
      → path ≡ primary_path

  abbrev pub live_paths : List Block → List String
  live_paths bs = map (λ p. p.0) (live_entries o info primary_path d bs)

  linked_entry :
      (branch : Option String) (path : String) (found : Option WorktreeRecord)
      → ((rec : WorktreeRecord) → found ≡ some rec → str_eq rec.backing "primary" ≡ false)
      → is_primary (live_entry o info false branch path found) ≡ false
  unfolding live_entry untracked refresh
  linked_entry branch path none h = refl
  linked_entry none path (some rec) h = h rec refl
  linked_entry (some b) path (some rec) h = ground (arith, h rec refl)

  append_live-has :
      (branch live : Option String) (rest : List (String × EnvironmentEntry))
      → has primary_path (map (λ p. p.0) (append_live o info primary_path d branch live rest))
        ≡ false
      → has primary_path (map (λ p. p.0) rest) ≡ false
  unfolding append_live has
  append_live-has branch none rest h = h
  append_live-has branch (some path) rest h = ground (arith, h)

  append_live-IsDistinct :
      (branch live : Option String) (rest : List (String × EnvironmentEntry))
      → IsDistinct (map (λ p. p.0) (append_live o info primary_path d branch live rest))
      → IsDistinct (map (λ p. p.0) rest)
  unfolding append_live
  append_live-IsDistinct branch none rest h = h
  append_live-IsDistinct branch (some path) rest (_, h) = h

  primaries-append_live_zero :
      (branch live : Option String) (rest : List (String × EnvironmentEntry))
      → IsPlaced
      → has primary_path (map (λ p. p.0) (append_live o info primary_path d branch live rest))
        ≡ false
      → primaries (map (λ p. p.1) rest) ≡ 0
      → primaries (map (λ p. p.1) (append_live o info primary_path d branch live rest)) ≡ 0
  unfolding append_live primaries has
  primaries-append_live_zero branch none rest placed h k = k
  primaries-append_live_zero branch (some path) rest placed h k =
      let other : str_eq path primary_path ≡ false =
        ground (arith, h, eq_iff path primary_path, eq_iff primary_path path) in
      rw other (ground (arith, k, linked_entry branch path (lookup path d) (linked other)))
    where
      linked :
          str_eq path primary_path ≡ false
          → (rec : WorktreeRecord) → lookup path d ≡ some rec
          → str_eq rec.backing "primary" ≡ false
      linked other rec e = ground (arith, other, placed path rec e, eq_iff path primary_path)

  live_entries-primaries_zero :
      (bs : List Block)
      → IsPlaced
      → has primary_path (live_paths bs) ≡ false
      → primaries (map (λ p. p.1) (live_entries o info primary_path d bs)) ≡ 0
  unfolding live_entries primaries
  live_entries-primaries_zero [] placed h = refl
  live_entries-primaries_zero (b ∷ bs) placed h =
      primaries-append_live_zero b.branch (live_path o b) _ placed h
        (live_entries-primaries_zero bs placed (append_live-has b.branch (live_path o b) _ h))

  append_live-primaries :
      (branch live : Option String) (rest : List (String × EnvironmentEntry))
      → IsPlaced
      → IsDistinct (map (λ p. p.0) (append_live o info primary_path d branch live rest))
      → (has primary_path (map (λ p. p.0) rest) ≡ false → primaries (map (λ p. p.1) rest) ≡ 0)
      → primaries (map (λ p. p.1) rest) ≤ 1
      → primaries (map (λ p. p.1) (append_live o info primary_path d branch live rest)) ≤ 1
  unfolding append_live primaries
  append_live-primaries branch none rest placed distinct zero k = k
  append_live-primaries branch (some path) rest placed (new, distinct) zero k =
      elim (Bool-cases (str_eq path primary_path)) [
        | inl same ↦
            let q : path ≡ primary_path = (eq_iff path primary_path).0 same in
            one_more _ _ (zero (ap (λ x. has x (map (λ p. p.0) rest)) (sym q) ∙ new))
        | inr other ↦
            rw other (none_more _ _ (linked_entry branch path (lookup path d) (linked other)) k)
      ]
    where
      linked :
          str_eq path primary_path ≡ false
          → (rec : WorktreeRecord) → lookup path d ≡ some rec
          → str_eq rec.backing "primary" ≡ false
      linked other rec e = ground (arith, other, placed path rec e, eq_iff path primary_path)

      none_more : (b : Bool) (n : ℕ) → b ≡ false → n ≤ 1 → (if b then 1 else 0) + n ≤ 1
      none_more b n e k = rw e (omega (arith, k))

      one_more : (b : Bool) (n : ℕ) → n ≡ 0 → (if b then 1 else 0) + n ≤ 1
      one_more b n e = ground (arith, e)

  live_entries-primaries :
      (bs : List Block)
      → IsPlaced
      → IsDistinct (live_paths bs)
      → primaries (map (λ p. p.1) (live_entries o info primary_path d bs)) ≤ 1
  unfolding live_entries primaries
  live_entries-primaries [] placed distinct = omega arith
  live_entries-primaries (b ∷ bs) placed distinct =
      append_live-primaries b.branch (live_path o b) _ placed distinct
        (live_entries-primaries_zero bs placed)
        (live_entries-primaries bs placed
          (append_live-IsDistinct b.branch (live_path o b) _ distinct))

  orphaned_entries-primaries :
      (live : List String) (ds : Dict WorktreeRecord)
      → primaries (orphaned_entries o info live ds) ≡ 0
  unfolding orphaned_entries as_orphaned primaries
  orphaned_entries-primaries live [] = refl
  orphaned_entries-primaries live ((j, r) ∷ ds) = ground (arith, orphaned_entries-primaries live ds)

  -- If git lists no path twice and what is recorded as the primary checkout is at its path, then in
  -- the listing no entry comes before an earlier one, by the order of primary checkout and path, and
  -- only the first entry may be the primary checkout.
  pub listing-IsPrimaryFirst :
      (bs : List Block)
      → IsPlaced
      → IsDistinct (live_paths bs)
      → IsSorted (listing o info primary_path d bs).entries
        × IsPrimaryFirst (listing o info primary_path d bs).entries
  unfolding listing
  listing-IsPrimaryFirst bs placed distinct =
      let es =
        map (λ p. p.1) (live_entries o info primary_path d bs)
        ++ orphaned_entries o info (live_paths bs) d in
      let few : primaries (sort es) ≤ 1 = omega (
        arith,
        primaries-sort es,
        primaries-append (map (λ p. p.1) (live_entries o info primary_path d bs))
            (orphaned_entries o info (live_paths bs) d),
        orphaned_entries-primaries (live_paths bs) d,
        live_entries-primaries bs placed distinct,
      ) in
      (sort-IsSorted es, sorted-IsPrimaryFirst (sort es) (sort-IsSorted es) few)
