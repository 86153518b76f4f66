-- ===== src/Checkout/Complete.antt =====
-- What the listing shows of the tracked worktrees.
use lib_python_worktree.Prelude.{
  String, ◌≡◌, ◌⊎◌, inl, inr, refl, sym, ap, ◌∙◌, subst, Bool, true, false, Option, none, some,
  List, [], ◌∷◌, map, ◌||◌, if◌then◌else◌, str_eq, arith, eq_iff, eq_refl, Bool-cases,
}
use lib_python_worktree.Prelude.Results.{ok, >>=-eq-ok, ok-eq-ok}
use lib_python_worktree.Prelude.Dict.{Dict, lookup, lookup-insert}
use lib_python_worktree.Prelude.Lists.{has, Any, Any-append_left, Any-append_right}
use lib_python_worktree.Git.{Call, completed, timed_out, no_git, is_exit}
use lib_python_worktree.Adopt.{Block}
use lib_python_worktree.Store.{WorktreeRecord}
use lib_python_worktree.Checkout.Listing.{
  CheckoutInfo, EnvironmentEntry, RepoListing, Paths, before, place, sort, by_path, refresh,
  live_entry, append_live, live_path, live_entries, as_orphaned, orphaned_entries, listing,
  primary_path_of, list_blocks, list_from, list_repo, classify_checkout,
}

Any-place :
    (P : EnvironmentEntry → Type 0) (e : EnvironmentEntry) (es : List EnvironmentEntry)
    → P e ⊎ Any P es
    → Any P (place e es)
unfolding place
Any-place P e [] p = p
Any-place P e (x ∷ xs) p = elim (Bool-cases (before x e)) [
  | inl q ↦ rw q (elim p [
    | inl pe ↦ inr (Any-place P e xs (inl pe))
    | inr m ↦ elim m [ inl px ↦ inl px | inr pxs ↦ inr (Any-place P e xs (inr pxs)) ]
  ])
  | inr q ↦ rw q p
]

Any-sort : (P : EnvironmentEntry → Type 0) (es : List EnvironmentEntry) → Any P es → Any P (sort es)
unfolding sort
Any-sort P [] p = absurd p
Any-sort P (e ∷ es) (inl p) = Any-place P e (sort es) (inl p)
Any-sort P (e ∷ es) (inr p) = Any-place P e (sort es) (inr (Any-sort P es p))

-- The entry of a tracked worktree: with the id of its record, and its status, or as orphaned.
abbrev pub Shows : WorktreeRecord → EnvironmentEntry → Type 0
Shows rec e =
    (e.tracked ≡ true)
    × (e.rec.id ≡ rec.id)
    × (e.rec.path ≡ rec.path)
    × ((e.rec.status ≡ rec.status) ⊎ (e.rec.status ≡ "orphaned"))

module _ (o : Paths) where
  -- No other record of the repository has the path of the record.
  abbrev pub IsAlone : String → List WorktreeRecord → WorktreeRecord → Type 0
  IsAlone root rs rec =
      (other : WorktreeRecord)
      → Any (λ r. r ≡ other) rs
      → other.repo_root ≡ root
      → o.resolve other.path ≡ o.resolve rec.path
      → other ≡ rec

  lookup-by_path_kept :
      (root : String) (rs : List WorktreeRecord) (d : Dict WorktreeRecord) (rec : WorktreeRecord)
      → IsAlone root rs rec
      → lookup (o.resolve rec.path) d ≡ some rec
      → lookup (o.resolve rec.path) (by_path o root rs d) ≡ some rec
  unfolding by_path
  lookup-by_path_kept root [] d rec alone h = h
  lookup-by_path_kept root (r ∷ rs) d rec alone h =
      lookup-by_path_kept root rs _ rec (λ other m. alone other (inr m))
        (elim (Bool-cases (str_eq r.repo_root root)) [
          | inr e ↦ rw e h
          | inl e ↦ rw e (
              lookup-insert (o.resolve r.path) (o.resolve rec.path) r d
              ∙ overwritten r (λ q. alone r (inl refl) ((eq_iff r.repo_root root).0 e) q))
        ])
    where
      overwritten :
          (r : WorktreeRecord)
          → (o.resolve r.path ≡ o.resolve rec.path → r ≡ rec)
          → (if str_eq (o.resolve r.path) (o.resolve rec.path)
              then some r
              else lookup (o.resolve rec.path) d)
            ≡ some rec
      overwritten r same = elim (Bool-cases (str_eq (o.resolve r.path) (o.resolve rec.path))) [
        | inl q ↦ rw q (ap some (same ((eq_iff (o.resolve r.path) (o.resolve rec.path)).0 q)))
        | inr q ↦ rw q h
      ]

  lookup-by_path :
      (root : String) (rs : List WorktreeRecord) (d : Dict WorktreeRecord) (rec : WorktreeRecord)
      → IsAlone root rs rec
      → Any (λ r. r ≡ rec) rs
      → rec.repo_root ≡ root
      → lookup (o.resolve rec.path) (by_path o root rs d) ≡ some rec
  unfolding by_path
  lookup-by_path root [] d rec alone m same = absurd m
  lookup-by_path root (r ∷ rs) d rec alone (inr m) same =
      lookup-by_path root rs _ rec (λ other m. alone other (inr m)) m same
  lookup-by_path root (r ∷ rs) d rec alone (inl e) same =
      lookup-by_path_kept root rs _ rec (λ other m. alone other (inr m))
        (rw e (
          ground (
            arith,
            lookup-insert (o.resolve rec.path) (o.resolve rec.path) rec d,
            eq_refl (o.resolve rec.path),
            eq_iff rec.repo_root root,
            same,
          )))

  refresh-Shows :
      (branch : Option String) (rec : WorktreeRecord)
      → ((refresh o branch rec).id ≡ rec.id)
        × ((refresh o branch rec).path ≡ rec.path)
        × ((refresh o branch rec).status ≡ rec.status)
  unfolding refresh
  refresh-Shows none rec = (refl, refl, refl)
  refresh-Shows (some b) rec = elim (Bool-cases (str_eq b "")) [
    | inl e ↦ rw e (refl, refl, refl)
    | inr e ↦ rw e (refl, refl, refl)
  ]

  module _ (info : CheckoutInfo) (d : Dict WorktreeRecord) (rec : WorktreeRecord) where
    live_entry-Shows :
        (is_primary : Bool) (branch : Option String) (path : String) (found : Option WorktreeRecord)
        → found ≡ some rec
        → Shows rec (live_entry o info is_primary branch path found)
    unfolding live_entry
    live_entry-Shows true branch path found e = rw e (refl, refl, refl, inl refl)
    live_entry-Shows false branch path found e =
        let (i, p, s) = refresh-Shows branch rec in rw e (refl, i, p, inl s)

    append_live-Shows :
        (primary_path path : String) (branch live : Option String)
        (rest : List (String × EnvironmentEntry))
        → lookup path d ≡ some rec
        → (has path (map (λ p. p.0) rest) ≡ true → Any (Shows rec) (map (λ p. p.1) rest))
        → has path (map (λ p. p.0) (append_live o info primary_path d branch live rest)) ≡ true
        → Any (Shows rec) (map (λ p. p.1) (append_live o info primary_path d branch live rest))
    unfolding append_live has
    append_live-Shows primary_path path branch none rest h later m = later m
    append_live-Shows primary_path path branch (some q) rest h later m =
        elim (Bool-cases (str_eq path q)) [
          | inl same ↦ inl (
              live_entry-Shows (str_eq q primary_path) branch q (lookup q d)
                (ap (λ x. lookup x d) (sym ((eq_iff path q).0 same)) ∙ h))
          | inr other ↦ inr (later (ground (arith, other, m)))
        ]

    live_entries-Shows :
        (primary_path path : String) (bs : List Block)
        → lookup path d ≡ some rec
        → has path (map (λ p. p.0) (live_entries o info primary_path d bs)) ≡ true
        → Any (Shows rec) (map (λ p. p.1) (live_entries o info primary_path d bs))
    unfolding live_entries has
    live_entries-Shows primary_path path [] h m = absurd (cc)
    live_entries-Shows primary_path path (b ∷ bs) h m =
        append_live-Shows primary_path path b.branch (live_path o b) _ h
          (live_entries-Shows primary_path path bs h) m

    orphaned_entries-Shows :
        (path : String) (live_paths : List String) (ds : Dict WorktreeRecord)
        → lookup path ds ≡ some rec
        → has path live_paths ≡ false
        → str_eq rec.backing "primary" ≡ false
        → Any (Shows rec) (orphaned_entries o info live_paths ds)
    unfolding orphaned_entries lookup as_orphaned
    orphaned_entries-Shows path live_paths [] h m n = absurd (cc)
    orphaned_entries-Shows path live_paths ((j, r) ∷ ds) h m n = elim (Bool-cases (str_eq j path)) [
      | inl e ↦
          let same : j ≡ path = (eq_iff j path).0 e in
          let found : r ≡ rec = ground (arith, h, e) in
          rw (same, found, m, n) (inl (refl, refl, refl, inr refl))
      | inr e ↦
          let rest = orphaned_entries-Shows path live_paths ds (ground (arith, h, e)) m n in
          elim (Bool-cases (has j live_paths || str_eq r.backing "primary")) [
            | inl g ↦ rw g rest
            | inr g ↦ rw g (inr rest)
          ]
    ]

  listing-Shows :
      (info : CheckoutInfo) (primary_path : String) (d : Dict WorktreeRecord) (bs : List Block)
      (path : String) (rec : WorktreeRecord)
      → lookup path d ≡ some rec
      → str_eq rec.backing "primary" ≡ false
      → Any (Shows rec) (listing o info primary_path d bs).entries
  unfolding listing
  listing-Shows info primary_path d bs path rec h n =
      Any-sort (Shows rec) _
        (elim (Bool-cases (has path (map (λ p. p.0) (live_entries o info primary_path d bs)))) [
          | inl m ↦
              Any-append_left (Shows rec) _ _
                (live_entries-Shows info d rec primary_path path bs h m)
          | inr m ↦
              Any-append_right (Shows rec) (map (λ p. p.1) (live_entries o info primary_path d bs))
                _ (orphaned_entries-Shows info d rec path _ d h m n)
        ])

  pub listing-repo_root :
      (info : CheckoutInfo) (primary_path : String) (d : Dict WorktreeRecord) (bs : List Block)
      → (listing o info primary_path d bs).repo_root ≡ info.repo_root
  unfolding listing
  listing-repo_root info primary_path d bs = refl

  -- A listing that is returned is that of some blocks.
  pub list_from-listing :
      (info : CheckoutInfo) (records : List WorktreeRecord) (c : Call) (l : RepoListing)
      → list_from o info records c ≡ ok l
      → (primary_path : String) × (bs : List Block) × (l
          ≡ listing o info primary_path (by_path o info.repo_root records []) bs)
  unfolding list_from list_blocks
  list_from-listing info records (timed_out n) l h = absurd (cc)
  list_from-listing info records no_git l h = absurd (cc)
  list_from-listing info records (completed p) l h = elim (Bool-cases (is_exit 0 p.returncode)) [
    | inr e ↦ absurd (cc (rw e at h))
    | inl e ↦
        let (primary_path, _, q) = >>=-eq-ok (primary_path_of o info _) _ (rw e at h) in
        (primary_path, _, sym (ok-eq-ok q))
  ]

  -- Whatever git answers, a listing that is returned has an entry for each record of its repository
  -- that is not of the primary checkout, if no other record of the repository has its resolved path:
  -- a tracked entry with the id and the path of the record, and with its status or as orphaned.
  pub list_repo-Shows :
      (path : String) (records : List WorktreeRecord) (l : RepoListing)
      → list_repo o path records ≡ ok l
      → (rec : WorktreeRecord) → Any (λ r. r ≡ rec) records
      → rec.repo_root ≡ l.repo_root
      → str_eq rec.backing "primary" ≡ false
      → IsAlone l.repo_root records rec
      → Any (Shows rec) l.entries
  unfolding list_repo
  list_repo-Shows path records l h rec m same n alone =
      let (info, _, q) = >>=-eq-ok (classify_checkout o path) _ h in
      let (primary_path, bs, e) = list_from-listing info records _ l q in
      shown info primary_path bs e
    where
      shown :
          (info : CheckoutInfo) (primary_path : String) (bs : List Block)
          → l ≡ listing o info primary_path (by_path o info.repo_root records []) bs
          → Any (Shows rec) l.entries
      shown info primary_path bs e =
          let root : l.repo_root ≡ info.repo_root =
            ap (λ (x : RepoListing). x.repo_root) e ∙ listing-repo_root info primary_path _ bs in
          subst (λ (x : RepoListing). Any (Shows rec) x.entries) (sym e)
            (listing-Shows info primary_path _ bs _ rec
              (lookup-by_path info.repo_root records [] rec
                (λ other k r. alone other k (r ∙ sym root)) m (same ∙ root))
              n)
