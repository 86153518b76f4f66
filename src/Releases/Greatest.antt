-- ===== src/Releases/Greatest.antt =====
-- `previous_tag` returns the greatest tag below the version.
use Prim.Native.Char.{Char}
use lib_python_worktree.Prelude.{
  ℕ, String, ◌≡◌, refl, sym, ◌∙◌, subst, inl, inr, Bool, true, false, ◌&&◌, ◌||◌, Option, none,
  some, List, [], ◌∷◌, arith, eq_refl, if◌then◌else◌, Bool-cases, Option-cases, str_eq,
  str_eq-cases,
}
use lib_python_worktree.Prelude.Lists.{has}
use lib_python_worktree.Releases.{Key, less_key, key_of, improves, best_below, previous_tag}
use lib_python_worktree.Releases.Transitive.{less_key_trans, less_key_irrefl}

module _ (digit_value : Char → Option ℕ) where
  -- The tag is a version below the target.
  abbrev pub IsBelow : Key → String → Key → Type 0
  IsBelow target tag key = (key_of digit_value tag ≡ some key) × (less_key key target ≡ true)

  -- The choice is one of the tags, below the target, and none of the tags that are below the target
  -- is above it; without a choice no tag is below the target.
  abbrev pub IsGreatest : Key → (String → Bool) → Option (String × Key) → Type 0
  IsGreatest target among none =
      (tag : String) (key : Key) → among tag ≡ true → IsBelow target tag key → ⊥
  IsGreatest target among (some (best, top)) =
      (among best ≡ true)
      × IsBelow target best top
      × ((tag : String) (key : Key)
          → among tag ≡ true
          → IsBelow target tag key
          → less_key top key ≡ false)

  IsGreatest-cong :
      (target : Key) (among others : String → Bool) (best : Option (String × Key))
      → ((t : String) → among t ≡ others t)
      → IsGreatest target among best
      → IsGreatest target others best
  IsGreatest-cong target among others none same q = λ t k m. q t k (same t ∙ m)
  IsGreatest-cong target among others (some (best, top)) same (m, below, top_most) =
      (sym (same best) ∙ m, below, λ t k n. top_most t k (same t ∙ n))

  abbrev adding : String → (String → Bool) → String → Bool
  adding tag among t = str_eq t tag || among t

  -- A tag that is no version, or not below the target, changes nothing.
  skip :
      (target : Key) (among : String → Bool) (best : Option (String × Key)) (tag : String)
      → ((key : Key) → IsBelow target tag key → ⊥)
      → IsGreatest target among best
      → IsGreatest target (adding tag among) best
  skip target among none tag not_below q = λ t key m below. elim (str_eq-cases t tag) [
    | inl e ↦ not_below key (subst (λ x. IsBelow target x key) e below)
    | inr e ↦ q t key (ground arith) below
  ]
  skip target among (some (best, top)) tag not_below (m, here, most) = (
    ground arith,
    here,
    λ t key n below. elim (str_eq-cases t tag) [
      | inl e ↦ absurd (not_below key (subst (λ x. IsBelow target x key) e below))
      | inr e ↦ most t key (ground arith) below
    ],
  )

  one_key :
      (tag : String) (j k : Key)
      → key_of digit_value tag ≡ some j
      → key_of digit_value tag ≡ some k
      → j ≡ k
  one_key tag j k e f = ground arith

  -- A tag below the target that is not above the best so far is passed over.
  keep :
      (target : Key) (among : String → Bool) (best : String) (top : Key) (tag : String) (key : Key)
      → key_of digit_value tag ≡ some key
      → less_key top key ≡ false
      → IsGreatest target among (some (best, top))
      → IsGreatest target (adding tag among) (some (best, top))
  keep target among best top tag key e lower (m, here, most) = (
    ground arith,
    here,
    λ t k n below. elim (str_eq-cases t tag) [
      | inl s ↦
          subst (λ x. less_key top x ≡ false)
            (one_key tag key k e (subst (λ x. key_of digit_value x ≡ some k) s (below.0))) lower
      | inr s ↦ most t k (ground arith) below
    ],
  )

  -- A tag below the target that is above the best so far is the best.
  take :
      (target : Key) (among : String → Bool) (best : Option (String × Key)) (tag : String)
      (key : Key)
      → IsBelow target tag key
      → improves digit_value best key ≡ true
      → IsGreatest target among best
      → IsGreatest target (adding tag among) (some (tag, key))
  take target among none tag key below better q = (
    ground (arith, eq_refl tag),
    below,
    λ t k n under. elim (str_eq-cases t tag) [
      | inl s ↦
          subst (λ x. less_key key x ≡ false)
            (one_key tag key k (below.0) (subst (λ x. key_of digit_value x ≡ some k) s (under.0)))
            (less_key_irrefl key)
      | inr s ↦ absurd (q t k (ground arith) under)
    ],
  )
  take target among (some (best, top)) tag key below better (m, here, most) = (
    ground (arith, eq_refl tag),
    below,
    λ t k n under. elim (str_eq-cases t tag) [
      | inl s ↦
          subst (λ x. less_key key x ≡ false)
            (one_key tag key k (below.0) (subst (λ x. key_of digit_value x ≡ some k) s (under.0)))
            (less_key_irrefl key)
      | inr s ↦ elim (Bool-cases (less_key key k)) [
        | inr f ↦ f
        | inl f ↦ absurd (ground (arith, less_key_trans top key k, most t k))
      ]
    ],
  )

  -- One round of the loop.
  choose : Key → Option (String × Key) → String → Option Key → Option (String × Key)
  choose target best tag none = best
  choose target best tag (some key) =
      if less_key key target && improves digit_value best key then some (tag, key) else best

  pass_or_take :
      (target : Key) (among : String → Bool) (best : Option (String × Key)) (tag : String)
      (key : Key)
      → key_of digit_value tag ≡ some key
      → less_key key target ≡ true
      → (b : Bool) → improves digit_value best key ≡ b
      → IsGreatest target among best
      → IsGreatest target (adding tag among) (if b then some (tag, key) else best)
  pass_or_take target among best tag key e low true better q =
      take target among best tag key (e, low) better q
  pass_or_take target among none tag key e low false worse q = absurd (cc)
  pass_or_take target among (some (best, top)) tag key e low false worse q =
      keep target among best top tag key e worse q

  choose-IsGreatest :
      (target : Key) (among : String → Bool) (best : Option (String × Key)) (tag : String)
      (found : Option Key)
      → key_of digit_value tag ≡ found
      → IsGreatest target among best
      → IsGreatest target (adding tag among) (choose target best tag found)
  unfolding choose
  choose-IsGreatest target among best tag none e q =
      skip target among best tag (λ key below. ground (arith, below.0)) q
  choose-IsGreatest target among best tag (some key) e q = elim (Bool-cases (less_key key target)) [
    | inr high ↦
        rw (high, choose)
          (skip target among best tag
            (λ k below. ground (
              arith,
              subst (λ x. less_key x target ≡ true) (one_key tag k key (below.0) e) (below.1),
            ))
            q)
    | inl low ↦
        rw (low, choose)
          (pass_or_take target among best tag key e low (improves digit_value best key) refl q)
  ]

  best_below-choose :
      (target : Key) (best : Option (String × Key)) (tag : String) (tags : List String)
      → best_below digit_value target best (tag ∷ tags)
        ≡ best_below digit_value target (choose target best tag (key_of digit_value tag)) tags
  unfolding best_below choose
  best_below-choose target best tag tags = elim (Option-cases (key_of digit_value tag)) [
    | inl e ↦ rw (e, best_below, choose) refl
    | inr (key, e) ↦ rw (e, best_below, choose) refl
  ]

  has-adding :
      (among : String → Bool) (tag : String) (tags : List String) (t : String)
      → (has t tags || adding tag among t) ≡ (has t (tag ∷ tags) || among t)
  unfolding has
  has-adding among tag tags t = ground arith

  best_below-IsGreatest :
      (target : Key) (tags : List String) (among : String → Bool) (best : Option (String × Key))
      → IsGreatest target among best
      → IsGreatest target (λ t. has t tags || among t) (best_below digit_value target best tags)
  unfolding best_below has
  best_below-IsGreatest target [] among best q = q
  best_below-IsGreatest target (tag ∷ tags) among best q =
      subst (IsGreatest target (λ t. has t (tag ∷ tags) || among t))
        (sym (best_below-choose target best tag tags))
        (IsGreatest-cong target (λ t. has t tags || adding tag among t) _
          (best_below digit_value target (choose target best tag (key_of digit_value tag)) tags)
          (has-adding among tag tags)
          (best_below-IsGreatest target tags (adding tag among)
            (choose target best tag (key_of digit_value tag))
            (choose-IsGreatest target among best tag (key_of digit_value tag) refl q)))

  -- The tag that is returned, if any, is one of the tags and a version below the given one, and no
  -- tag below the given version is above it.
  abbrev pub IsPrevious : Key → List String → Option String → Type 0
  IsPrevious target tags none =
      (tag : String) (key : Key) → has tag tags ≡ true → IsBelow target tag key → ⊥
  IsPrevious target tags (some best) =
      (has best tags ≡ true)
      × ((top : Key) × IsBelow target best top
          × ((tag : String) (key : Key)
              → has tag tags ≡ true
              → IsBelow target tag key
              → less_key top key ≡ false))

  chosen :
      (target : Key) (tags : List String) (best : Option (String × Key))
      → IsGreatest target (λ t. has t tags || false) best
      → IsPrevious target tags (elim best [ none ↦ none | some (tag, _) ↦ some tag ])
  chosen target tags none q = λ t k m. q t k (ground arith)
  chosen target tags (some (best, top)) (m, below, most) =
      (ground arith, (top, below, λ t k n. most t k (ground arith)))

  -- For a version that parses, `previous_tag` returns a tag that is below it and has no tag below
  -- the version above it, and returns nothing only if no tag is below the version.
  pub previous_tag-IsPrevious :
      (version : String) (tags : List String) (target : Key)
      → key_of digit_value version ≡ some target
      → IsPrevious target tags (previous_tag digit_value version tags)
  unfolding previous_tag
  previous_tag-IsPrevious version tags target e =
      rw (e, previous_tag)
        (chosen target tags (best_below digit_value target none tags)
          (best_below-IsGreatest target tags (λ t. false) none (λ t k m below. ground (arith, m))))
