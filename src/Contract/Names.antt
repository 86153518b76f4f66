-- ===== src/Contract/Names.antt =====
-- Which field values `model_validate` accepts, in words of their own.
use Prim.Native.Char.{code}
use Prim.Native.String.{◌++◌ as join}
use text.Mathlib.TextEquality.{Char-path}
use text.Mathlib.TextLemmas.{cons-append}
use lib_python_worktree.Prelude.{
  ℕ, zero, suc, ◌≤◌, String, ◌≡◌, ◌≢◌, ◌↔◌, ◌⊎◌, inl, inr, refl, sym, ap, ◌∙◌, Bool, true, false,
  Option, none, some, List, [], ◌∷◌, ◌&&◌, ◌==◌, str_eq, arith, eq_iff, Bool-cases,
}
use lib_python_worktree.Prelude.Lists.{All}
use lib_python_worktree.Prelude.Texts.{char_count}
use lib_python_worktree.Contract.{
  Step, PortSlot, WorktreeContract, step_ok, port_ok, slot_ok, all_ok, fields_ok,
}
use lib_python_worktree.Contract.Slug.{is_lower, is_word, at_end, is_slug_tail, is_slug}
use lib_python_worktree.Contract.Newline.{has_line_feed, is_slug_tail-line_feed}

-- A letter from a to z.
abbrev pub IsLower : ℕ → Type 0
IsLower c = (97 ≤ c) × (c ≤ 122)

-- Such a letter, a digit from 0 to 9, or an underscore.
abbrev pub IsWordChar : ℕ → Type 0
IsWordChar c = IsLower c ⊎ ((48 ≤ c) × (c ≤ 57)) ⊎ (c ≡ 95)

abbrev pub AllWord : String → Type 0
AllWord String.[] = Unit
AllWord (String.◌∷◌ c s) = IsWordChar (code c) × AllWord s

-- The text, or the text and a line feed.
abbrev pub IsEnded : (text s : String) → Type 0
IsEnded text s = (s ≡ text) ⊎ (s ≡ join text "\n")

-- At most `n` word characters, and perhaps a line feed.
abbrev pub IsTail : ℕ → String → Type 0
IsTail n s = (t : String) × (AllWord t × (char_count t ≤ n) × IsEnded t s)

-- A name of a port slot: a letter and up to 31 word characters, and perhaps a line feed.
abbrev pub IsSlotName : String → Type 0
IsSlotName String.[] = ⊥
IsSlotName (String.◌∷◌ c s) = IsLower (code c) × IsTail 31 s

is_lower_iff : (c : ℕ) → (is_lower c ≡ true) ↔ IsLower c
unfolding is_lower
is_lower_iff c = ((λ h. (ground (arith, h), ground (arith, h))), λ (a, b). ground (arith, a, b))

is_word_to : (c : ℕ) → is_word c ≡ true → IsWordChar c
unfolding is_word
is_word_to c h = elim (Bool-cases (is_lower c)) [
  | inl e ↦ inl ((is_lower_iff c).0 e)
  | inr e ↦ elim (Bool-cases (c == 95)) [
    | inl u ↦ inr (inr (ground (arith, u)))
    | inr u ↦ inr (inl (ground (arith, h, e, u), ground (arith, h, e, u)))
  ]
]

is_word_from : (c : ℕ) → IsWordChar c → is_word c ≡ true
unfolding is_word is_lower
is_word_from c (inl (a, b)) = ground (arith, a, b)
is_word_from c (inr (inl (a, b))) = ground (arith, a, b)
is_word_from c (inr (inr e)) = ground (arith, e)

AllWord-line_feed : (t : String) → AllWord t → has_line_feed t ≡ false
unfolding has_line_feed
AllWord-line_feed String.[] all = refl
AllWord-line_feed (String.◌∷◌ c t) (w, all) =
    let rest = AllWord-line_feed t all in
    elim w [
      | inl (a, b) ↦ ground (arith, a, rest)
      | inr (inl (a, b)) ↦ ground (arith, a, rest)
      | inr (inr e) ↦ ground (arith, e, rest)
    ]

at_end-IsEnded : (s : String) → at_end s ≡ true → IsEnded "" s
unfolding at_end
at_end-IsEnded String.[] h = inl refl
at_end-IsEnded (String.◌∷◌ c String.[]) h =
    inr (ap (λ d. String.◌∷◌ d String.[]) (Char-path c "\n" (ground (arith, h))))
at_end-IsEnded (String.◌∷◌ c (String.◌∷◌ d s)) h = absurd (cc h)

AllWord-is_slug_tail : (n : ℕ) (t : String) → AllWord t → char_count t ≤ n → is_slug_tail n t ≡ true
unfolding is_slug_tail char_count
AllWord-is_slug_tail zero String.[] all h = refl
AllWord-is_slug_tail (suc n) String.[] all h = refl
AllWord-is_slug_tail zero (String.◌∷◌ c t) all h = absurd (omega (arith, h))
AllWord-is_slug_tail (suc n) (String.◌∷◌ c t) (w, all) h =
    rw (is_word_from (code c) w) (AllWord-is_slug_tail n t all (omega (arith, h)))

is_slug_tail-IsTail : (n : ℕ) (s : String) → is_slug_tail n s ≡ true → IsTail n s
unfolding is_slug_tail char_count
is_slug_tail-IsTail n String.[] h = ("", (tt, omega arith, inl refl))
is_slug_tail-IsTail zero (String.◌∷◌ c s) h = ("", (tt, omega arith, at_end-IsEnded _ h))
is_slug_tail-IsTail (suc n) (String.◌∷◌ c s) h = elim (Bool-cases (is_word (code c))) [
  | inr e ↦ ("", (tt, omega arith, at_end-IsEnded _ (rw e at h)))
  | inl e ↦
      let (t, (all, count, ended)) = is_slug_tail-IsTail n s (rw e at h) in
      (
        String.◌∷◌ c t,
        (
          (is_word_to (code c) e, all),
          omega (arith, count),
          elim ended [
            | inl q ↦ inl (ap (String.◌∷◌ c) q)
            | inr q ↦ inr (ap (String.◌∷◌ c) q ∙ sym (cons-append c t "\n"))
          ],
        ),
      )
]

IsTail-is_slug_tail : (n : ℕ) (s : String) → IsTail n s → is_slug_tail n s ≡ true
IsTail-is_slug_tail n s (t, (all, count, inl q)) =
    ap (is_slug_tail n) q ∙ AllWord-is_slug_tail n t all count
IsTail-is_slug_tail n s (t, (all, count, inr q)) =
    ap (is_slug_tail n) q
    ∙ is_slug_tail-line_feed n t (AllWord-line_feed t all) (AllWord-is_slug_tail n t all count)

-- `_PORT_NAME_RE` matches exactly the names of port slots.
pub is_slug_iff : (s : String) → (is_slug s ≡ true) ↔ IsSlotName s
unfolding is_slug
is_slug_iff String.[] = ((λ h. absurd (cc h)), λ h. absurd h)
is_slug_iff (String.◌∷◌ c s) = (
  (λ h. (
    (is_lower_iff (code c)).0 (ground (arith, h)),
    is_slug_tail-IsTail 31 s (ground (arith, h)),
  )),
  λ (low, tail). rw ((is_lower_iff (code c)).1 low, IsTail-is_slug_tail 31 s tail) refl,
)

-- A step has something to run.
abbrev pub IsStep : Step → Type 0
IsStep s = s.run ≢ ""

-- A pin is a port number.
abbrev pub IsPort : Option ℕ → Type 0
IsPort none = Unit
IsPort (some p) = (1 ≤ p) × (p ≤ 65535)

abbrev pub IsSlot : PortSlot → Type 0
IsSlot s = IsSlotName s.name × IsPort s.port

-- What the types of the fields demand.
pub record HasFields (c : WorktreeContract) : Type 0 where
  pub version : c.version ≡ 1
  pub setup : All IsStep c.setup
  pub teardown : All IsStep c.teardown
  pub ports : All IsSlot c.ports
  pub start : All IsStep c.start
  pub stop : All IsStep c.stop
  pub seed_postprocess : All IsStep c.seed_postprocess

step_ok_iff : (s : Step) → (step_ok s ≡ true) ↔ IsStep s
unfolding step_ok
step_ok_iff s = (
  (λ h e. absurd (ground (arith, h, eq_iff s.run "", e))),
  λ n. elim (Bool-cases (str_eq s.run "")) [
    | inl e ↦ absurd (n ((eq_iff s.run "").0 e))
    | inr e ↦ rw e refl
  ],
)

port_ok_iff : (p : Option ℕ) → (port_ok p ≡ true) ↔ IsPort p
unfolding port_ok
port_ok_iff none = ((λ h. tt), λ h. refl)
port_ok_iff (some p) =
    ((λ h. (ground (arith, h), ground (arith, h))), λ (a, b). ground (arith, a, b))

and_iff :
    {P Q : Type 0} (a b : Bool) → ((a ≡ true) ↔ P) → ((b ≡ true) ↔ Q) → (a && b ≡ true) ↔ (P × Q)
and_iff a b (f, f') (g, g') = (
  (λ h. (f (ground (arith, h)), g (ground (arith, h)))),
  λ (p, q). let x = f' p in let y = g' q in ground (arith, x, y),
)

slot_ok_iff : (s : PortSlot) → (slot_ok s ≡ true) ↔ IsSlot s
unfolding slot_ok
slot_ok_iff s = and_iff _ _ (is_slug_iff s.name) (port_ok_iff s.port)

all_ok_iff :
    {A : Type 0} {P : A → Type 0} (p : A → Bool)
    → ((x : A) → (p x ≡ true) ↔ P x)
    → (xs : List A) → (all_ok p xs ≡ true) ↔ All P xs
unfolding all_ok
all_ok_iff p each [] = ((λ h. tt), λ h. refl)
all_ok_iff p each (x ∷ xs) = and_iff _ _ (each x) (all_ok_iff p each xs)

-- The field constraints accept exactly the fields so described.
pub fields_ok_iff : (c : WorktreeContract) → (fields_ok c ≡ true) ↔ HasFields c
unfolding fields_ok
fields_ok_iff c =
    let steps = all_ok_iff step_ok step_ok_iff in
    let (to, from) =
      and_iff _ _
        (and_iff _ _
          (and_iff _ _
            (and_iff _ _ (and_iff _ _ (and_iff _ _ version_iff (steps c.setup)) (steps c.teardown))
              (all_ok_iff slot_ok slot_ok_iff c.ports))
            (steps c.start))
          (steps c.stop))
        (steps c.seed_postprocess) in
    (
      (λ h.
          let ((((((v, a), b), p), s), t), x) = to h in
          record {
            version = v;
            setup = a;
            teardown = b;
            ports = p;
            start = s;
            stop = t;
            seed_postprocess = x;
          }),
      λ f.
          from (
            (((((f.version, f.setup), f.teardown), f.ports), f.start), f.stop),
            f.seed_postprocess,
          ),
    )
  where
    version_iff : (c.version == 1 ≡ true) ↔ (c.version ≡ 1)
    version_iff = ((λ h. ground (arith, h)), λ h. ground (arith, h))
