-- ===== src/Ports/Tests.antt =====
-- The port allocator on concrete calls.
use lib_python_worktree.Prelude.{
  ℕ, String, ◌≡◌, refl, Bool, true, some, List, [], ◌∷◌, arith, ◌==◌, ◌≢◌, eq_iff,
}
use lib_python_worktree.Prelude.Results.{ok, err}
use lib_python_worktree.Prelude.Dict.{Dict, lookup, insert}
use lib_python_worktree.Prelude.Lists.{contains, has, range, IsDistinct}
use lib_python_worktree.Ports.{
  allocate, save_claims, claim_all, pass_one, claim_pin, holds, taken_by_others, pass_two,
  claim_free, first_free, claim, in_slot_order, owner_of, is_plain, port_key, pinned_unavailable,
  is_taken,
}
use lib_python_worktree.Ports.Settled.{IsExclusive, single-IsExclusive}
use lib_python_worktree.Ports.Exclusive.{allocate-IsExclusive}
use lib_python_worktree.Ports.Outcome.{Ends, allocate-Ends}

abbrev busy : ℕ → Bool
busy p = p == 8001

abbrev unshuffled : String → List ℕ → List ℕ
unshuffled s ps = ps

abbrev one_entry : Dict ℕ
one_entry = ("wt-b:web", 8000) ∷ []

abbrev pinned_db : Dict ℕ
pinned_db = ("db", 8003) ∷ []

abbrev two_slots : List String
two_slots = "web" ∷ "db" ∷ []

two_slots-IsDistinct : IsDistinct two_slots
unfolding has
two_slots-IsDistinct = (refl, (refl, tt))

allocate_run : allocate busy unshuffled 8000 8004 two_slots "wt-a" pinned_db one_entry ≡ (
  ok (("web", 8002) ∷ ("db", 8003) ∷ []),
  ("wt-b:web", 8000) ∷ ("wt-a:db", 8003) ∷ ("wt-a:web", 8002) ∷ [],
)
unfolding allocate save_claims claim_all pass_one lookup claim_pin holds port_key contains
    taken_by_others has pass_two claim_free first_free range claim in_slot_order insert
allocate_run = refl

-- A pin that another worktree has is refused, with its owner, and the file stays.
allocate_refusal :
    allocate busy unshuffled 8000 8004 two_slots "wt-a" (("db", 8000) ∷ []) one_entry
    ≡ (err (pinned_unavailable "db" 8000 "wt-a" is_taken (some "wt-b:web")), one_entry)
unfolding allocate save_claims claim_all pass_one lookup claim_pin holds port_key contains
    taken_by_others has owner_of range
allocate_refusal = refl

allocate-IsExclusive_example :
    IsExclusive (allocate busy unshuffled 8000 8004 two_slots "wt-a" pinned_db one_entry).1
allocate-IsExclusive_example =
    allocate-IsExclusive busy unshuffled 8000 8004 two_slots "wt-a" pinned_db one_entry
      two_slots-IsDistinct (single-IsExclusive "db" 8003) (single-IsExclusive "wt-b:web" 8000)

allocate-Ends_example :
    Ends busy unshuffled 8000 8004 two_slots "wt-a" pinned_db one_entry
      (allocate busy unshuffled 8000 8004 two_slots "wt-a" pinned_db one_entry)
allocate-Ends_example =
    allocate-Ends busy unshuffled (λ s ps p. refl) 8000 8004 "wt-a" pinned_db one_entry two_slots

plain_a : is_plain "wt-a" ≡ true
unfolding is_plain
plain_a = refl

plain_b : is_plain "wt-b" ≡ true
unfolding is_plain
plain_b = refl

abbrev wt_a : String
wt_a = "wt-a"

a_ne_b : wt_a ≢ "wt-b"
a_ne_b e = ground (arith, eq_iff wt_a "wt-b")
