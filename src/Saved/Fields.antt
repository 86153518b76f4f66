-- ===== src/Saved/Fields.antt =====
-- Reading back what was written, field by field.
use lib_python_worktree.Prelude.{
  ℕ, ◌≤◌, String, ◌≡◌, refl, ap, Bool, Option, none, some, List, [], ◌∷◌,
}
use lib_python_worktree.Prelude.Int.{ℤ, pos}
use lib_python_worktree.Prelude.Results.{ok}
use lib_python_worktree.Prelude.Dict.{Dict}
use lib_python_worktree.Prelude.Lists.{take_all, length}
use lib_python_worktree.Prelude.Texts.{take_chars, take_chars_all, char_count}
use lib_python_worktree.Store.{StopDetail, SetupOutcome, BaseFetchFallback}
use lib_python_worktree.Saved.Values.{
  Value, int, float, text, list, dict, Read, get, truthy, as_text, as_nat, as_int, as_float,
  as_dict, as_list, optional, or_default, items_of, texts_of, entries_of, text_items, nat_items,
  to_entries, or_null,
}
use lib_python_worktree.Saved.Records.{
  max_pids, max_stderr, stop_detail_to_dict, setup_outcome_to_dict, base_fetch_fallback_to_dict,
  text_entries, start_log_paths_from_dict, time_of, time_entries, start_times_from_dict,
  dict_or_empty, list_or_empty, flag, unless_empty, stop_detail_of, setup_outcome_of,
  base_fetch_fallback_of, as_stderr,
}

pub optional_text : (o : Option String) → optional as_text (some (or_null text o)) ≡ ok o
unfolding optional as_text or_null
optional_text none = refl
optional_text (some s) = refl

pub optional_nat : (o : Option ℕ) → optional as_nat (some (or_null (λ n. int (pos n)) o)) ≡ ok o
unfolding optional as_nat or_null
optional_nat none = refl
optional_nat (some n) = refl

pub optional_int : (o : Option ℤ) → optional as_int (some (or_null int o)) ≡ ok o
unfolding optional as_int or_null
optional_int none = refl
optional_int (some z) = refl

optional_float : (o : Option ℕ) → optional as_float (some (or_null float o)) ≡ ok o
unfolding optional as_float or_null
optional_float none = refl
optional_float (some x) = refl

-- A text of at most 2000 characters, if any.
abbrev pub IsShort : Option String → Type 0
IsShort none = Unit
IsShort (some s) = char_count s ≤ max_stderr

abbrev pub FewPids : Option StopDetail → Type 0
FewPids none = Unit
FewPids (some x) = length x.survivor_pids ≤ max_pids

abbrev pub ShortStderr : Option BaseFetchFallback → Type 0
ShortStderr none = Unit
ShortStderr (some x) = IsShort x.stderr

pub entries_of-to_entries :
    {A : Type 0} (to : A → Value) (read : Value → Read A)
    → ((a : A) → read (to a) ≡ ok a)
    → (d : Dict A) → entries_of read (to_entries to d) ≡ ok d
unfolding entries_of to_entries as_text
entries_of-to_entries to read h [] = refl
entries_of-to_entries to read h ((k, a) ∷ d) = rw (h a, entries_of-to_entries to read h d) refl

text_entries-to_entries : (d : Dict String) → text_entries (to_entries text d) ≡ d
unfolding text_entries to_entries
text_entries-to_entries [] = refl
text_entries-to_entries ((k, s) ∷ d) = ap (λ e. (k, s) ∷ e) (text_entries-to_entries d)

pub start_log_paths-to_entries :
    (d : Dict String) → start_log_paths_from_dict (some (dict (to_entries text d))) ≡ d
unfolding start_log_paths_from_dict
start_log_paths-to_entries d = text_entries-to_entries d

nat_items_lem : (ns : List ℕ) → items_of as_nat (nat_items ns) ≡ ok ns
unfolding items_of nat_items as_nat
nat_items_lem [] = refl
nat_items_lem (n ∷ ns) = rw (nat_items_lem ns) refl

text_items_lem : (ss : List String) → texts_of (text_items ss) ≡ ok ss
unfolding texts_of text_items as_text
text_items_lem [] = refl
text_items_lem (s ∷ ss) = rw (text_items_lem ss) refl

module _ (is_zero : ℕ → Bool) (float_of : Value → Option ℕ) where
  dict_or_empty-to_entries :
      {A : Type 0} (to : A → Value) (read : Value → Read A)
      → ((a : A) → read (to a) ≡ ok a)
      → (d : Dict A) → dict_or_empty is_zero float_of read (some (dict (to_entries to d))) ≡ ok d
  unfolding dict_or_empty as_dict truthy to_entries
  dict_or_empty-to_entries to read h [] = refl
  dict_or_empty-to_entries to read h ((k, a) ∷ d) = entries_of-to_entries to read h ((k, a) ∷ d)

  pub dict_of_nats :
      (d : Dict ℕ)
      → dict_or_empty is_zero float_of as_nat (some (dict (to_entries (λ n. int (pos n)) d))) ≡ ok d
  unfolding as_nat
  dict_of_nats d = dict_or_empty-to_entries (λ n. int (pos n)) as_nat (λ n. refl) d

  pub dict_of_texts :
      (d : Dict String)
      → dict_or_empty is_zero float_of as_text (some (dict (to_entries text d))) ≡ ok d
  unfolding as_text
  dict_of_texts d = dict_or_empty-to_entries text as_text (λ s. refl) d

  time_entries-to_entries : (d : Dict ℕ) → time_entries is_zero float_of (to_entries float d) ≡ d
  unfolding time_entries to_entries time_of
  time_entries-to_entries [] = refl
  time_entries-to_entries ((k, x) ∷ d) = ap (λ e. (k, x) ∷ e) (time_entries-to_entries d)

  pub start_times-to_entries :
      (d : Dict ℕ) → start_times_from_dict is_zero float_of (some (dict (to_entries float d))) ≡ d
  unfolding start_times_from_dict
  start_times-to_entries d = time_entries-to_entries d

  list_of_nats :
      (ns : List ℕ)
      → list_or_empty is_zero float_of (items_of as_nat) (some (list (nat_items ns))) ≡ ok ns
  unfolding list_or_empty as_list truthy nat_items
  list_of_nats [] = refl
  list_of_nats (n ∷ ns) = nat_items_lem (n ∷ ns)

  list_of_texts :
      (ss : List String)
      → list_or_empty is_zero float_of texts_of (some (list (text_items ss))) ≡ ok ss
  unfolding list_or_empty as_list truthy text_items
  list_of_texts [] = refl
  list_of_texts (s ∷ ss) = text_items_lem (s ∷ ss)

  optional_stderr :
      (o : Option String)
      → IsShort o
      → optional as_stderr (some (or_null (λ s. text (take_chars max_stderr s)) o)) ≡ ok o
  unfolding optional as_text or_null
  optional_stderr none h = refl
  optional_stderr (some s) h =
      rw (take_chars_all max_stderr s h, take_chars_all max_stderr s h) refl

  pub stop_detail_roundtrip :
      (o : Option StopDetail)
      → FewPids o
      → unless_empty is_zero float_of
          (stop_detail_of is_zero float_of)
          (some (stop_detail_to_dict o))
        ≡ ok o
  unfolding unless_empty stop_detail_of stop_detail_to_dict truthy as_dict get or_default as_text
      as_nat flag
  stop_detail_roundtrip none h = refl
  stop_detail_roundtrip (some x) h =
      rw
        (
          take_all max_pids x.survivor_pids h,
          optional_text x.role,
          list_of_nats x.survivor_pids,
          optional_nat x.truncated_at,
          list_of_texts x.skipped_passes,
        )
        (ap (λ p. ok (some (record x { survivor_pids = p }))) (take_all max_pids x.survivor_pids h))

  pub setup_outcome_roundtrip :
      (o : Option SetupOutcome)
      → unless_empty is_zero float_of
          (setup_outcome_of is_zero float_of)
          (some (setup_outcome_to_dict o))
        ≡ ok o
  unfolding unless_empty setup_outcome_of setup_outcome_to_dict truthy as_dict get or_default
      as_text as_nat flag
  setup_outcome_roundtrip none = refl
  setup_outcome_roundtrip (some x) =
      rw
        (
          optional_text x.completed_at,
          optional_nat x.failed_step_index,
          optional_text x.failed_step_name,
          optional_text x.log_path,
          optional_int x.returncode,
        )
        refl

  pub base_fetch_fallback_roundtrip :
      (o : Option BaseFetchFallback)
      → ShortStderr o
      → unless_empty is_zero float_of
          (base_fetch_fallback_of is_zero float_of)
          (some (base_fetch_fallback_to_dict o))
        ≡ ok o
  unfolding unless_empty base_fetch_fallback_of base_fetch_fallback_to_dict truthy as_dict get
      or_default as_text
  base_fetch_fallback_roundtrip none h = refl
  base_fetch_fallback_roundtrip (some x) h =
      rw (optional_stderr x.stderr h, optional_int x.returncode, optional_float x.elapsed_sec) refl
