-- ===== src/Saved/Stable.antt =====
-- What has been read is written and read back the same.
use lib_python_worktree.Prelude.{
  ℕ, ◌≤◌, String, Bool, ◌≡◌, ap, ◌∙◌, sym, Option, none, some, [], arith,
}
use lib_python_worktree.Prelude.Results.{ok}
use lib_python_worktree.Prelude.Lists.{length, length-take}
use lib_python_worktree.Prelude.Texts.{has_char-replace_char, char_count-take_chars}
use lib_python_worktree.Store.{StopDetail, BaseFetchFallback, WorktreeRecord}
use lib_python_worktree.Saved.Values.{Value, Entries, get, optional, as_text}
use lib_python_worktree.Saved.Records.{
  max_pids, record_to_dict, record_from_dict, unless_empty, stop_detail_of, base_fetch_fallback_of,
  as_stderr,
}
use lib_python_worktree.Saved.Fields.{IsShort, FewPids, ShortStderr}
use lib_python_worktree.Saved.Roundtrip.{IsSaved, record_roundtrip}

module _ (is_zero : ℕ → Bool) (float_of : Value → Option ℕ) where
  stop_detail-FewPids :
      (d : Entries) (x : StopDetail)
      → stop_detail_of is_zero float_of d ≡ ok x
      → length x.survivor_pids ≤ max_pids
  unfolding stop_detail_of
  stop_detail-FewPids d x e = grind (arith, length-take)

  read_stop_detail-FewPids :
      (o : Option Value) (x : Option StopDetail)
      → unless_empty is_zero float_of (stop_detail_of is_zero float_of) o ≡ ok x
      → FewPids x
  unfolding unless_empty
  read_stop_detail-FewPids o none e = tt
  read_stop_detail-FewPids o (some x) e = grind (arith, stop_detail-FewPids)

  stderr-IsShort : (o : Option Value) (s : Option String) → optional as_stderr o ≡ ok s → IsShort s
  unfolding optional as_text
  stderr-IsShort o none e = tt
  stderr-IsShort o (some s) e = grind (arith, char_count-take_chars)

  fallback-ShortStderr :
      (d : Entries) (x : BaseFetchFallback)
      → base_fetch_fallback_of is_zero float_of d ≡ ok x
      → IsShort x.stderr
  unfolding base_fetch_fallback_of
  fallback-ShortStderr d x e =
      let read : optional as_stderr (get "stderr" d) ≡ ok x.stderr = ground arith in
      stderr-IsShort (get "stderr" d) x.stderr read

  read_fallback-ShortStderr :
      (o : Option Value) (x : Option BaseFetchFallback)
      → unless_empty is_zero float_of (base_fetch_fallback_of is_zero float_of) o ≡ ok x
      → ShortStderr x
  unfolding unless_empty
  read_fallback-ShortStderr o none e = tt
  read_fallback-ShortStderr o (some x) e = grind (arith, fallback-ShortStderr)

  record_from_dict-start_variants :
      (d : Entries) (r : WorktreeRecord)
      → record_from_dict is_zero float_of d ≡ ok r
      → r.start_variants ≡ []
  unfolding record_from_dict
  record_from_dict-start_variants d r e = ground arith

  -- What is read from a dict, whatever it holds, has its paths written with slashes and its details
  -- within their caps.
  record_from_dict-IsSaved :
      (d : Entries) (r : WorktreeRecord)
      → record_from_dict is_zero float_of d ≡ ok r
      → IsSaved is_zero float_of r
  unfolding record_from_dict
  record_from_dict-IsSaved d r e =
      let detail : unless_empty is_zero float_of (stop_detail_of is_zero float_of)
            (get "stop_detail" d)
          ≡ ok r.stop_detail =
        ground arith in
      let fallback : unless_empty is_zero float_of (base_fetch_fallback_of is_zero float_of)
            (get "base_fetch_fallback" d)
          ≡ ok r.base_fetch_fallback =
        ground arith in
      record {
        repo_root = grind (arith, has_char-replace_char);
        path = grind (arith, has_char-replace_char);
        pids = read_stop_detail-FewPids _ _ detail;
        stderr = read_fallback-ShortStderr _ _ fallback;
      }

  -- Whatever dict a record has been read from, the record is written and read back the same.
  pub record_from_dict_again :
      (d : Entries) (r : WorktreeRecord)
      → record_from_dict is_zero float_of d ≡ ok r
      → record_from_dict is_zero float_of (record_to_dict r) ≡ ok r
  record_from_dict_again d r e =
      record_roundtrip is_zero float_of r (record_from_dict-IsSaved d r e)
      ∙ ap (λ vs. ok (record r { start_variants = vs }))
          (sym (record_from_dict-start_variants d r e))
