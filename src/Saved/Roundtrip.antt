-- ===== src/Saved/Roundtrip.antt =====
-- Writing a record and reading it back.
use lib_python_worktree.Prelude.{ℕ, Bool, ◌≡◌, refl, false, Option, []}
use lib_python_worktree.Prelude.Results.{ok}
use lib_python_worktree.Prelude.Texts.{replace_char_none, has_char}
use lib_python_worktree.Store.{WorktreeRecord}
use lib_python_worktree.Saved.Values.{Value, get, truthy, as_text, or_default, required}
use lib_python_worktree.Saved.Records.{record_to_dict, record_from_dict, flag}
use lib_python_worktree.Saved.Fields.{
  optional_text, optional_int, start_log_paths-to_entries, dict_of_nats, dict_of_texts,
  start_times-to_entries, FewPids, ShortStderr, stop_detail_roundtrip, setup_outcome_roundtrip,
  base_fetch_fallback_roundtrip,
}

module _ (is_zero : ℕ → Bool) (float_of : Value → Option ℕ) where
  -- The paths are written with slashes, and the details are within their caps.
  pub record IsSaved (r : WorktreeRecord) : Type 0 where
    pub repo_root : has_char 92 r.repo_root ≡ false
    pub path : has_char 92 r.path ≡ false
    pub pids : FewPids r.stop_detail
    pub stderr : ShortStderr r.base_fetch_fallback

  -- A record whose paths have no backslash and whose details are within their caps is read back as
  -- it was written, but for `start_variants`, which is not saved.
  pub record_roundtrip :
      (r : WorktreeRecord)
      → IsSaved r
      → record_from_dict is_zero float_of (record_to_dict r) ≡ ok (record r { start_variants = [] })
  unfolding record_from_dict record_to_dict get required or_default as_text flag truthy
  record_roundtrip r s =
      rw
        (
          optional_text r.branch,
          dict_of_nats is_zero float_of r.ports,
          dict_of_nats is_zero float_of r.pids,
          optional_int r.returncode,
          dict_of_texts is_zero float_of r.job_names,
          dict_of_texts is_zero float_of r.variants,
          stop_detail_roundtrip is_zero float_of r.stop_detail s.pids,
          setup_outcome_roundtrip is_zero float_of r.setup_outcome,
          base_fetch_fallback_roundtrip is_zero float_of r.base_fetch_fallback s.stderr,
          start_log_paths-to_entries r.start_log_paths,
          start_times-to_entries is_zero float_of r.start_times,
          replace_char_none 92 "/" r.repo_root s.repo_root,
          replace_char_none 92 "/" r.path s.path,
        )
        refl
