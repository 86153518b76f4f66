-- ===== src/Releases/Tests.antt =====
-- Tags of a repository, and the one before a release.
use Prim.Native.Char.{Char, code}
use lib_python_worktree.Prelude.{
  ℕ, ◌-◌, String, ◌≡◌, refl, true, Option, none, some, List, [], ◌∷◌, if◌then◌else◌,
}
use lib_python_worktree.Prelude.Texts.{less_text}
use lib_python_worktree.Releases.{
  best_below, bare, parse_semver, read_number, read_digits, skip_dot, read_tail, read_run, is_end,
  is_prerelease_char, precedence_key, split_dots, part_of, digits_value, less_parts, less_part, Key,
  numeric, alphanumeric, is_digit, key_of, previous_tag, less_key,
}
use lib_python_worktree.Releases.Greatest.{IsPrevious, previous_tag-IsPrevious}

abbrev ascii_value : Char → Option ℕ
ascii_value c = if is_digit c then some (code c - 48) else none

abbrev tags : List String
tags = "v1.9.0" ∷ "nightly" ∷ "v1.10.0-rc.2" ∷ "v1.10.0-rc.10" ∷ "v1.10.0" ∷ "v2.0.0" ∷ []

abbrev key_1_10 : Key
key_1_10 = record { major = 1; minor = 10; patch = 0; release = 1; parts = [] }

abbrev key_rc_2 : Key
key_rc_2 = record {
  major = 1;
  minor = 10;
  patch = 0;
  release = 0;
  parts = alphanumeric "rc" ∷ numeric 2 ∷ [];
}

abbrev key_rc_10 : Key
key_rc_10 = record {
  major = 1;
  minor = 10;
  patch = 0;
  release = 0;
  parts = alphanumeric "rc" ∷ numeric 10 ∷ [];
}

key_of_release : key_of ascii_value "1.10.0" ≡ some key_1_10
unfolding key_of parse_semver read_number bare is_digit skip_dot read_digits read_tail
    precedence_key
key_of_release = refl

key_of_candidate : key_of ascii_value "v1.10.0-rc.2" ≡ some key_rc_2
unfolding key_of parse_semver read_number bare is_digit skip_dot read_digits read_tail is_end
    read_run is_prerelease_char precedence_key split_dots part_of digits_value
key_of_candidate = refl

previous_tag_run : previous_tag ascii_value "1.10.0" tags ≡ some "v1.10.0-rc.10"
unfolding previous_tag key_of is_digit less_key best_below bare parse_semver read_number read_digits
    skip_dot read_tail read_run is_end is_prerelease_char precedence_key split_dots part_of
    digits_value less_parts less_part less_text
previous_tag_run = refl

previous_tag-IsPrevious_example :
    IsPrevious ascii_value key_1_10 tags (previous_tag ascii_value "1.10.0" tags)
previous_tag-IsPrevious_example =
    previous_tag-IsPrevious ascii_value "1.10.0" tags key_1_10 key_of_release

lower : less_key key_rc_2 key_rc_10 ≡ true
unfolding less_key less_parts less_part less_text
lower = refl

upper : less_key key_rc_10 key_1_10 ≡ true
unfolding less_key
upper = refl
