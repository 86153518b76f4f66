-- ===== src/Releases/Precedence.antt =====
-- The precedence of texts and of the parts of a prerelease is a strict order.
use lib_python_worktree.Prelude.{◌≡◌, refl, ap, true, false, arith}
use lib_python_worktree.Releases.{Part, numeric, alphanumeric, less_part}
use lib_python_worktree.Prelude.Texts.{less_text_irrefl, less_text_total, less_text_trans}

pub less_part_irrefl : (p : Part) → less_part p p ≡ false
unfolding less_part
less_part_irrefl (numeric m) = ground arith
less_part_irrefl (alphanumeric s) = less_text_irrefl s

pub less_part_total : (p q : Part) → less_part p q ≡ false → less_part q p ≡ false → p ≡ q
unfolding less_part
less_part_total (numeric m) (numeric n) h k =
    let same : m ≡ n = ground arith in ap (λ x. numeric x) same
less_part_total (numeric m) (alphanumeric t) h k = ground arith
less_part_total (alphanumeric s) (numeric n) h k = ground arith
less_part_total (alphanumeric s) (alphanumeric t) h k =
    ap (λ x. alphanumeric x) (less_text_total s t h k)

pub less_part_trans :
    (p q r : Part) → less_part p q ≡ true → less_part q r ≡ true → less_part p r ≡ true
unfolding less_part
less_part_trans (numeric m) (numeric n) (numeric o) h k = ground arith
less_part_trans (numeric m) (numeric n) (alphanumeric u) h k = refl
less_part_trans (numeric m) (alphanumeric t) (numeric o) h k = ground arith
less_part_trans (numeric m) (alphanumeric t) (alphanumeric u) h k = refl
less_part_trans (alphanumeric s) (numeric n) r h k = ground arith
less_part_trans (alphanumeric s) (alphanumeric t) (numeric o) h k = ground arith
less_part_trans (alphanumeric s) (alphanumeric t) (alphanumeric u) h k = less_text_trans s t u h k
