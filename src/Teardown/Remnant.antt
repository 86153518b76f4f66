-- ===== src/Teardown/Remnant.antt =====
-- What is left of an earlier removal: a staged copy with content and no checkout.
use lib_python_worktree.Prelude.{◌↔◌, ◌≡◌, Bool, true, false, arith, ◌⊎◌}
use lib_python_worktree.Teardown.Types.{Dir, absent, hollow, full}
use lib_python_worktree.Teardown.Disk.{exists, has_content, target_is_absent}

-- Without `force`, `_target_is_absent` holds exactly where there is neither a checkout nor content
-- under the staged name; with `force` a checkout that is not there is enough.
pub target_is_absent_iff :
    (c s : Dir) (force : Bool)
    → (target_is_absent c s force ≡ true)
      ↔ ((c ≡ absent) × ((force ≡ true) ⊎ (has_content s ≡ false)))
unfolding target_is_absent exists has_content
target_is_absent_iff absent s force = ground arith
target_is_absent_iff hollow s force = ground arith
target_is_absent_iff full s force = ground arith
