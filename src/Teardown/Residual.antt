-- ===== src/Teardown/Residual.antt =====
-- The residue of the delete ladder: the attempts that follow only look at it.
use lib_python_worktree.Prelude.{◌≡◌, refl}
use lib_python_worktree.Teardown.Types.{Dir, Outside, Request, World}
use lib_python_worktree.Teardown.Disk.{has_content, delete_staged}
use lib_python_worktree.Teardown.Phases.{residual_gone, clear_staged}
use lib_python_worktree.Teardown.Stable.{Keeps, IsStable, resolve-keeps}
use lib_python_worktree.Teardown.Quiet.{if-keeps}
use lib_python_worktree.Teardown.Frame.{residual_gone-eq-some}

abbrev pub StagedIs : Dir → World → Type 0
StagedIs d w = w.staged ≡ d

StagedIs-IsStable : (d : Dir) → IsStable (StagedIs d)
StagedIs-IsStable d = record { book = λ w n k t b ks q. q; asked = λ w n c e q. q }

residual_gone-StagedIs :
    (o : Outside) (r : Request) (d : Dir) → Keeps (StagedIs d) (residual_gone o r)
residual_gone-StagedIs o r d = record {
  at = λ w w' e q. rw ((residual_gone-eq-some o r w w' e).1) q;
}

-- What one pass of the delete ladder leaves of the staged tree is what the phase leaves of it: the
-- retries, the scans and the kills that follow never delete it, whatever the caller allows.
pub clear_staged-staged :
    (o : Outside) (r : Request) (w : World)
    → (clear_staged o r w).staged ≡ (delete_staged o w).staged
unfolding clear_staged
clear_staged-staged o r w =
    let d = (delete_staged o w).staged in
    if-keeps (StagedIs d) (has_content d) _ _
      (resolve-keeps (StagedIs d) (StagedIs-IsStable d) o (residual_gone o r)
        (residual_gone-StagedIs o r d) r (delete_staged o w) refl)
      refl
