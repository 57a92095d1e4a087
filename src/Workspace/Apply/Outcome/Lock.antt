-- ===== src/Workspace/Apply/Outcome/Lock.antt =====
-- Taking the lock and giving it back.
use uawp.Base.{
  ◌≡◌, refl, true, false, none, some, Option, Bytes, bytes_beq, bytes_eq, nat_eq, if◌then◌else◌,
  Bool,
}
use uawp.Workspace.Disk.{Node, Disk, lookup, lookup-unset}
use uawp.Workspace.Op.{◌>>◌, ApplyError, modify, fail}
use uawp.Workspace.Op.Triple.{Triple-modify}
use uawp.Workspace.Apply.Frame.{is_internal, Same, Same-IsStable, Same-unset}
use uawp.Workspace.Apply.Run.{pointer_path, unlock, locked_unless, lock_found, lock_path}
use uawp.Workspace.Apply.Quiet.{
  Quiet-step, Quiet, Quiet-refuse_when, Quiet-pure, Quiet-lstat, Quiet-create, Quiet-fail,
}

abbrev pub unlock_if : Bool → Disk → Disk
unlock_if locked d = if locked then unlock d else d

pub unlock_if-pointer :
    (locked : Bool) (d : Disk) → lookup (unlock_if locked d) pointer_path ≡ lookup d pointer_path
unfolding bytes_beq
unlock_if-pointer true d = lookup-unset d lock_path pointer_path
unlock_if-pointer false d = refl

module _ (receipt : Bytes) where
  pub unlock-Same : (d : Disk) → Same receipt d (unlock d)
  unfolding is_internal bytes_beq
  unlock-Same d = Same-unset receipt d lock_path refl

  pub unlock_if-Same : (locked : Bool) (d : Disk) → Same receipt d (unlock_if locked d)
  unlock_if-Same true d = unlock-Same d
  unlock_if-Same false d = λ q u. refl

  module _ (d0 : Disk) where
    give_up :
        {A : Type 0} (e : ApplyError) → Quiet (Same receipt d0) (modify unlock >> fail {A = A} e)
    give_up e =
        Quiet-step (Triple-modify _ (λ d h. Same-IsStable receipt d0 d _ (unlock-Same d) h))
          (λ _. Quiet-fail e)

    locked_unless-Quiet :
        (pointer purge : Bool) → Quiet (Same receipt d0) (locked_unless pointer purge)
    unfolding locked_unless
    locked_unless-Quiet true purge = give_up _
    locked_unless-Quiet false true = give_up _
    locked_unless-Quiet false false = Quiet-pure true

    pub lock_found-Quiet :
        (allow_pending_purge : Bool) (n : Option Node)
        → Quiet (Same receipt d0) (lock_found allow_pending_purge n)
    unfolding lock_found is_internal bytes_beq
    lock_found-Quiet allow_pending_purge none = Quiet-pure false
    lock_found-Quiet allow_pending_purge (some found) = Quiet-step (Quiet-refuse_when _ _) (λ _.
        Quiet-step (Quiet-create receipt (Same-IsStable receipt d0) _ _ refl) (λ _.
          Quiet-step (Quiet-lstat _)
            (λ pointer. Quiet-step (Quiet-lstat _) (λ purge. locked_unless-Quiet _ _))))
