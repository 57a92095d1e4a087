-- ===== src/Workspace/Apply/Outcome/Running.antt =====
-- The disk while the changes are made.
use uawp.Base.{
  ◌≡◌, inl, inr, refl, false, none, some, Option, List, [], ◌∷◌, All, Bytes, arith, bytes_beq,
  bytes_eq, nat_eq, ◌==◌, ◌++◌,
}
use uawp.Plan.Change.{Change}
use uawp.Workspace.Disk.{Node, Disk, lookup-set, lookup-unset}
use uawp.Workspace.Apply.Frame.{
  is_internal, IsMade, Leaves, Same, Same-set, Follows, Follows-IsStable, set-Follows,
  unset-Follows,
}
use uawp.Workspace.Apply.Run.{pointer_path}
use uawp.Workspace.Apply.Run.Laws.{KeptByRecords, Admits}
use uawp.Workspace.Apply.Run.Complete.{ArePublic}
use uawp.Workspace.Apply.Prepare.Laws.{HasPointer, bundle-is_internal, recovery_prefix}

module _ (receipt : Bytes) (changes : List Change) (d0 : Disk) where
  -- While the changes are made: what is there follows the plan, and the pointer is there.
  abbrev pub IsRunning : Disk → Type 0
  IsRunning d = Follows receipt changes d0 d × HasPointer d

  pub IsRunning-KeptByRecords : KeptByRecords IsRunning
  unfolding bytes_beq
  IsRunning-KeptByRecords d tail n h = (
    Follows-IsStable receipt changes d0 d _
        (Same-set receipt d _ n (bundle-is_internal receipt tail)) h.0,
    rw (lookup-set d (recovery_prefix ++ tail) pointer_path n) h.1,
  )

  path-pointer : (p : Bytes) → is_internal receipt p ≡ false → p == pointer_path ≡ false
  unfolding is_internal
  path-pointer p u = ground arith

  IsRunning-Admits :
      (c : Change)
      → is_internal receipt c.path ≡ false
      → ((n : Option Node) → Leaves c n → IsMade changes c.path n)
      → Admits IsRunning c
  IsRunning-Admits c u made = (
    λ d n l h. (
      set-Follows receipt changes d0 d c.path n (made (some n) l) h.0,
      rw (lookup-set d c.path pointer_path n, path-pointer c.path u) h.1,
    ),
    λ d l h. (
      unset-Follows receipt changes d0 d c.path (made none l) h.0,
      rw (lookup-unset d c.path pointer_path, path-pointer c.path u) h.1,
    ),
  )

  pub all-Admits :
      (rest : List Change)
      → ArePublic receipt rest
      → ((q : Bytes) (n : Option Node) → IsMade rest q n → IsMade changes q n)
      → All (Admits IsRunning) rest
  all-Admits [] u made = tt
  all-Admits (c ∷ rest) u made = (
    IsRunning-Admits c u.0 (λ n l. made c.path n (inl (refl, l))),
    all-Admits rest u.1 (λ q n m. made q n (inr m)),
  )

  pub Same-Follows : (d : Disk) → Same receipt d0 d → Follows receipt changes d0 d
  Same-Follows d h q u = inl (h q u)
