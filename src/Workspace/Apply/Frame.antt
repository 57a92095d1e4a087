-- ===== src/Workspace/Apply/Frame.antt =====
-- What an application may write: its own records, and what its changes leave.
use uawp.Base.{
  has_prefix-append, has_prefix_refl, ◌≡◌, ◌⊎◌, Bool, Option, none, some, List, [], ◌∷◌, ◌&&◌, ◌||◌,
  ◌==◌, true, false, bytes_eq, Bytes, codes, has_prefix, ◌++◌, ◌∙◌, inl, arith, Bool-cases, inr,
  bytes_beq_iff, subst, sym, refl, if◌then◌else◌, ℕ,
}
use uawp.Plan.Change.{
  ChangeKind, Change, create_dir, create_file, update_file, delete_file, delete_dir, unsupported,
}
use uawp.Workspace.Disk.{Node, file, directory, Disk, lookup, set, unset, lookup-set, lookup-unset}
use uawp.Workspace.Apply.Prepare.{remove_all}
use uawp.Workspace.Apply.Run.{lock_path, pointer_path}

-- The paths that an application writes for itself, with the migration receipt that the plan names.
unfoldable pub is_internal : Bytes → Bytes → Bool
is_internal receipt q =
    q == lock_path
    || q == pointer_path
    || q == codes ".uawp/recovery"
    || has_prefix q (codes ".uawp/recovery/")
    || (has_prefix q (codes ".uawp/") && q == receipt)

-- What stands at the path of a change of the kind when it is made.
abbrev pub LeavesAs : Bytes → ℕ → Option Node → ChangeKind → Type 0
LeavesAs content mode n create_dir = n ≡ some directory
LeavesAs content mode n create_file = n ≡ some (file content mode)
LeavesAs content mode n update_file = n ≡ some (file content mode)
LeavesAs content mode n delete_file = n ≡ none
LeavesAs content mode n delete_dir = n ≡ none
LeavesAs content mode n (unsupported k) = ⊥

abbrev pub Leaves : Change → Option Node → Type 0
Leaves c n = LeavesAs c.content c.mode n c.kind

abbrev pub IsMade : List Change → Bytes → Option Node → Type 0
IsMade [] q n = ⊥
IsMade (c ∷ changes) q n = ((c.path ≡ q) × Leaves c n) ⊎ IsMade changes q n

lookup-remove_all :
    (p : Bytes) (d : Disk) (q : Bytes)
    → q == p || has_prefix q (p ++ (b'/' ∷ [])) ≡ false
    → lookup (remove_all p d) q ≡ lookup d q
unfolding remove_all lookup
lookup-remove_all p [] q h = refl
lookup-remove_all p ((r, n) ∷ d) q h =
    ground (arith, lookup-remove_all p d q h, bytes_beq_iff r q, bytes_beq_iff r p)

module _ (receipt : Bytes) where
  -- The disks differ in internal paths only.
  abbrev pub Same : Disk → Disk → Type 0
  Same d d' = (q : Bytes) → is_internal receipt q ≡ false → lookup d' q ≡ lookup d q

  -- Every other path is as it was, or as one of the changes leaves it.
  abbrev pub Follows : List Change → Disk → Disk → Type 0
  Follows changes d d' =
      (q : Bytes)
      → is_internal receipt q ≡ false
      → (lookup d' q ≡ lookup d q) ⊎ IsMade changes q (lookup d' q)

  abbrev pub IsStable : (Disk → Type 0) → Type 0
  IsStable I = (d d' : Disk) → Same d d' → I d → I d'

  pub Same-set :
      (d : Disk) (p : Bytes) (n : Node) → is_internal receipt p ≡ true → Same d (set d p n)
  Same-set d p n h q u = ground (arith, lookup-set d p q n, bytes_beq_iff p q)

  pub Same-unset : (d : Disk) (p : Bytes) → is_internal receipt p ≡ true → Same d (unset d p)
  Same-unset d p h q u = ground (arith, lookup-unset d p q, bytes_beq_iff p q)

  pub Same-remove_all :
      (d : Disk) (id : Bytes) → Same d (remove_all (codes ".uawp/recovery/" ++ id) d)
  unfolding is_internal
  Same-remove_all d id q u = lookup-remove_all bundle d q (
      ground (
        arith,
        bytes_beq_iff q bundle,
        has_prefix_refl (codes ".uawp/recovery/") id,
        has_prefix-append q (codes ".uawp/recovery/") (id ++ (b'/' ∷ [])),
      ))
    where
      bundle : Bytes
      bundle = codes ".uawp/recovery/" ++ id

  pub Same-IsStable : (d : Disk) → IsStable (Same d)
  Same-IsStable d e f k h q u = k q u ∙ h q u

  pub Follows-IsStable : (changes : List Change) (d : Disk) → IsStable (Follows changes d)
  Follows-IsStable changes d e f k h q u = elim (h q u) [
    | inl v ↦ inl (k q u ∙ v)
    | inr v ↦ inr (subst (IsMade changes q) (sym (k q u)) v)
  ]

  put-Follows :
      (changes : List Change) (d e e' : Disk) (p : Bytes) (n : Option Node)
      → ((q : Bytes) → lookup e' q ≡ (if p == q then n else lookup e q))
      → IsMade changes p n
      → Follows changes d e
      → Follows changes d e'
  put-Follows changes d e e' p n put m h q u = elim (Bool-cases (p == q)) [
    | inl v ↦
        let here = (bytes_beq_iff p q).0 v in
        let left : lookup e' q ≡ n = ground (arith, put q) in
        inr
          (subst (λ r. IsMade changes r (lookup e' q)) here (subst (IsMade changes p) (sym left) m))
    | inr v ↦
        let left : lookup e' q ≡ lookup e q = ground (arith, put q) in
        elim (h q u) [
          | inl w ↦ inl (left ∙ w)
          | inr w ↦ inr (subst (IsMade changes q) (sym left) w)
        ]
  ]

  pub set-Follows :
      (changes : List Change) (d e : Disk) (p : Bytes) (n : Node)
      → IsMade changes p (some n)
      → Follows changes d e
      → Follows changes d (set e p n)
  set-Follows changes d e p n =
      put-Follows changes d e (set e p n) p (some n) (λ q. lookup-set e p q n)

  pub unset-Follows :
      (changes : List Change) (d e : Disk) (p : Bytes)
      → IsMade changes p none
      → Follows changes d e
      → Follows changes d (unset e p)
  unset-Follows changes d e p = put-Follows changes d e (unset e p) p none (λ q. lookup-unset e p q)
