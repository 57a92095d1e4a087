-- ===== src/Workspace/Disk.antt =====
-- The files of a workspace, as package os shows them: what stands at each path below the root.
use uawp.Base.{
  ℕ, ◌≡◌, refl, arith, Bool, true, false, ◌||◌, Option, none, some, List, [], ◌∷◌, ◌++◌, ◌==◌,
  bytes_eq, bytes_beq_iff, nat_eq, if◌then◌else◌, Bytes, is_empty, has_prefix, contains,
}
use uawp.Base.Sort.{any}

-- A symbolic link holds what reading through it gives; `special` is a device, a pipe or a socket.
pub data Node : Type 0 where
  file : Bytes → ℕ → Node
  directory : Node
  symlink : Option Bytes → Node
  special : Node

abbrev pub Disk : Type 0
Disk = List (Bytes × Node)

unfoldable pub lookup : Disk → Bytes → Option Node
lookup [] p = none
lookup ((q, n) ∷ d) p = if q == p then some n else lookup d p

unfoldable pub set : Disk → Bytes → Node → Disk
set [] p n = (p, n) ∷ []
set ((q, m) ∷ d) p n = if q == p then (p, n) ∷ d else (q, m) ∷ set d p n

unfoldable pub unset : Disk → Bytes → Disk
unset [] p = []
unset ((q, m) ∷ d) p = let rest = unset d p in if q == p then rest else (q, m) ∷ rest

pub lookup-set :
    (d : Disk) (p q : Bytes) (n : Node)
    → lookup (set d p n) q ≡ (if p == q then some n else lookup d q)
unfolding lookup set
lookup-set [] p q n = refl
lookup-set ((r, m) ∷ d) p q n =
    ground (arith, bytes_beq_iff r p, bytes_beq_iff r q, bytes_beq_iff p q, lookup-set d p q n)

pub lookup-unset :
    (d : Disk) (p q : Bytes) → lookup (unset d p) q ≡ (if p == q then none else lookup d q)
unfolding lookup unset
lookup-unset [] p q = ground arith
lookup-unset ((r, m) ∷ d) p q =
    ground (arith, bytes_beq_iff r p, bytes_beq_iff r q, bytes_beq_iff p q, lookup-unset d p q)

-- filepath.Dir of a clean path below the root; the root is the empty path.
unfoldable pub parent_of : Bytes → Bytes
parent_of [] = []
parent_of (x ∷ xs) = let rest = parent_of xs in if contains xs b'/' then x ∷ rest else []

abbrev pub is_directory : Option Node → Bool
is_directory (some directory) = true
is_directory _ = false

abbrev pub is_link : Option Node → Bool
is_link (some (symlink target)) = true
is_link _ = false

abbrev pub is_regular : Option Node → Bool
is_regular (some (file content mode)) = true
is_regular _ = false

-- os.ReadFile, which follows links; `none` is an error.
abbrev pub read_node : Option Node → Option Bytes
read_node (some (file content mode)) = some content
read_node (some (symlink target)) = target
read_node _ = none

unfoldable pub has_parent : Disk → Bytes → Bool
has_parent d p = is_empty (parent_of p) || is_directory (lookup d (parent_of p))

-- Something stands below the directory.
unfoldable pub has_children : Disk → Bytes → Bool
has_children d p = any (λ (e : Bytes × Node). has_prefix e.0 (p ++ (b'/' ∷ []))) d
