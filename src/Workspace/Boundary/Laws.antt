-- ===== src/Workspace/Boundary/Laws.antt =====
-- Where a change leads.
use uawp.Base.{
  has_suffix, contains_any, bytes_beq, ◌==◌, bytes_eq, subst, sym, ◌∙◌, refl, ◌≡◌, arith, true,
  ◌++◌, bytes_beq_iff, Bytes, codes, ok, Result-cases, Bool-cases, All, ◌⊎◌, has_prefix, List, inl,
  false, ◌∷◌, [], inr, trim_prefix, trim_prefix_lem,
}
use uawp.Base.Utf8.{runes}
use uawp.Base.FilePath.{cut, split, join, join-split, clean}
use uawp.Workspace.Disk.{Disk}
use uawp.Workspace.Boundary.{
  is_portable_segment, is_device, device_name, all_portable, reject_symlink_ancestors, resolve_uawp,
  resolve_native, target_for_change, inspect, is_link, lookup, ways,
}

pub resolve_uawp-target :
    (d : Disk) (relative target : Bytes)
    → resolve_uawp d relative ≡ ok target
    → (target ≡ codes ".uawp/" ++ relative)
      × (all_portable (split b'/' relative) ≡ true)
      × (reject_symlink_ancestors d target ≡ ok tt)
unfolding resolve_uawp
resolve_uawp-target d relative target h = ground (
  arith,
  bytes_beq_iff (clean relative) relative,
  join-split b'/' relative,
  Result-cases (
      reject_symlink_ancestors d
        (codes ".uawp/" ++ join (codes "/") (split b'/' (clean relative)))),
)

resolve_native-target :
    (d : Disk) (relative target : Bytes)
    → resolve_native d relative ≡ ok target
    → (target ≡ relative)
      × (all_portable (split b'/' relative) ≡ true)
      × (reject_symlink_ancestors d target ≡ ok tt)
unfolding resolve_native
resolve_native-target d relative target h =
    ground (arith, Result-cases (reject_symlink_ancestors d relative))

inspect-All :
    (d : Disk) (target : Bytes) (paths : List Bytes)
    → inspect d target paths ≡ ok tt
    → All (λ q. is_link (lookup d q) ≡ false) paths
unfolding inspect
inspect-All d target [] h = tt
inspect-All d target (p ∷ paths) h = (ground arith, inspect-All d target paths (ground arith))

-- No path on the way to the target, the target included, is a link.
abbrev pub HasNoLink : Disk → Bytes → Type 0
HasNoLink d p = All (λ q. is_link (lookup d q) ≡ false) (ways [] (split b'/' p))

reject_symlink_ancestors-HasNoLink :
    (d : Disk) (p : Bytes) → reject_symlink_ancestors d p ≡ ok tt → HasNoLink d p
unfolding reject_symlink_ancestors
reject_symlink_ancestors-HasNoLink d p h = elim (Bool-cases (has_prefix p (codes ".uawp/"))) [
  | inl e ↦ inspect-All d p (ways [] (split b'/' p)) (ground arith)
  | inr e ↦ (inspect-All d p (codes ".uawp" ∷ ways [] (split b'/' p)) (ground arith)).1
]

namespace_portable : all_portable (split b'/' (codes ".uawp")) ≡ true
unfolding all_portable split is_portable_segment has_suffix contains_any is_device device_name cut
    runes bytes_beq has_prefix
namespace_portable = refl

below_namespace_portable :
    (relative : Bytes)
    → all_portable (split b'/' relative) ≡ true
    → all_portable (split b'/' (codes ".uawp/" ++ relative)) ≡ true
unfolding all_portable split is_portable_segment has_suffix contains_any is_device device_name cut
    runes bytes_beq has_prefix
below_namespace_portable relative h = h

pub target_for_change_sound :
    (d : Disk) (path target : Bytes)
    → target_for_change d path ≡ ok target
    → (target ≡ path)
      × (all_portable (split b'/' path) ≡ true)
      × ((path ≡ codes ".uawp") ⊎ HasNoLink d path)
unfolding target_for_change
target_for_change_sound d path target h = elim (Bool-cases (path == codes ".uawp")) [
  | inl e ↦
      let here = (bytes_beq_iff path (codes ".uawp")).0 e in
      (
        ground arith,
        subst (λ q. all_portable (split b'/' q) ≡ true) (sym here) namespace_portable,
        inl here,
      )
  | inr e ↦ elim (Bool-cases (has_prefix path (codes ".uawp/"))) [
    | inl u ↦
        let (same, portable, clear) =
          resolve_uawp-target d (trim_prefix path (codes ".uawp/")) target (ground arith) in
        let whole = trim_prefix_lem path (codes ".uawp/") u in
        (
          same ∙ whole,
          subst (λ q. all_portable (split b'/' q) ≡ true) whole
              (below_namespace_portable (trim_prefix path (codes ".uawp/")) portable),
          inr (
              reject_symlink_ancestors-HasNoLink d path
                (subst (λ q. reject_symlink_ancestors d q ≡ ok tt) (same ∙ whole) clear)),
        )
    | inr u ↦
        let (same, portable, clear) = resolve_native-target d path target (ground arith) in
        (
          same,
          portable,
          inr (
              reject_symlink_ancestors-HasNoLink d path
                (subst (λ q. reject_symlink_ancestors d q ≡ ok tt) same clear)),
        )
  ]
]
