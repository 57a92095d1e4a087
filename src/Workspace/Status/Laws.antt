-- ===== src/Workspace/Status/Laws.antt =====
-- The workspaces that work may go on in.
use uawp.Base.{
  if◌then◌else◌, inl, inr, none, some, ok, bytes_eq, nat_eq, true, false, [], ◌∷◌, ◌≡◌, ◌↔◌, subst,
  codes, arith, Result-cases, sym, ap, ◌∙◌, refl, Option,
}
use uawp.Workspace.Discover.{
  absent_namespace, unknown_namespace, invalid_namespace, owned_namespace,
}
use uawp.Core.StateVersion
use uawp.Workspace.Status.Healthy.{IsHealthy, IsUsable, IsHealthy-IsUsable}
use uawp.Workspace.Resume.{ready, active_owner, is_resumable, FindingCode}
use uawp.Workspace.Status.{
  Readers, Disk, has_pending_purge, diagnose_state, diagnose_namespace, diagnose, Ownership,
  Namespace, stands, find_purge_tombstone, Manifest, read_ownership, owned_namespace, lookup,
  classify_namespace, is_complete, invalid_namespace, is_directory, is_active, Node, is_regular,
}

not_regular : (n : Option Node) → stands n ≡ false → is_regular n ≡ false
not_regular n h = ground arith

module _ (readers : Readers) (d : Disk) where
  abbrev code_of : Ownership → FindingCode
  code_of o = if is_active o.status then active_owner else ready

  diagnose_state-parts :
      is_resumable (diagnose_state readers d) ≡ true
      → (stands (lookup d (codes ".uawp/RECOVERY.json")) ≡ false)
        × (is_complete d (codes "CONTEXT.md" ∷ codes "ACTIVE_WORKER.md" ∷ codes "DECISIONS.md" ∷ [])
            ≡ true)
        × (is_directory (lookup d (codes ".uawp/checkpoints")) ≡ true)
        × (o : Ownership) × (read_ownership readers d ≡ ok o)
        × (diagnose_state readers d ≡ code_of o)
  unfolding diagnose_state
  diagnose_state-parts h = elim (Result-cases (read_ownership readers d)) [
    | inr (e, unread) ↦ ground arith
    | inl (o, read) ↦ (ground arith, ground arith, ground arith, o, read, ground arith)
  ]

  diagnose_namespace-owned :
      (n : Namespace)
      → is_resumable (diagnose_namespace readers d n) ≡ true
      → (m : Manifest) × (n ≡ owned_namespace m StateVersion.current)
  unfolding diagnose_namespace
  diagnose_namespace-owned absent_namespace h = ground arith
  diagnose_namespace-owned unknown_namespace h = ground arith
  diagnose_namespace-owned (invalid_namespace problem) h = ground arith
  diagnose_namespace-owned (owned_namespace m StateVersion.current) h = (m, refl)
  diagnose_namespace-owned (owned_namespace m StateVersion.upgrade_required) h = ground arith
  diagnose_namespace-owned (owned_namespace m StateVersion.unsupported) h = ground arith
  diagnose_namespace-owned (owned_namespace m StateVersion.future_major) h = ground arith

  diagnose-parts :
      is_resumable (diagnose readers d) ≡ true
      → (has_pending_purge readers d ≡ false)
        × (find_purge_tombstone readers d ≡ ok none)
        × (is_resumable (diagnose_namespace readers d (classify_namespace readers.json d)) ≡ true)
        × (diagnose readers d ≡ diagnose_namespace readers d (classify_namespace readers.json d))
  unfolding diagnose
  diagnose-parts h = elim (Result-cases (find_purge_tombstone readers d)) [
    | inr (e, found) ↦ ground arith
    | inl (none, found) ↦ (ground arith, found, ground arith, ground arith)
    | inl (some p, found) ↦ ground arith
  ]

  diagnose-IsUsable :
      (code : FindingCode)
      → is_resumable code ≡ true
      → (diagnose readers d ≡ code) ↔ (
          IsUsable readers d
          × (o : Ownership) × (read_ownership readers d ≡ ok o)
          × (code ≡ code_of o))
  unfolding diagnose diagnose_namespace diagnose_state
  diagnose-IsUsable code h = (
    λ e.
        let (purge, tombstone, resumable, same) =
          diagnose-parts (subst (λ c. is_resumable c ≡ true) (sym e) h) in
        let (m, owned) = diagnose_namespace-owned (classify_namespace readers.json d) resumable in
        let state = ap (diagnose_namespace readers d) owned in
        let (journal, files, checkpoints, o, read, found) =
          diagnose_state-parts (subst (λ c. is_resumable c ≡ true) state resumable) in
        (
          record {
            no_purge = purge;
            no_tombstone = tombstone;
            no_journal = journal;
            manifest = m;
            owned = owned;
            complete = files;
            checkpoints = checkpoints;
          },
          o,
          read,
          sym e ∙ same ∙ state ∙ found,
        ),
    λ (k, o, read, same).
        rw
          (
            k.no_purge,
            k.no_tombstone,
            not_regular (lookup d (codes ".uawp/RECOVERY.json")) k.no_journal,
            k.owned,
            k.no_journal,
            k.complete,
            k.checkpoints,
            read,
            same,
          )
          refl,
  )

  -- The diagnosis lets work go on exactly where no purge marker, no entry of the root with the name of
  -- a purge tombstone and no recovery pointer stands, .uawp is a directory with a manifest file of at
  -- most a megabyte that is decoded and has the state version 1.2.0, the context, the claim and the
  -- decisions are regular files, the checkpoints are a directory, and the claim is read; it then tells
  -- whether the claim is ACTIVE.
  pub diagnose_iff :
      (code : FindingCode)
      → is_resumable code ≡ true
      → (diagnose readers d ≡ code) ↔ (
          IsHealthy readers d
          × (o : Ownership) × (read_ownership readers d ≡ ok o)
          × (code ≡ code_of o))
  diagnose_iff code h = (
    λ e.
        let w = (diagnose-IsUsable code h).0 e in
        ((IsHealthy-IsUsable readers d).1 w.0, w.1, w.2, w.3),
    λ w. (diagnose-IsUsable code h).1 ((IsHealthy-IsUsable readers d).0 w.0, w.1, w.2, w.3),
  )
