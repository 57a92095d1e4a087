-- ===== src/Workspace/Recover/Loaded.antt =====
-- Where a transaction that is loaded comes from.
use uawp.Workspace.Apply.Prepare.Laws.{HasPointer, recovery_prefix}
use uawp.Base.{
  bytes_eq, ◌∙◌, ◌≡◌, inl, inr, refl, true, none, some, Option, ◌++◌, Bytes, codes, ok, arith,
  Result, Result-cases,
}
use uawp.Transaction.Codec.{Unmarshal, decode_pointer, CodecError}
use uawp.Workspace.Disk.{Node, Disk, lookup, read_node}
use uawp.Workspace.Boundary.{resolve_uawp}
use uawp.Workspace.Boundary.Laws.{resolve_uawp-target}
use uawp.Transaction.Record.{LivePointer}
use uawp.Workspace.Snapshot.{
  opened, load_from, load_bundle, observe_actions, observe_inputs, no_observation,
  TransactionSnapshot, load_transaction_snapshot,
}
use uawp.Workspace.Apply.Prepare.{Environment}
use uawp.Workspace.Apply.Run.{pointer_path, is_present}

opened-present :
    {A : Type 0} (n : Option Node) (decode : Bytes → Result CodecError A) (a : A)
    → opened (read_node n) decode ≡ ok a
    → is_present n ≡ true
opened-present none decode a h = absurd (ground arith)
opened-present (some n) decode a h = refl

module _ (env : Environment) (unmarshal : Unmarshal) where
  load_from-bundle_dir :
      (d : Disk) (bundle_dir : Bytes) (pointer : LivePointer) (s : TransactionSnapshot)
      → load_from env.platform unmarshal d bundle_dir pointer ≡ ok s
      → s.bundle_dir ≡ bundle_dir
  unfolding load_from
  load_from-bundle_dir d bundle_dir pointer s h =
      elim (Result-cases (load_bundle env.platform unmarshal d bundle_dir pointer)) [
        | inl (b, e) ↦
            elim (Result-cases
              (observe_actions env.platform d bundle_dir 0 b.0.journal.actions no_observation)) [
                | inl (o, f) ↦
                    elim (Result-cases (observe_inputs env.platform d b.0.plan.inputs o)) [
                      | inl (p, g) ↦ ground arith
                      | inr (x, g) ↦ absurd (ground arith)
                    ]
                | inr (x, f) ↦ absurd (ground arith)
              ]
        | inr (x, e) ↦ absurd (ground arith)
      ]

  -- A bundle that is loaded lies below the recovery directory, and the pointer was read for it.
  pub load-bundle_dir :
      (d : Disk) (s : TransactionSnapshot)
      → load_transaction_snapshot env.platform unmarshal env.root d ≡ ok s
      → ((id : Bytes) × (s.bundle_dir ≡ recovery_prefix ++ id)) × HasPointer d
  unfolding load_transaction_snapshot
  load-bundle_dir d s h =
      elim (Result-cases
        (opened (read_node (lookup d pointer_path)) (decode_pointer env.platform unmarshal))) [
          | inl (pointer, e) ↦
              elim (Result-cases (resolve_uawp d (codes "recovery/" ++ pointer.transaction_id))) [
                | inl (dir, f) ↦
                    let loaded : load_from env.platform unmarshal d dir pointer ≡ ok s =
                      ground arith in
                    (
                      (
                        pointer.transaction_id,
                        load_from-bundle_dir d dir pointer s loaded
                            ∙ (resolve_uawp-target d (codes "recovery/" ++ pointer.transaction_id)
                                dir f).0,
                      ),
                      opened-present (lookup d pointer_path) (decode_pointer env.platform unmarshal)
                          pointer e,
                    )
                | inr (x, f) ↦ absurd (ground arith)
              ]
          | inr (x, e) ↦ absurd (ground arith)
        ]
