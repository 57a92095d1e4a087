-- ===== src/Workspace/Lifecycle/Applied.antt =====
-- A plan of the lifecycle, applied.
use uawp.Base.{
  inl, inr, some, ok, bytes_eq, nat_eq, true, false, [], ◌∷◌, ◌≢◌, Bytes, Option, ◌≡◌, has_prefix,
  bytes_beq, ◌⊎◌, refl, codes, arith, bytes_beq_iff, Result, All, subst, sym, ◌∙◌, trim_space,
}
use uawp.Workspace.Resume.{is_resumable}
use uawp.Workspace.Disk.{lookup, Disk, read_node, Node}
use uawp.Plan.Persist.{Plan}
use uawp.Plan.Change.{new_update_file, Change}
use uawp.Workspace.Apply.Prepare.{Environment}
use uawp.Workspace.Status.{Readers, diagnose, read_ownership}
use uawp.Workspace.Apply.Perform.{Options}
use uawp.Workspace.Verify.{is_after}
use uawp.Workspace.Apply.Frame.{is_internal, IsMade}
use uawp.Core.Ownership.{Actor}
use uawp.Core.Ownership.Transition.{ReleaseRequest, release}
use uawp.Workspace.Lifecycle.{
  plan_release, claim_path, Setting, update, plan_acquire, Ownership, AcquireRequest,
  OwnershipError, acquire, decode_ownership, encode_ownership,
}
use uawp.Workspace.Apply.Prepare.Laws.{HasNamespace}
use uawp.Workspace.Status.Laws.{diagnose_iff}
use uawp.Workspace.Apply.Run.{ApplyReport, apply}
use uawp.Core.Ownership.Codec.Printed.{ReadsBack, IsWritable}
use uawp.Workspace.Lifecycle.Laws.{IsTransition, IsTransition-parts, ok_injective}
use uawp.Workspace.Apply.Run.Complete.{ArePublic, AllAfter}
use uawp.Workspace.Apply.Outcome.Laws.{apply_complete, apply-frame}
use uawp.Core.Ownership.Codec.RoundTrip.{decode_ownership-encode_ownership}
use uawp.Core.Ownership.Codec.Regular.{
  decode_ownership-IsRegular, release-IsWritable, acquire-IsWritable,
}

-- The update has something to do.
abbrev pub Differs : Change → Type 0
Differs c = c.before_sha256 ≢ c.after_sha256

-- What a plan of the lifecycle finds is there, and nothing of the records is changed by it.
module _ (env : Environment) (readers : Readers) (options : Options) (d : Disk) where
  abbrev pub setting : Setting
  setting = record {
    root = env.root;
    readers = readers;
    hash_bytes = env.platform.hash_bytes;
    marshal = env.platform.marshal;
  }

  resumable_namespace : is_resumable (diagnose readers d) ≡ true → HasNamespace d
  resumable_namespace h =
      let healthy = ((diagnose_iff readers d (diagnose readers d) h).0 refl).0 in
      rw healthy.namespace refl

  claim-public :
      (before after : Bytes)
      → is_internal [] (update setting d claim_path before after).path ≡ false
  unfolding is_internal new_update_file has_prefix bytes_beq
  claim-public before after = refl

  claim_outside : is_internal [] claim_path ≡ false
  unfolding is_internal has_prefix bytes_beq
  claim_outside = refl

  -- Applied, the update leaves the new text.
  updated :
      (before after : Bytes) (n n' : Option Node)
      → read_node n ≡ some before
      → env.platform.hash_bytes before ≢ env.platform.hash_bytes after
      → is_after env.platform.hash_bytes (update setting d claim_path before after) n' ≡ true
      → (n' ≡ n) ⊎ IsMade (update setting d claim_path before after ∷ []) claim_path n'
      → read_node n' ≡ some after
  unfolding is_after new_update_file
  updated before after n n' read differs h (inl same) = absurd (
      ground (
        arith,
        differs,
        bytes_beq_iff (env.platform.hash_bytes before) (env.platform.hash_bytes after),
      ))
  updated before after n n' read differs h (inr (inl (path, made))) = rw made refl
  updated before after n n' read differs h (inr (inr never)) = absurd never

  transition_applied :
      (change : Ownership → Result OwnershipError Ownership) (p : Plan) (report : ApplyReport)
      → (t : IsTransition setting d change p) → All Differs p.changes
      → (apply env options p d).0 ≡ ok report
      → read_node (lookup (apply env options p d).1 claim_path) ≡ some t.after
  unfolding new_update_file
  transition_applied change p report t differs done =
      let d' = (apply env options p d).1 in
      let public : ArePublic p.metadata.migration_receipt_path p.changes =
        rw (t.changes, t.receipt) (claim-public t.before t.after, tt) in
      let has = resumable_namespace t.resumable in
      let (after, pointer, reported) = apply_complete env options p d has public report done in
      let frame = apply-frame env options p d has public claim_path (rw t.receipt claim_outside) in
      updated t.before t.after (lookup d claim_path) (lookup d' claim_path) t.read
        (subst (All Differs) t.changes differs).0
        (subst (λ cs. AllAfter env.platform.hash_bytes cs d') t.changes after).0
        (subst
          (λ cs.
            (lookup d' claim_path ≡ lookup d claim_path)
            ⊎ IsMade cs claim_path (lookup d' claim_path))
          t.changes frame)

  read_ownership-decode :
      (e : Disk) {content : Bytes} {o : Ownership}
      → read_node (lookup e claim_path) ≡ some content
      → decode_ownership readers.clock content ≡ ok o
      → read_ownership readers e ≡ ok o
  unfolding read_ownership
  read_ownership-decode e found decoded = rw (read_ownership, found, decoded) refl

  -- What was encoded is decoded again.
  encoded_back :
      (o : Ownership) {after : Bytes}
      → IsWritable readers.clock o
      → encode_ownership readers.clock o ≡ ok after
      → decode_ownership readers.clock after ≡ ok o
  encoded_back o w e =
      let (content, written, back) = decode_ownership-encode_ownership readers.clock o w in
      subst (λ z. decode_ownership readers.clock z ≡ ok o) (ok_injective (sym written ∙ e)) back

  transition_read :
      (change : Ownership → Result OwnershipError Ownership) (p : Plan) (report : ApplyReport)
      → (t : IsTransition setting d change p) → IsWritable readers.clock t.next
      → All Differs p.changes
      → (apply env options p d).0 ≡ ok report
      → (read_ownership readers d ≡ ok t.current)
        × (read_ownership readers (apply env options p d).1 ≡ ok t.next)
  transition_read change p report t w differs done = (
    read_ownership-decode d t.read t.decoded,
    read_ownership-decode (apply env options p d).1
        (transition_applied change p report t differs done) (encoded_back t.next w t.encoded),
  )

  -- Where a plan to acquire has been made, its moment is a time that the layout keeps, and the hash of
  -- each new text differs from that of the old one, an application of the plan that returns leaves a
  -- workspace whose claim file is read as the claim that Acquire grants on the claim read before.
  pub plan_acquire_applied :
      (request : AcquireRequest) (p : Plan) (report : ApplyReport)
      → plan_acquire setting d request ≡ ok p
      → ReadsBack readers.clock request.at
      → All Differs p.changes
      → (apply env options p d).0 ≡ ok report
      → (current : Ownership) × (next : Ownership) × (read_ownership readers d ≡ ok current)
        × (acquire current request ≡ ok next)
        × (read_ownership readers (apply env options p d).1 ≡ ok next)
  unfolding plan_acquire
  plan_acquire_applied request p report h at differs done =
      let actor : Actor = record {
        worker_id = trim_space request.worker_id;
        session_id = trim_space request.session_id;
        generation = 0;
      } in
      let t =
        IsTransition-parts setting d (codes "acquire") actor (λ current. acquire current request)
          h in
      let w = acquire-IsWritable readers.clock t.current request t.changed at in
      let (old, new) =
        transition_read (λ current. acquire current request) p report t w differs done in
      (t.current, t.next, old, t.changed, new)

  -- Where a plan to release has been made, its moment and the time of the acquisition are times that
  -- the layout keeps, and the hash of each new text differs from that of the old one, an application
  -- of the plan that returns leaves a workspace whose claim file is read as the claim that Release
  -- gives on the claim read before.
  pub plan_release_applied :
      (request : ReleaseRequest) (p : Plan) (report : ApplyReport)
      → plan_release setting d request ≡ ok p
      → ReadsBack readers.clock request.at
      → ((o : Ownership) → read_ownership readers d ≡ ok o → ReadsBack readers.clock o.acquired_at)
      → All Differs p.changes
      → (apply env options p d).0 ≡ ok report
      → (current : Ownership) × (next : Ownership) × (read_ownership readers d ≡ ok current)
        × (release current request ≡ ok next)
        × (read_ownership readers (apply env options p d).1 ≡ ok next)
  unfolding plan_release
  plan_release_applied request p report h at acquired differs done =
      let t =
        IsTransition-parts setting d (codes "release") request.actor
          (λ current. release current request) h in
      let old = read_ownership-decode d t.read t.decoded in
      let regular = decode_ownership-IsRegular readers.clock t.before t.decoded in
      let w =
        release-IsWritable readers.clock t.current request regular t.changed
          (acquired t.current old) at in
      let (_, new) =
        transition_read (λ current. release current request) p report t w differs done in
      (t.current, t.next, old, t.changed, new)
