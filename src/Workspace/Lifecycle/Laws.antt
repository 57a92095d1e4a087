-- ===== src/Workspace/Lifecycle/Laws.antt =====
-- What the plans of the lifecycle rest on.
use uawp.Plan.Change.{new_update_file}
use uawp.Plan.Persist.{new_plan, order_changes, Plan}
use uawp.Base.Sort.{sort}
use uawp.Base.{
  some, ok, err, bytes_eq, nat_eq, true, [], ◌∷◌, Result, Bytes, ◌≡◌, arith, >>=-eq-ok, refuse_if,
  not, ap, sym, refl, Bool, false,
}
use uawp.Workspace.Lifecycle.{
  Setting, Disk, read_file, plan_ownership_transition, as_ownership, as_codec, Ownership, new_plan,
  OwnershipError, CodecError, read_node, lookup, claim_path, decode_ownership, clock,
  encode_ownership, update, input, is_resumable, diagnose, Actor, blocked, LifecycleError,
}

pub ok_injective {ℓ κ} :
    {E : Type ℓ} {A : Type κ} {a b : A} → ◌≡◌ {A = Result E A} (ok a) (ok b) → a ≡ b
ok_injective h = ground arith

pub not_refused : (b : Bool) (e : LifecycleError) {x : Unit {0}} → refuse_if b e ≡ ok x → b ≡ false
not_refused true e h = ground arith
not_refused false e h = refl

module _ (s : Setting) (d : Disk) where
  -- A plan that changes the claim: the file is read and decoded, the claim is changed, and the plan
  -- has the one update from the old text to the text of the new claim.
  pub record IsTransition (change : Ownership → Result OwnershipError Ownership) (p : Plan)
      : Type 0 where
    pub before : Bytes
    pub current : Ownership
    pub next : Ownership
    pub after : Bytes
    pub read : read_node (lookup d claim_path) ≡ some before
    pub decoded : decode_ownership (clock s d) before ≡ ok current
    pub changed : change current ≡ ok next
    pub encoded : encode_ownership (clock s d) next ≡ ok after
    pub changes : p.changes ≡ update s d claim_path before after ∷ []
    pub receipt : p.metadata.migration_receipt_path ≡ []
    pub inputs : p.inputs ≡ input s d claim_path before ∷ []
    pub resumable : is_resumable (diagnose s.readers d) ≡ true

  pub read_file-some :
      (path : Bytes) {content : Bytes}
      → read_file d path ≡ ok content
      → read_node (lookup d path) ≡ some content
  unfolding read_file
  read_file-some path h = ground arith

  pub read_file-ok :
      (path : Bytes) {content : Bytes}
      → read_node (lookup d path) ≡ some content
      → read_file d path ≡ ok content
  unfolding read_file
  read_file-ok path h = rw (read_file, h) refl

  pub as_codec-ok : {A : Type 0} (r : Result CodecError A) {a : A} → as_codec r ≡ ok a → r ≡ ok a
  unfolding as_codec
  as_codec-ok (ok a) h = ground arith
  as_codec-ok (err e) h = ground arith

  pub as_ownership-ok :
      {A : Type 0} (r : Result OwnershipError A) {a : A} → as_ownership r ≡ ok a → r ≡ ok a
  unfolding as_ownership
  as_ownership-ok (ok a) h = ground arith
  as_ownership-ok (err e) h = ground arith

  pub IsTransition-parts :
      (operation : Bytes) (actor : Actor) (change : Ownership → Result OwnershipError Ownership)
      {p : Plan}
      → plan_ownership_transition s d operation actor change ≡ ok p
      → IsTransition change p
  unfolding plan_ownership_transition new_plan order_changes sort new_update_file
  IsTransition-parts operation actor change h =
      let (_, resumable, h1) =
        >>=-eq-ok (refuse_if (not (is_resumable (diagnose s.readers d))) blocked) _ h in
      let (before, read, h2) = >>=-eq-ok (read_file d claim_path) _ h1 in
      let (current, decoded, h3) =
        >>=-eq-ok (as_codec (decode_ownership (clock s d) before)) _ h2 in
      let (next, changed, h4) = >>=-eq-ok (as_ownership (change current)) _ h3 in
      let (after, encoded, h5) = >>=-eq-ok (as_codec (encode_ownership (clock s d) next)) _ h4 in
      let same = ok_injective h5 in
      record {
        before = before;
        current = current;
        next = next;
        after = after;
        read = read_file-some claim_path read;
        decoded = as_codec-ok _ decoded;
        changed = as_ownership-ok _ changed;
        encoded = as_codec-ok _ encoded;
        changes = ap (λ (q : Plan). q.changes) (sym same);
        receipt = ap (λ (q : Plan). q.metadata.migration_receipt_path) (sym same);
        inputs = ap (λ (q : Plan). q.inputs) (sym same);
        resumable = ground arith;
      }
