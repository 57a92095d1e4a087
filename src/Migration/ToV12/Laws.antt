-- ===== src/Migration/ToV12/Laws.antt =====
-- The step to 1.2.0.
use uawp.Base.{
  inl, inr, some, ok, bytes_eq, nat_eq, ◌∷◌, [], ◌≡◌, Option, Bytes, Result-cases, All, arith, List,
  codes, subst, refl, bytes_beq_iff,
}
use uawp.Core.Ownership.Fields.{read_fields, field_text, field, Fields}
use uawp.Migration.ToV12.{
  legacy_claim, plan_v1_2, decode_v1_1_ownership, as_legacy_field, as_codec, Context, legacy_fields,
  Change, claim_path, with_sequence, new_update_file, pos, first_hash,
}
use uawp.Core.Ownership.Codec.{
  Clock, encode_ownership, as_ownership_error, parse_timestamp, parse_released, decode_ownership,
}
use uawp.Core.Ownership.{Ownership, validate_ownership, Time, released}
use uawp.Core.Ownership.Codec.Printed.{HasTrimmed, ReadsBack, IsWritable}
use uawp.Base.Trim.{IsTrimmed}
use uawp.Core.Ownership.Codec.Decoded.{field_text-IsTrimmed, IsTrimmed_empty, read_fields-trimmed}
use uawp.Core.Ownership.Codec.RoundTrip.{decode_ownership-encode_ownership}

-- What a decoded legacy claim is.
record IsLegacy (o : Ownership) : Type 0 where
  trimmed : HasTrimmed o
  session : o.session_id ≡ []
  generation : o.generation ≡ 0

legacy_claim-IsLegacy :
    (read : Fields) (acquired : Time) (at : Option Time)
    → All (λ f. IsTrimmed f.1) read
    → IsLegacy (legacy_claim read acquired at)
unfolding legacy_claim
legacy_claim-IsLegacy read acquired at t = record {
  trimmed = record {
    worker = field_text-IsTrimmed read (codes "Worker ID") t;
    session = IsTrimmed_empty;
    agent = field_text-IsTrimmed read (codes "Agent") t;
    purpose = field_text-IsTrimmed read (codes "Purpose") t;
  };
  session = refl;
  generation = refl;
}

module _ (clock : Clock) where
  decode_v1_1_ownership-IsLegacy :
      (content : Bytes) {o : Ownership} → decode_v1_1_ownership clock content ≡ ok o → IsLegacy o
  unfolding decode_v1_1_ownership as_legacy_field as_codec
  decode_v1_1_ownership-IsLegacy content h =
      elim (Result-cases (read_fields legacy_fields content)) [
        | inr (problem, e) ↦ ground arith
        | inl (read, e) ↦
            let a = parse_timestamp clock (field_text read (codes "Acquired At")) in
            let r = parse_released clock (field_text read (codes "Released At")) in
            elim (Result-cases a) [
              | inr (problem, f) ↦ ground arith
              | inl (acquired, f) ↦ elim (Result-cases r) [
                | inr (problem, g) ↦ ground arith
                | inl (at, g) ↦ subst IsLegacy (ground arith) (
                    legacy_claim-IsLegacy read acquired at
                      (read_fields-trimmed legacy_fields content e))
              ]
            ]
      ]

  encoded :
      (o : Ownership) {after : Bytes}
      → encode_ownership clock o ≡ ok after
      → validate_ownership o ≡ ok tt
  unfolding encode_ownership as_ownership_error
  encoded o h = elim (Result-cases (validate_ownership o)) [
    | inl (_, e) ↦ e
    | inr (problem, e) ↦ ground arith
  ]

  legacy_written :
      (o : Ownership)
      → IsLegacy o
      → validate_ownership o ≡ ok tt
      → ReadsBack clock o.acquired_at
      → ((t : Time) → o.released_at ≡ some t → ReadsBack clock t)
      → IsWritable clock o
  legacy_written o l v acquired at = record {
    valid = v;
    trimmed = l.trimmed;
    in_range = omega (arith, l.generation);
    acquired = acquired;
    released = at;
  }

  planned :
      (hash_bytes : Bytes → Bytes) (context : Context) (changes : List Change) (before : Bytes)
      (legacy : Ownership) (after : Bytes)
      → plan_v1_2 clock hash_bytes context ≡ ok changes
      → field context.files claim_path ≡ some before
      → decode_v1_1_ownership clock before ≡ ok legacy
      → encode_ownership clock legacy ≡ ok after
      → (legacy.status ≡ released)
        × (changes
            ≡ with_sequence
                (new_update_file hash_bytes claim_path 0o600 (hash_bytes before) after)
                (pos 80)
              ∷ [])
  unfolding plan_v1_2 as_codec
  planned hash_bytes context changes before legacy after h found decoded e =
      ground (arith, bytes_beq_iff (first_hash context.inputs claim_path) (hash_bytes before))

  -- The claim that the step plans is the legacy claim: where the step plans changes for the legacy
  -- claim, which has times that the layout keeps, there is one change, an update of the claim file
  -- at sequence 80, and its content is decoded to the same claim. That claim is RELEASED, with
  -- neither Session nor generation.
  pub plan_v1_2-keeps :
      (hash_bytes : Bytes → Bytes) (context : Context) (changes : List Change) (before : Bytes)
      (legacy : Ownership)
      → plan_v1_2 clock hash_bytes context ≡ ok changes
      → field context.files claim_path ≡ some before
      → decode_v1_1_ownership clock before ≡ ok legacy
      → ReadsBack clock legacy.acquired_at
      → ((t : Time) → legacy.released_at ≡ some t → ReadsBack clock t)
      → (after : Bytes) × (changes
          ≡ with_sequence
              (new_update_file hash_bytes claim_path 0o600 (hash_bytes before) after)
              (pos 80)
            ∷ [])
        × (decode_ownership clock after ≡ ok legacy)
        × (legacy.status ≡ released)
        × (legacy.session_id ≡ [])
        × (legacy.generation ≡ 0)
  unfolding plan_v1_2 as_codec
  plan_v1_2-keeps hash_bytes context changes before legacy h found decoded acquired at =
      let l = decode_v1_1_ownership-IsLegacy before decoded in
      elim (Result-cases (encode_ownership clock legacy)) [
        | inr (problem, e) ↦ ground arith
        | inl (after, e) ↦
            let w = legacy_written legacy l (encoded legacy e) acquired at in
            let (content, written, back) = decode_ownership-encode_ownership clock legacy w in
            (
              after,
              (planned hash_bytes context changes before legacy after h found decoded e).1,
              subst (λ z. decode_ownership clock z ≡ ok legacy) (ground arith) back,
              (planned hash_bytes context changes before legacy after h found decoded e).0,
              l.session,
              l.generation,
            )
      ]
