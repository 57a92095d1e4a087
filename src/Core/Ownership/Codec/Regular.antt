-- ===== src/Core/Ownership/Codec/Regular.antt =====
-- The claims that come out of a text, and those that a worker acquires.
use uawp.Base.{
  ◌>>◌, ◌^◌, inl, inr, some, ok, >>=-eq-ok, bytes_eq, nat_eq, Bytes, ℕ, ◌≡◌, ◌<◌, Result-cases, All,
  arith, Option, subst, codes, Option-cases, none, sym, ◌∙◌,
}
use uawp.Base.Number.{parse_uint}
use uawp.Core.Ownership.Fields.{read_fields, field_text}
use uawp.Core.Ownership.Transition.{
  release, claim, acquire, released_claim, AcquireRequest, ReleaseRequest,
}
use uawp.Core.Ownership.Codec.{
  as_ownership_error, Clock, decode_ownership, claim_of, claim_from, as_field_error, Fields,
  ownership_fields, parse_timestamp, parse_released,
}
use uawp.Core.Ownership.{Ownership, validate_ownership, Time}
use uawp.Core.Ownership.Codec.Printed.{HasTrimmed, ReadsBack, IsWritable}
use uawp.Base.Trim.{trim_space-IsTrimmed, IsTrimmed}
use uawp.Core.Ownership.Codec.Decoded.{read_fields-trimmed, claim_from-HasTrimmed}

-- What can be written once its times can be.
pub record IsRegular (o : Ownership) : Type 0 where
  pub valid : validate_ownership o ≡ ok tt
  pub trimmed : HasTrimmed o
  pub in_range : o.generation < 2 ^ 64

parse_uint-lt : (s : Bytes) {n : ℕ} → parse_uint s ≡ some n → n < 2 ^ 64
unfolding parse_uint
parse_uint-lt s h = ground arith

validated :
    (value : Ownership) {o : Ownership}
    → (as_ownership_error (validate_ownership value) >> ok value) ≡ ok o
    → (validate_ownership value ≡ ok tt) × (value ≡ o)
unfolding as_ownership_error
validated value h = elim (Result-cases (validate_ownership value)) [
  | inl (_, fine) ↦ (fine, ground arith)
  | inr (problem, e) ↦ ground arith
]

module _ (clock : Clock) where
  claim_of-parts :
      (read : Fields) {o : Ownership}
      → claim_of clock read ≡ ok o
      → (acquired : Time) × (generation : ℕ) × (at : Option Time) × (parse_uint
            (field_text read (codes "Generation"))
          ≡ some generation)
        × (validate_ownership (claim_from read acquired generation at) ≡ ok tt)
        × (claim_from read acquired generation at ≡ o)
  unfolding claim_of
  claim_of-parts read h =
      let (acquired, first, rest) =
        >>=-eq-ok (parse_timestamp clock (field_text read (codes "Acquired At"))) _ h in
      elim (Option-cases (parse_uint (field_text read (codes "Generation")))) [
        | inl missing ↦ ground arith
        | inr (generation, parsed) ↦
            elim (Result-cases (parse_released clock (field_text read (codes "Released At")))) [
              | inr (problem, e) ↦ ground arith
              | inl (at, e) ↦
                  let (fine, same) =
                    validated (claim_from read acquired generation at) (ground arith) in
                  (acquired, generation, at, parsed, fine, same)
            ]
      ]

  claim_of-IsRegular :
      (read : Fields) {o : Ownership}
      → All (λ f. IsTrimmed f.1) read
      → claim_of clock read ≡ ok o
      → IsRegular o
  unfolding claim_from
  claim_of-IsRegular read t h =
      let (acquired, generation, at, parsed, fine, same) = claim_of-parts read h in
      subst IsRegular same record {
        valid = fine;
        trimmed = claim_from-HasTrimmed read acquired generation at t;
        in_range = parse_uint-lt (field_text read (codes "Generation")) parsed;
      }

  -- A claim that is read from a text is valid, and has no white space to lose.
  pub decode_ownership-IsRegular :
      (content : Bytes) {o : Ownership} → decode_ownership clock content ≡ ok o → IsRegular o
  unfolding decode_ownership as_field_error
  decode_ownership-IsRegular content h =
      elim (Result-cases (read_fields ownership_fields content)) [
        | inr (problem, e) ↦ ground arith
        | inl (read, e) ↦
            claim_of-IsRegular read (read_fields-trimmed ownership_fields content e) (ground arith)
      ]

claim-IsRegular :
    (current : Ownership) (request : AcquireRequest)
    → validate_ownership (claim current request) ≡ ok tt
    → IsRegular (claim current request)
unfolding claim
claim-IsRegular current request v = record {
  valid = v;
  trimmed = record {
    worker = trim_space-IsTrimmed request.worker_id;
    session = trim_space-IsTrimmed request.session_id;
    agent = trim_space-IsTrimmed request.agent;
    purpose = trim_space-IsTrimmed request.purpose;
  };
  in_range = omega arith;
}

pub acquire-IsRegular :
    (current : Ownership) (request : AcquireRequest) {o : Ownership}
    → acquire current request ≡ ok o
    → IsRegular o
unfolding acquire
acquire-IsRegular current request h =
    elim (Result-cases (validate_ownership (claim current request))) [
      | inr (problem, e) ↦ ground arith
      | inl (_, e) ↦ subst IsRegular (ground arith) (claim-IsRegular current request e)
    ]

pub release-IsRegular :
    (current : Ownership) (request : ReleaseRequest) {o : Ownership}
    → IsRegular current
    → release current request ≡ ok o
    → IsRegular o
unfolding release released_claim
release-IsRegular current request r h =
    elim (Result-cases (validate_ownership (released_claim current request.at))) [
      | inr (problem, e) ↦ ground arith
      | inl (_, e) ↦ subst IsRegular (ground arith) (record {
        valid = e;
        trimmed = record {
          worker = r.trimmed.worker;
          session = r.trimmed.session;
          agent = r.trimmed.agent;
          purpose = r.trimmed.purpose;
        };
        in_range = r.in_range;
      })
    ]

regular-IsWritable :
    (clock : Clock) (o : Ownership)
    → IsRegular o
    → ReadsBack clock o.acquired_at
    → ((t : Time) → o.released_at ≡ some t → ReadsBack clock t)
    → IsWritable clock o
regular-IsWritable clock o r acquired at = record {
  valid = r.valid;
  trimmed = r.trimmed;
  in_range = r.in_range;
  acquired = acquired;
  released = at;
}

acquire_times :
    (current : Ownership) (request : AcquireRequest) {o : Ownership}
    → acquire current request ≡ ok o
    → (o.acquired_at ≡ request.at) × (o.released_at ≡ none)
unfolding acquire claim
acquire_times current request h = ground arith

-- A claim that has been granted can be written.
pub acquire-IsWritable :
    (clock : Clock) (current : Ownership) (request : AcquireRequest) {o : Ownership}
    → acquire current request ≡ ok o
    → ReadsBack clock request.at
    → IsWritable clock o
acquire-IsWritable clock current request {o} h at =
    let (acquired, none_released) = acquire_times current request h in
    regular-IsWritable clock o (acquire-IsRegular current request h)
      (subst (ReadsBack clock) (sym acquired) at) (λ t e. absurd (ground arith))

release_times :
    (current : Ownership) (request : ReleaseRequest) {o : Ownership}
    → release current request ≡ ok o
    → (o.acquired_at ≡ current.acquired_at) × (o.released_at ≡ some request.at)
unfolding release released_claim
release_times current request h = ground arith

pub some_injective : {a b : Time} → some a ≡ some b → a ≡ b
some_injective h = ground arith

-- A claim that has been released can be written.
pub release-IsWritable :
    (clock : Clock) (current : Ownership) (request : ReleaseRequest) {o : Ownership}
    → IsRegular current
    → release current request ≡ ok o
    → ReadsBack clock current.acquired_at
    → ReadsBack clock request.at
    → IsWritable clock o
release-IsWritable clock current request {o} r h acquired at =
    let (kept, freed) = release_times current request h in
    regular-IsWritable clock o (release-IsRegular current request r h)
      (subst (ReadsBack clock) (sym kept) acquired)
      (λ t e. subst (ReadsBack clock) (some_injective (sym freed ∙ e)) at)
