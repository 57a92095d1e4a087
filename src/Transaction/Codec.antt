-- ===== src/Transaction/Codec.antt =====
-- internal/transaction/codec.go: the encoding and decoding of the records. The reading of JSON, with
-- the refusal of unknown fields, duplicate keys and trailing text, is a parameter.
pub mod Laws
use uawp.Base.{
  Option, none, some, ℕ, ◌+◌, ◌*◌, ◌^◌, List, [], ◌∷◌, ◌++◌, if◌then◌else◌, ltb, Result, ok, err,
  ◌>>=◌, length, Bytes,
}
use uawp.Plan.Persist.{PersistedPlan, restore}
use uawp.Transaction.Record.{Journal, LivePointer, Receipt, Platform}
use uawp.Transaction.Validate.{RecordError, validate_journal, validate_pointer, validate_receipt}

abbrev pub max_record_bytes : ℕ
max_record_bytes = 8 * 2 ^ 20

pub data CodecError : Type 0 where
  invalid : RecordError → CodecError
  invalid_plan too_large malformed : CodecError

-- json.MarshalIndent of the four records.
pub record Marshal : Type 0 where
  pub plan : PersistedPlan → Bytes
  pub journal : Journal → Bytes
  pub pointer : LivePointer → Bytes
  pub receipt : Receipt → Bytes

-- What the strict decoder makes of a text within the limit.
pub record Unmarshal : Type 0 where
  pub plan : Bytes → Option PersistedPlan
  pub journal : Bytes → Option Journal
  pub pointer : Bytes → Option LivePointer
  pub receipt : Bytes → Option Receipt

unfoldable pub encode : Bytes → Result CodecError Bytes
encode text =
    if ltb max_record_bytes (length text + 1) then err too_large else ok (text ++ (10 ∷ []))

abbrev valid_record {ℓ} : {A : Type ℓ} → Result RecordError A → Result CodecError A
valid_record (ok a) = ok a
valid_record (err e) = err (invalid e)

module _ (platform : Platform) (marshal : Marshal) where
  unfoldable pub encode_journal : Journal → Result CodecError Bytes
  encode_journal j = do _ ← valid_record (validate_journal platform j); encode (marshal.journal j)

  unfoldable pub encode_pointer : LivePointer → Result CodecError Bytes
  encode_pointer p = do _ ← valid_record (validate_pointer p); encode (marshal.pointer p)

  unfoldable pub encode_receipt : Receipt → Result CodecError Bytes
  encode_receipt r = do _ ← valid_record (validate_receipt platform r); encode (marshal.receipt r)

  unfoldable pub encode_plan : PersistedPlan → Result CodecError Bytes
  encode_plan p = elim (restore platform.hash_bytes platform.marshal p) [
    | err e ↦ err invalid_plan
    | ok q ↦ encode (marshal.plan p)
  ]

unfoldable pub decode_strict {ℓ} : {A : Type ℓ} → (Bytes → Option A) → Bytes → Result CodecError A
decode_strict read text =
    if ltb max_record_bytes (length text)
    then err too_large
    else elim (read text) [ none ↦ err malformed | some a ↦ ok a ]

module _ (platform : Platform) (unmarshal : Unmarshal) where
  unfoldable pub decode_journal : Bytes → Result CodecError Journal
  decode_journal text = do
    j ← decode_strict unmarshal.journal text
    _ ← valid_record (validate_journal platform j)
    ok j

  unfoldable pub decode_pointer : Bytes → Result CodecError LivePointer
  decode_pointer text = do
    p ← decode_strict unmarshal.pointer text
    _ ← valid_record (validate_pointer p)
    ok p

  unfoldable pub decode_receipt : Bytes → Result CodecError Receipt
  decode_receipt text = do
    r ← decode_strict unmarshal.receipt text
    _ ← valid_record (validate_receipt platform r)
    ok r

  unfoldable pub decode_plan : Bytes → Result CodecError PersistedPlan
  decode_plan text = do
    p ← decode_strict unmarshal.plan text
    elim (restore platform.hash_bytes platform.marshal p) [ err e ↦ err invalid_plan | ok q ↦ ok p ]
