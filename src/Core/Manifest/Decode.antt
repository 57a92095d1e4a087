-- ===== src/Core/Manifest/Decode.antt =====
-- internal/core/manifest.go: the manifest out of the members of a JSON object.
use uawp.Base.{
  Bool, not, Option, none, some, List, [], ◌∷◌, ◌==◌, bytes_eq, if◌then◌else◌, Result, ok, err,
  ◌>>=◌, ◌>>◌, refuse_if, contains, Bytes, codes,
}
use uawp.Core.Manifest.{Manifest, IntegrationArtifact, ManifestError, validate_manifest}

-- A member of an object, with what its value is decoded to as a string and as the integrations.
pub record JsonMember : Type 0 where
  pub key : Bytes
  pub text : Option Bytes
  pub integrations : Option (List IntegrationArtifact)

-- What the decoder of encoding/json makes of a text: whether it begins an object, the members up
-- to the end or the first error, whether the object is closed there, and whether more follows.
pub record JsonDocument : Type 0 where
  pub is_object : Bool
  pub members : List JsonMember
  pub is_closed : Bool
  pub has_trailing : Bool

pub data DecodeError : Type 0 where
  not_an_object duplicate_field wrong_value unknown_field not_closed trailing_data : DecodeError
  invalid : ManifestError → DecodeError

-- The switch on the key.
unfoldable pub decode_member : JsonMember → Manifest → Result DecodeError Manifest
decode_member member manifest =
    if member.key == codes "protocol"
    then (elim member.text [
      | none ↦ err wrong_value
      | some value ↦ ok (record manifest { protocol = value })
    ])
    else if member.key == codes "stateVersion"
    then (elim member.text [
      | none ↦ err wrong_value
      | some value ↦ ok (record manifest { state_version = value })
    ])
    else if member.key == codes "integrations"
    then (elim member.integrations [
      | none ↦ err wrong_value
      | some value ↦ ok (record manifest { integrations = value })
    ])
    else err unknown_field

-- The loop over the members.
unfoldable pub decode_members :
    List Bytes → List JsonMember → Manifest → Result DecodeError Manifest
unfolding decode_member
decode_members seen [] manifest = ok manifest
decode_members seen (member ∷ members) manifest = do
  refuse_if (contains seen member.key) duplicate_field
  more ← decode_member member manifest
  decode_members (member.key ∷ seen) members more

abbrev no_manifest : Manifest
no_manifest = record { protocol = []; state_version = []; integrations = [] }

unfoldable pub as_decode_error {ℓ} : {A : Type ℓ} → Result ManifestError A → Result DecodeError A
as_decode_error (ok a) = ok a
as_decode_error (err e) = err (invalid e)

unfoldable pub decode_manifest : JsonDocument → Result DecodeError Manifest
unfolding decode_members
decode_manifest document = do
  refuse_if (not document.is_object) not_an_object
  manifest ← decode_members [] document.members no_manifest
  refuse_if (not document.is_closed) not_closed
  refuse_if document.has_trailing trailing_data
  as_decode_error (validate_manifest manifest)
  ok manifest
