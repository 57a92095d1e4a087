-- ===== src/Core/Ownership/Codec/RoundTrip.antt =====
-- Reading back the text of a claim.
use uawp.Core.Ownership.Fields.{
  read_fields, field_text, field, read_lines, read_line, lines, has_all, max_token,
}
use uawp.Base.{
  if◌then◌else◌, nat_eq, bytes_eq, ◌∷◌, [], ◌++◌, ◌*◌, length, ok, refl, ap, arith, ◌∙◌, ◌≡◌, Bytes,
  equal_fold, codes, trim_space, bytes_beq, trim_by, false, true, space_width, ◌⊎◌,
  last_space_width, trim_suffix, has_prefix, ◌≤◌, subst, ltb,
}
use mathlib.Core.List.{reverse_aux, map, List}
use uawp.Core.Ownership.{unknown, Ownership, OwnershipStatus, active, released}
use uawp.Core.Ownership.Codec.{
  Clock, status_of, read_fields, encode_ownership, claim_of, claim_from, claim_fields, status_text,
  field_text, decode_ownership, ownership_fields, as_ownership_error, field_lines, as_field_error,
  none_if_empty, max_ownership_bytes,
}
use uawp.Core.Ownership.Codec.Printed.{
  IsWritable, lines-field_lines, parse_timestamp-format, length-field_lines,
}
use uawp.Core.Ownership.Fields.Laws.{line_of, lines-line, read_lines-line_of, AreFresh}
use uawp.Core.Ownership.Codec.Written.{claim_fields-Prints, known_status, parse_released-text}
use uawp.Core.Ownership.Validity.{validate_ownership_iff}
use uawp.Base.Trim.{trim_space_trimmed}
use uawp.Base.Decimal.{parse_uint-decimal}

abbrev heading : Bytes
heading = codes "# UAWP Active Worker"

-- The heading and the empty line have no field.
read_lines-heading :
    (rest : List Bytes)
    → read_lines ownership_fields (heading ∷ [] ∷ rest) [] ≡ read_lines ownership_fields rest []
unfolding read_lines read_line trim_space trim_by space_width last_space_width trim_suffix
    has_prefix
read_lines-heading rest = refl

fits_below :
    (s : Bytes)
    → length s ≤ max_token * 8
    → ltb max_ownership_bytes (length (codes "# UAWP Active Worker\n\n" ++ s)) ≡ false
fits_below s h = ground arith

module _ (clock : Clock) where
  AreFresh-claim_fields : (o : Ownership) → AreFresh [] (claim_fields clock o)
  unfolding claim_fields bytes_beq
  AreFresh-claim_fields o = (refl, (refl, (refl, (refl, (refl, (refl, (refl, (refl, tt))))))))

  has_all-claim_fields :
      (o : Ownership) → has_all ownership_fields (reverse_aux (claim_fields clock o) []) ≡ true
  unfolding has_all claim_fields bytes_beq
  has_all-claim_fields o = refl

  lines_of_claim :
      (o : Ownership)
      → IsWritable clock o
      → lines (codes "# UAWP Active Worker\n\n" ++ field_lines (claim_fields clock o))
        ≡ heading ∷ [] ∷ map (λ f. line_of f.0 f.1) (claim_fields clock o)
  unfolding lines
  lines_of_claim o w =
      lines-line heading (10 ∷ field_lines (claim_fields clock o)) refl
      ∙ ap (λ z. heading ∷ [] ∷ z)
          (lines-field_lines ownership_fields (claim_fields clock o)
            (claim_fields-Prints clock o w))

  read_fields-claim :
      (o : Ownership)
      → IsWritable clock o
      → read_fields ownership_fields
          (codes "# UAWP Active Worker\n\n" ++ field_lines (claim_fields clock o))
        ≡ ok (reverse_aux (claim_fields clock o) [])
  unfolding read_fields
  read_fields-claim o w =
      rw
        (
          lines_of_claim o w,
          read_lines-heading (map (λ f. line_of f.0 f.1) (claim_fields clock o)),
          read_lines-line_of ownership_fields (claim_fields clock o) []
              (claim_fields-Prints clock o w) (AreFresh-claim_fields o),
          has_all-claim_fields o,
        )
        refl

  session_back :
      (s : Bytes)
      → equal_fold s (codes "none") ≡ false
      → (if equal_fold (none_if_empty s) (codes "none") then [] else none_if_empty s) ≡ s
  unfolding equal_fold bytes_beq
  session_back [] h = refl
  session_back (x ∷ s) h = rw h refl

  status_back :
      (s : OwnershipStatus) → (s ≡ active) ⊎ (s ≡ released) → status_of (status_text s) ≡ s
  unfolding status_of status_text bytes_beq
  status_back active h = refl
  status_back released h = refl
  status_back (unknown s) h = ground arith

  not_reserved :
      (o : Ownership) → IsWritable clock o → equal_fold o.session_id (codes "none") ≡ false
  not_reserved o w =
      subst (λ z. equal_fold z (codes "none") ≡ false)
        (trim_space_trimmed o.session_id w.trimmed.session)
        ((validate_ownership_iff o).0 w.valid).not_reserved

  claim_from-fields :
      (o : Ownership)
      → IsWritable clock o
      → claim_from (reverse_aux (claim_fields clock o) []) o.acquired_at o.generation o.released_at
        ≡ o
  unfolding claim_from field_text field claim_fields bytes_beq
  claim_from-fields o w =
      let v = (validate_ownership_iff o).0 w.valid in
      rw
        (
          status_back o.status (known_status o v.lifetime),
          session_back o.session_id (not_reserved o w),
        )
        refl

  claim_of-fields :
      (o : Ownership)
      → IsWritable clock o
      → claim_of clock (reverse_aux (claim_fields clock o) []) ≡ ok o
  unfolding claim_of field_text field claim_fields bytes_beq as_ownership_error
  claim_of-fields o w =
      rw
        (
          parse_timestamp-format clock o.acquired_at w.acquired,
          parse_uint-decimal o.generation w.in_range,
          parse_released-text clock o.released_at w.released,
          claim_from-fields o w,
          w.valid,
        )
        refl

  fits :
      (o : Ownership)
      → IsWritable clock o
      → ltb max_ownership_bytes
          (length (codes "# UAWP Active Worker\n\n" ++ field_lines (claim_fields clock o)))
        ≡ false
  unfolding claim_fields
  fits o w = fits_below _ (length-field_lines ownership_fields _ (claim_fields-Prints clock o w))

  -- A valid claim whose texts are trimmed, whose generation is below 2 ^ 64 and whose times the layout
  -- keeps is encoded, and its text is decoded to the claim.
  pub decode_ownership-encode_ownership :
      (o : Ownership)
      → IsWritable clock o
      → (content : Bytes) × (encode_ownership clock o ≡ ok content)
        × (decode_ownership clock content ≡ ok o)
  unfolding encode_ownership decode_ownership as_ownership_error as_field_error
  decode_ownership-encode_ownership o w = (
    codes "# UAWP Active Worker\n\n" ++ field_lines (claim_fields clock o),
    rw w.valid refl,
    rw (fits o w, read_fields-claim o w) (claim_of-fields o w),
  )
