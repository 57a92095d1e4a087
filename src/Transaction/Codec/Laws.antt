-- ===== src/Transaction/Codec/Laws.antt =====
-- The encoded records, and reading them again.
use uawp.Base.{
  ◌≡◌, ◌≤◌, arith, ok, inl, inr, Bytes, length, length-append, [], ◌∷◌, ◌++◌, Result-cases, some,
}
use uawp.Transaction.Record.{Platform, Journal}
use uawp.Transaction.Validate.{validate_journal}
use uawp.Transaction.Codec.{
  encode, encode_journal, max_record_bytes, Marshal, decode_journal, decode_strict, Unmarshal,
}

encode-length :
    (text out : Bytes)
    → encode text ≡ ok out
    → (out ≡ text ++ (10 ∷ [])) × (length out ≤ max_record_bytes)
unfolding encode
encode-length text out h = ground (arith, length-append text (10 ∷ []))

-- A journal that is encoded is valid, and its encoding is the marshalled text with a newline at the
-- end, which does not exceed the limit that the readers of a record set.
encode_journal-bounded :
    (platform : Platform) (marshal : Marshal) (j : Journal) (out : Bytes)
    → encode_journal platform marshal j ≡ ok out
    → (validate_journal platform j ≡ ok tt)
      × (out ≡ marshal.journal j ++ (10 ∷ []))
      × (length out ≤ max_record_bytes)
unfolding encode_journal
encode_journal-bounded platform marshal j out h =
    elim (Result-cases (validate_journal platform j)) [
      | inl (x, e) ↦
          let (same, fits) = encode-length (marshal.journal j) out (ground arith) in (e, same, fits)
      | inr (x, e) ↦ absurd (ground arith)
    ]

-- Where the decoder reads what the encoder wrote for a journal as that journal, a journal that is
-- encoded is decoded as it was.
decode-encode_journal :
    (platform : Platform) (marshal : Marshal) (unmarshal : Unmarshal) (j : Journal) (out : Bytes)
    → unmarshal.journal (marshal.journal j ++ (10 ∷ [])) ≡ some j
    → encode_journal platform marshal j ≡ ok out
    → decode_journal platform unmarshal out ≡ ok j
unfolding decode_journal decode_strict
decode-encode_journal platform marshal unmarshal j out reads h =
    let (valid, same, fits) = encode_journal-bounded platform marshal j out h in ground arith
