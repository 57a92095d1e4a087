-- ===== src/Core/Ownership/Codec/Decoded.antt =====
-- The fields that come out of a text.
use uawp.Base.{
  inl, inr, >>=-eq-ok, nat_eq, bytes_eq, ◌∷◌, [], some, ok, refl, arith, ◌≡◌, ◌==◌, space_width,
  List, Bytes, last_space_width, All, ℕ, trim_space, subst, Option, Bool-cases, trim_suffix,
  has_prefix, codes, equal_fold, Option-cases, trim_prefix,
}
use uawp.Core.Ownership.Fields.{
  read_fields, field_text, field, Fields, read_lines, read_line, lines,
}
use uawp.Core.Ownership.{Time}
use uawp.Core.Ownership.Codec.{claim_from}
use uawp.Base.Trim.{IsTrimmed, trim_space-IsTrimmed}
use uawp.Core.Ownership.Codec.Printed.{HasTrimmed}
use uawp.Base.FilePath.{cut}

pub IsTrimmed_empty : IsTrimmed []
unfolding space_width last_space_width
IsTrimmed_empty = record { front = refl; back = refl }

read_line-trimmed :
    (known : List Bytes) (raw : Bytes) (seen : Fields) {read : Fields}
    → All (λ f. IsTrimmed f.1) seen
    → read_line known raw seen ≡ ok read
    → All (λ f. IsTrimmed f.1) read
unfolding read_line
read_line-trimmed known raw seen t h =
    let line = trim_space (trim_suffix 13 raw) in
    elim (Bool-cases (has_prefix line (codes "- "))) [
      | inr plain ↦ subst (All (λ f. IsTrimmed f.1)) (ground arith) t
      | inl entry ↦ elim (Option-cases (cut b':' (trim_prefix line (codes "- ")))) [
        | inl none_cut ↦ ground (arith)
        | inr (parts, found) ↦
            subst (All (λ f. IsTrimmed f.1)) {x = (trim_space parts.0, trim_space parts.1) ∷ seen}
              (ground arith) ((trim_space-IsTrimmed parts.1, t))
      ]
    ]

read_lines-trimmed :
    (known : List Bytes) (rest : List Bytes) (seen : Fields) {read : Fields}
    → All (λ f. IsTrimmed f.1) seen
    → read_lines known rest seen ≡ ok read
    → All (λ f. IsTrimmed f.1) read
unfolding read_lines
read_lines-trimmed known [] seen t h = subst (All (λ f. IsTrimmed f.1)) (ground arith) t
read_lines-trimmed known (raw ∷ rest) seen t h =
    let (more, first, later) = >>=-eq-ok (read_line known raw seen) (read_lines known rest) h in
    read_lines-trimmed known rest more (read_line-trimmed known raw seen t first) later

field-IsTrimmed :
    (read : Fields) (key : Bytes) {value : Bytes}
    → All (λ f. IsTrimmed f.1) read
    → field read key ≡ some value
    → IsTrimmed value
unfolding field
field-IsTrimmed [] key t h = ground arith
field-IsTrimmed ((k, v) ∷ read) key t h = elim (Bool-cases (k == key)) [
  | inl e ↦ subst IsTrimmed (ground arith) t.0
  | inr e ↦ field-IsTrimmed read key t.1 (ground arith)
]

pub field_text-IsTrimmed :
    (read : Fields) (key : Bytes) → All (λ f. IsTrimmed f.1) read → IsTrimmed (field_text read key)
unfolding field_text
field_text-IsTrimmed read key t = elim (Option-cases (field read key)) [
  | inl missing ↦ rw (field_text, missing) IsTrimmed_empty
  | inr (value, found) ↦ rw (field_text, found) (field-IsTrimmed read key t found)
]

pub read_fields-trimmed :
    (known : List Bytes) (content : Bytes) {read : Fields}
    → read_fields known content ≡ ok read
    → All (λ f. IsTrimmed f.1) read
unfolding read_fields
read_fields-trimmed known content h =
    let (read, lines_read, rest) = >>=-eq-ok (read_lines known (lines content) []) _ h in
    let t = read_lines-trimmed known (lines content) [] tt lines_read in
    subst (All (λ f. IsTrimmed f.1)) (ground arith) t

pub claim_from-HasTrimmed :
    (read : Fields) (acquired : Time) (generation : ℕ) (at : Option Time)
    → All (λ f. IsTrimmed f.1) read
    → HasTrimmed (claim_from read acquired generation at)
unfolding claim_from
claim_from-HasTrimmed read acquired generation at t = record {
  worker = field_text-IsTrimmed read (codes "Worker ID") t;
  session = elim (Bool-cases (equal_fold (field_text read (codes "Session ID")) (codes "none"))) [
    | inl e ↦ rw e IsTrimmed_empty
    | inr e ↦ rw e (field_text-IsTrimmed read (codes "Session ID") t)
  ];
  agent = field_text-IsTrimmed read (codes "Agent") t;
  purpose = field_text-IsTrimmed read (codes "Purpose") t;
}
