-- ===== src/Core/Ownership/Codec/Written.antt =====
-- The fields of a claim that can be written.
use uawp.Base.Number.{decimal}
use uawp.Base.{
  ap, arith, ◌∙◌, ◌≡◌, nat_eq, bytes_eq, ◌∷◌, [], some, none, length, ok, refl, inl, inr,
  trim_space, space_width, Bytes, ◌≢◌, last_space_width, true, is_empty, equal_fold, bytes_beq, ◌⊎◌,
  ◌≤◌, false, Option, All, codes,
}
use uawp.Base.Pattern.{all}
use mathlib.Core.List.{cons-ne-nil}
use uawp.Core.Ownership.Codec.Printed.{
  Prints-of, is_key, IsWritable, ReadsBack, parse_timestamp-format, timezone_not_none,
  timezone-ne-nil, IsText_visible, IsText-line, all_digits_visible,
}
use uawp.Core.Ownership.{unknown, Ownership, Time, active, OwnershipStatus, released}
use uawp.Core.Ownership.Codec.{
  status_text, Clock, released_text, parse_released, claim_fields, ownership_fields, none_if_empty,
}
use uawp.Core.Ownership.Validity.{HasLifetime, IsLine, validate_ownership_iff}
use uawp.Base.Trim.{is_visible, IsTrimmed}
use uawp.Core.Ownership.Fields.Laws.{Prints}
use uawp.Base.Decimal.{decimal-is_digit, decimal-ne-nil, decimal-length}

visible-Prints :
    (k v : Bytes)
    → is_key k ≡ true
    → length k ≤ 64
    → all is_visible v ≡ true
    → v ≢ []
    → length v ≤ 4096
    → Prints ownership_fields (k, v)
visible-Prints k v h short e ne fits = Prints-of k v h short (IsText_visible v e) ne fits

trim_space_nil : trim_space [] ≡ []
unfolding trim_space
trim_space_nil = refl

-- A text field of a valid claim.
line-Prints :
    (k s : Bytes)
    → is_key k ≡ true
    → length k ≤ 64
    → IsLine s
    → IsTrimmed s
    → trim_space s ≢ []
    → Prints ownership_fields (k, s)
line-Prints k s h short l t ne =
    Prints-of k s h short (IsText-line s l t) (λ e. ne (ap trim_space e ∙ trim_space_nil)) l.short

session-Prints :
    (s : Bytes)
    → IsLine s
    → IsTrimmed s
    → Prints ownership_fields (codes "Session ID", none_if_empty s)
unfolding space_width last_space_width bytes_beq all
session-Prints [] l t =
    visible-Prints (codes "Session ID") (codes "none") refl (omega arith) refl (cons-ne-nil b'n' _)
      (omega arith)
session-Prints (x ∷ s) l t =
    Prints-of (codes "Session ID") (x ∷ s) refl (omega arith) (IsText-line (x ∷ s) l t)
      (cons-ne-nil x s) l.short

status-Prints :
    (s : OwnershipStatus)
    → (s ≡ active) ⊎ (s ≡ released)
    → Prints ownership_fields (codes "Status", status_text s)
unfolding status_text space_width last_space_width bytes_beq all
status-Prints active h =
    visible-Prints (codes "Status") (codes "ACTIVE") refl (omega arith) refl (cons-ne-nil b'A' _)
      (omega arith)
status-Prints released h =
    visible-Prints (codes "Status") (codes "RELEASED") refl (omega arith) refl (cons-ne-nil b'R' _)
      (omega arith)
status-Prints (unknown s) h = ground arith

pub known_status : (o : Ownership) → HasLifetime o → (o.status ≡ active) ⊎ (o.status ≡ released)
known_status o (inl h) = inl h.0
known_status o (inr h) = inr h.0

not_empty : (s : Bytes) → s ≢ [] → is_empty s ≡ false
not_empty [] h = absurd (h refl)
not_empty (x ∷ s) h = refl

module _ (clock : Clock) where
  time-Prints :
      (k : Bytes) (t : Time)
      → is_key k ≡ true
      → length k ≤ 64
      → ReadsBack clock t
      → Prints ownership_fields (k, clock.format t)
  time-Prints k t h short r =
      visible-Prints k (clock.format t) h short r.visible (timezone-ne-nil _ r.zoned)
        (omega (arith, r.short))

  released_text-Prints :
      (at : Option Time)
      → ((t : Time) → at ≡ some t → ReadsBack clock t)
      → Prints ownership_fields (codes "Released At", released_text clock at)
  unfolding released_text space_width last_space_width bytes_beq all
  released_text-Prints none h =
      visible-Prints (codes "Released At") (codes "none") refl (omega arith) refl
        (cons-ne-nil b'n' _) (omega arith)
  released_text-Prints (some t) h =
      time-Prints (codes "Released At") t refl (omega arith) (h t refl)

  pub parse_released-text :
      (at : Option Time)
      → ((t : Time) → at ≡ some t → ReadsBack clock t)
      → parse_released clock (released_text clock at) ≡ ok at
  unfolding parse_released released_text equal_fold bytes_beq
  parse_released-text none h = refl
  parse_released-text (some t) h =
      let r = h t refl in
      rw
        (
          parse_timestamp-format clock t r,
          timezone_not_none (clock.format t) r.zoned,
          not_empty (clock.format t) (timezone-ne-nil _ r.zoned),
        )
        refl

  -- Every field of a claim that can be written prints.
  pub claim_fields-Prints :
      (o : Ownership) → IsWritable clock o → All (Prints ownership_fields) (claim_fields clock o)
  unfolding claim_fields space_width last_space_width bytes_beq all
  claim_fields-Prints o w =
      let v = (validate_ownership_iff o).0 w.valid in
      (
        status-Prints o.status (known_status o v.lifetime),
        (
          line-Prints (codes "Worker ID") _ refl (omega arith) v.worker_line w.trimmed.worker
              v.worker,
          (
            session-Prints o.session_id v.session_line w.trimmed.session,
            (
              visible-Prints (codes "Generation") _ refl (omega arith)
                  (all_digits_visible (decimal o.generation) (decimal-is_digit o.generation))
                  (decimal-ne-nil o.generation)
                  (omega (arith, decimal-length o.generation w.in_range)),
              (
                line-Prints (codes "Agent") _ refl (omega arith) v.agent_line w.trimmed.agent
                    v.agent,
                (
                  time-Prints (codes "Acquired At") o.acquired_at refl (omega arith) w.acquired,
                  (
                    released_text-Prints o.released_at w.released,
                    (
                      line-Prints (codes "Purpose") _ refl (omega arith) v.purpose_line
                          w.trimmed.purpose v.purpose,
                      tt,
                    ),
                  ),
                ),
              ),
            ),
          ),
        ),
      )
