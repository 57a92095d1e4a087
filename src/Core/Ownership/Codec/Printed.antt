-- ===== src/Core/Ownership/Codec/Printed.antt =====
-- The printed fields of a claim, as lines that can be read back.
use uawp.Base.{
  ◌==◌, ◌&&◌, length-append, nat_eq, bytes_eq, ◌∷◌, [], ◌++◌, some, ◌*◌, ◌^◌, length, ok,
  contains_any, Bytes, ℕ, ◌≡◌, contains, ◌<◌, true, false, codes, All, ◌≤◌, refl, arith, ap, ◌∙◌,
  sym, ◌≢◌, Bool, not, equal_fold, bytes_beq, space_width, last_space_width,
}
use mathlib.Core.List.{cons-ne-nil, append_assoc, List, map, reverse}
use uawp.Base.Pattern.{all, is_digit}
use uawp.Core.Ownership.Fields.{lines, max_token}
use uawp.Core.Ownership.Codec.{
  field_lines, Clock, field_line, Fields, has_timezone, parse_timestamp, is_offset,
  ownership_fields,
}
use uawp.Core.Ownership.{Ownership, validate_ownership, Time}
use uawp.Core.Ownership.Validity.{IsLine}
use uawp.Base.Trim.{is_visible, IsTrimmed, IsTrimmed_visible}
use uawp.Core.Ownership.Fields.Laws.{IsText, line_of, Prints, lines-line, line_of-contains, IsKey}

-- A time that the layout keeps: whole seconds, in a zone that the text names.
pub record ReadsBack (clock : Clock) (t : Time) : Type 0 where
  pub reads : clock.parse (clock.format t) ≡ some t
  pub zoned : has_timezone (clock.format t) ≡ true
  pub visible : all is_visible (clock.format t) ≡ true
  pub short : length (clock.format t) ≤ 64

-- The text fields of a claim have no white space at their ends.
pub record HasTrimmed (o : Ownership) : Type 0 where
  pub worker : IsTrimmed o.worker_id
  pub session : IsTrimmed o.session_id
  pub agent : IsTrimmed o.agent
  pub purpose : IsTrimmed o.purpose

pub record IsWritable (clock : Clock) (o : Ownership) : Type 0 where
  pub valid : validate_ownership o ≡ ok tt
  pub trimmed : HasTrimmed o
  pub in_range : o.generation < 2 ^ 64
  pub acquired : ReadsBack clock o.acquired_at
  pub released : (t : Time) → o.released_at ≡ some t → ReadsBack clock t

field_line-append : (k v rest : Bytes) → field_line k v ++ rest ≡ line_of k v ++ (10 ∷ rest)
field_line-append k v rest =
    ap (λ z. b'-' ∷ 32 ∷ z)
      (append_assoc k (b':' ∷ 32 ∷ (v ++ (10 ∷ []))) rest
        ∙ ap (λ z. k ++ (b':' ∷ 32 ∷ z)) (append_assoc v (10 ∷ []) rest)
        ∙ sym (append_assoc k (b':' ∷ 32 ∷ v) (10 ∷ rest)))

pub lines-field_lines :
    (known : List Bytes) (fs : Fields)
    → All (Prints known) fs
    → lines (field_lines fs) ≡ map (λ f. line_of f.0 f.1) fs
unfolding lines field_lines
lines-field_lines known [] p = refl
lines-field_lines known ((k, v) ∷ fs) p =
    ap lines (field_line-append k v (field_lines fs))
    ∙ lines-line (line_of k v) (field_lines fs)
        (line_of-contains k v 10 refl p.0.key.text.no_newline p.0.value.no_newline)
    ∙ ap (◌∷◌ (line_of k v)) (lines-field_lines known fs p.1)

pub length-field_lines :
    (known : List Bytes) (fs : Fields)
    → All (Prints known) fs
    → length (field_lines fs) ≤ max_token * length fs
unfolding field_lines
length-field_lines known [] p = omega arith
length-field_lines known ((k, v) ∷ fs) p = omega (
  arith,
  length-field_lines known fs p.1,
  p.0.short,
  length-append (line_of k v) (10 ∷ field_lines fs),
  ap length (field_line-append k v (field_lines fs)),
)

contains_visible :
    (s : Bytes) (c : ℕ) → is_visible c ≡ false → all is_visible s ≡ true → contains s c ≡ false
unfolding all
contains_visible [] c h k = refl
contains_visible (x ∷ s) c h k = ground (arith, contains_visible s c h)

contains_none :
    (s : Bytes) (c : ℕ)
    → contains (codes "\r\n") c ≡ true
    → contains_any s (codes "\r\n") ≡ false
    → contains s c ≡ false
unfolding contains_any
contains_none [] c h k = refl
contains_none (x ∷ s) c h k = ground (arith, contains_none s c h)

-- A text is a text of ASCII characters that print.
pub IsText_visible : (s : Bytes) → all is_visible s ≡ true → IsText s
IsText_visible s h = record {
  no_newline = contains_visible s 10 refl h;
  no_return = contains_visible s 13 refl h;
  trimmed = IsTrimmed_visible s h;
}

pub all_digits_visible : (s : Bytes) → all is_digit s ≡ true → all is_visible s ≡ true
unfolding all
all_digits_visible [] h = refl
all_digits_visible (c ∷ s) h = ground (arith, all_digits_visible s)

pub IsText-line : (s : Bytes) → IsLine s → IsTrimmed s → IsText s
IsText-line s l t = record {
  no_newline = contains_none s 10 refl l.one_line;
  no_return = contains_none s 13 refl l.one_line;
  trimmed = t;
}

-- The tests that make a text a key.
abbrev pub is_key : Bytes → Bool
is_key k =
    not (contains k 10)
    && not (contains k 13)
    && not (contains k b':')
    && contains ownership_fields k
    && space_width k == 0
    && last_space_width (reverse k) == 0

IsKey-of : (k : Bytes) → is_key k ≡ true → IsKey ownership_fields k
IsKey-of k h = record {
  text = record {
    no_newline = ground arith;
    no_return = ground arith;
    trimmed = record { front = ground arith; back = ground arith };
  };
  no_colon = ground arith;
  is_known = ground arith;
}

pub Prints-of :
    (k v : Bytes)
    → is_key k ≡ true
    → length k ≤ 64
    → IsText v
    → v ≢ []
    → length v ≤ 4096
    → Prints ownership_fields (k, v)
Prints-of k v h short t ne fits = record {
  key = IsKey-of k h;
  value = t;
  filled = ne;
  short = omega (arith, length-append k (b':' ∷ 32 ∷ v));
}

-- What ends in `Z` or an offset is no `none`, and not empty.
pub timezone_not_none : (s : Bytes) → has_timezone s ≡ true → equal_fold s (codes "none") ≡ false
unfolding has_timezone is_offset equal_fold bytes_beq
timezone_not_none [] h = refl
timezone_not_none (a ∷ []) h = ground arith
timezone_not_none (a ∷ b ∷ []) h = ground arith
timezone_not_none (a ∷ b ∷ c ∷ []) h = ground arith
timezone_not_none (a ∷ b ∷ c ∷ d ∷ []) h = ground arith
timezone_not_none (a ∷ b ∷ c ∷ d ∷ e ∷ s) h = ground arith

pub timezone-ne-nil : (s : Bytes) → has_timezone s ≡ true → s ≢ []
unfolding has_timezone is_offset bytes_beq
timezone-ne-nil [] h e = ground arith
timezone-ne-nil (a ∷ s) h e = cons-ne-nil a s e

pub parse_timestamp-format :
    (clock : Clock) (t : Time) → ReadsBack clock t → parse_timestamp clock (clock.format t) ≡ ok t
unfolding parse_timestamp
parse_timestamp-format clock t r = rw (r.zoned, r.reads) refl
