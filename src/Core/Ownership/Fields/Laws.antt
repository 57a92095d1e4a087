-- ===== src/Core/Ownership/Fields/Laws.antt =====
-- Reading back printed fields.
use uawp.Base.{
  length, bytes_eq, nat_eq, ◌++◌, ◌∷◌, [], some, trim_suffix, List, Bytes, ◌≢◌, ℕ, has_prefix,
  contains, codes, ◌≡◌, trim_prefix, ◌<◌, trim_space, false, true, map, arith, refl, ok, ap, subst,
  leb, All,
}
use mathlib.Core.List.{append_assoc, reverse_aux}
use uawp.Core.Ownership.Fields.{read_line, lines, Fields, max_token, read_lines}
use uawp.Base.FilePath.{cut}
use uawp.Base.Trim.{
  IsTrimmed, trim_space_trimmed, trim_space_space, IsTrimmed-after, space_width_visible,
}

-- The line of a field, without the newline.
abbrev pub line_of : Bytes → Bytes → Bytes
line_of key value = codes "- " ++ (key ++ (codes ": " ++ value))

-- What a key or a value has to be for its line to be read back: no line break, and no white space
-- at an end.
pub record IsText (s : Bytes) : Type 0 where
  pub no_newline : contains s 10 ≡ false
  pub no_return : contains s 13 ≡ false
  pub trimmed : IsTrimmed s

pub record IsKey (known : List Bytes) (key : Bytes) : Type 0 where
  pub text : IsText key
  pub no_colon : contains key b':' ≡ false
  pub is_known : contains known key ≡ true

pub record Prints (known : List Bytes) (f : Bytes × Bytes) : Type 0 where
  pub key : IsKey known f.0
  pub value : IsText f.1
  pub filled : f.1 ≢ []
  pub short : length (line_of f.0 f.1) < max_token

contains-append :
    (xs ys : Bytes) (c : ℕ)
    → contains xs c ≡ false
    → contains ys c ≡ false
    → contains (xs ++ ys) c ≡ false
contains-append [] ys c h k = k
contains-append (x ∷ xs) ys c h k = ground (arith, contains-append xs ys c)

pub line_of-contains :
    (k v : Bytes) (c : ℕ)
    → contains (codes "- : ") c ≡ false
    → contains k c ≡ false
    → contains v c ≡ false
    → contains (line_of k v) c ≡ false
line_of-contains k v c h hk hv =
    contains-append (codes "- ") (k ++ (codes ": " ++ v)) c (ground arith) (
      contains-append k (codes ": " ++ v) c hk (contains-append (codes ": ") v c (ground arith) hv))

-- A text with no newline, and a newline, are the first line.
pub lines-line :
    (s rest : Bytes) → contains s 10 ≡ false → lines (s ++ (10 ∷ rest)) ≡ s ∷ lines rest
unfolding lines
lines-line [] rest h = refl
lines-line (x ∷ s) rest h = ground (arith, lines-line s rest)

trim_suffix_absent : (c : ℕ) (s : Bytes) → contains s c ≡ false → trim_suffix c s ≡ s
unfolding trim_suffix
trim_suffix_absent c [] h = refl
trim_suffix_absent c (x ∷ []) h = ground arith
trim_suffix_absent c (x ∷ y ∷ s) h = ap (◌∷◌ x) (trim_suffix_absent c (y ∷ s) (ground arith))

cut-append :
    (sep : ℕ) (s rest : Bytes)
    → contains s sep ≡ false
    → cut sep (s ++ (sep ∷ rest)) ≡ some (s, rest)
unfolding cut
cut-append sep [] rest h = ground arith
cut-append sep (x ∷ s) rest h = ground (arith, cut-append sep s rest)

line_of-trimmed : (k v : Bytes) → v ≢ [] → IsTrimmed v → trim_space (line_of k v) ≡ line_of k v
line_of-trimmed k v ne t =
    let w = codes "- " ++ (k ++ (b':' ∷ [])) in
    let same = ap (λ z. b'-' ∷ 32 ∷ z) (append_assoc k (b':' ∷ []) (32 ∷ v)) in
    subst (λ z. trim_space z ≡ z) same
      (trim_space_trimmed (w ++ (32 ∷ v))
        (IsTrimmed-after w v (space_width_visible b'-' _ refl) ne t))

leb_lt : (n : ℕ) → n < max_token → leb max_token n ≡ false
leb_lt n h = ground arith

-- The line of a field is read as the field.
pub read_line-line_of :
    (known : List Bytes) (f : Bytes × Bytes) (seen : Fields)
    → Prints known f
    → contains (map (λ g. g.0) seen) f.0 ≡ false
    → read_line known (line_of f.0 f.1) seen ≡ ok (f ∷ seen)
unfolding read_line has_prefix trim_prefix
read_line-line_of known (k, v) seen p new =
    rw
      (
        leb_lt _ p.short,
        trim_suffix_absent 13 (line_of k v)
            (line_of-contains k v 13 refl p.key.text.no_return p.value.no_return),
        line_of-trimmed k v p.filled p.value.trimmed,
        cut-append b':' k (32 ∷ v) p.key.no_colon,
        trim_space_trimmed k p.key.text.trimmed,
        trim_space_space v p.value.trimmed,
        p.key.is_known,
        new,
      )
      refl

-- No key occurs twice, nor among those seen.
abbrev pub AreFresh : List Bytes → Fields → Type 0
AreFresh seen [] = Unit
AreFresh seen (f ∷ fs) = (contains seen f.0 ≡ false) × AreFresh (f.0 ∷ seen) fs

-- The lines of fields with different keys are read as the fields, the last one first.
pub read_lines-line_of :
    (known : List Bytes) (fs seen : Fields)
    → All (Prints known) fs
    → AreFresh (map (λ g. g.0) seen) fs
    → read_lines known (map (λ f. line_of f.0 f.1) fs) seen ≡ ok (reverse_aux fs seen)
unfolding read_lines
read_lines-line_of known [] seen p new = refl
read_lines-line_of known (f ∷ fs) seen p new =
    rw (read_line-line_of known f seen p.0 new.0) (read_lines-line_of known fs (f ∷ seen) p.1 new.1)
