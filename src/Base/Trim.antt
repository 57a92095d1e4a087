-- ===== src/Base/Trim.antt =====
-- strings.TrimSpace, as lemmas on what it leaves.
use uawp.Base.{
  reverse, ◌-◌, ◌++◌, zero, suc, inl, inr, ◌∷◌, [], nat_eq, trim_space, trim_by, space_width, Bytes,
  ◌≢◌, ◌≡◌, ℕ, last_space_width, arith, refl, Bool-cases, ◌==◌, sym, ap, ◌∙◌, true, Bool, leb, ◌&&◌,
  false,
}
use uawp.Base.Pattern.{all}
use mathlib.Core.List.{
  reverse-cons, append_assoc, cons-ne-nil, reverse-reverse, reverse-append, reverse_aux,
}
use uawp.Base.Text.{bytes_eq}

-- Neither end of the text is white space.
pub record IsTrimmed (s : Bytes) : Type 0 where
  pub front : space_width s ≡ 0
  pub back : last_space_width (reverse s) ≡ 0

trim_by-done :
    (width : Bytes → ℕ) → width [] ≡ 0 → (skip : ℕ) (s : Bytes) → width (trim_by width skip s) ≡ 0
unfolding trim_by
trim_by-done width e skip [] = e
trim_by-done width e (suc skip) (x ∷ xs) = trim_by-done width e skip xs
trim_by-done width e zero (x ∷ xs) = elim (Bool-cases (width (x ∷ xs) == 0)) [
  | inl h ↦ ground arith
  | inr h ↦ ground (arith, trim_by-done width e (width (x ∷ xs) - 1) xs)
]

trim_by-keeps : (width : Bytes → ℕ) (s : Bytes) → width s ≡ 0 → trim_by width 0 s ≡ s
unfolding trim_by
trim_by-keeps width [] h = refl
trim_by-keeps width (x ∷ xs) h = ground arith

-- What is white space at the front of a text is so in front of more text.
space_width-append : (s w : Bytes) → s ≢ [] → space_width (s ++ w) ≡ 0 → space_width s ≡ 0
unfolding space_width
space_width-append [] w ne h = absurd (ne refl)
space_width-append (a ∷ []) [] ne h = h
space_width-append (a ∷ []) (x ∷ []) ne h = ground arith
space_width-append (a ∷ []) (x ∷ y ∷ w) ne h = ground arith
space_width-append (a ∷ b ∷ []) [] ne h = h
space_width-append (a ∷ b ∷ []) (x ∷ w) ne h = ground arith
space_width-append (a ∷ b ∷ c ∷ s) w ne h = h

-- A trimmed text is left alone.
pub trim_space_trimmed : (s : Bytes) → IsTrimmed s → trim_space s ≡ s
unfolding trim_space
trim_space_trimmed s t =
    rw (trim_by-keeps space_width s t.front, trim_by-keeps last_space_width (reverse s) t.back)
      (reverse-reverse s)

-- What is trimmed is a part of the text up to its end.
trim_by-suffix :
    (width : Bytes → ℕ) (skip : ℕ) (s : Bytes) → (d : Bytes) × (s ≡ d ++ trim_by width skip s)
unfolding trim_by
trim_by-suffix width skip [] = ([], refl)
trim_by-suffix width (suc skip) (x ∷ xs) =
    let (d, e) = trim_by-suffix width skip xs in (x ∷ d, ap (◌∷◌ x) e)
trim_by-suffix width zero (x ∷ xs) = elim (Bool-cases (width (x ∷ xs) == 0)) [
  | inl h ↦ ([], ground arith)
  | inr h ↦
      let (d, e) = trim_by-suffix width (width (x ∷ xs) - 1) xs in (x ∷ d, rw h (ap (◌∷◌ x) e))
]

reverse-ne-nil : (s : Bytes) → s ≢ [] → reverse s ≢ []
reverse-ne-nil s ne e = ne (sym (reverse-reverse s) ∙ ap reverse e)

front_kept : (r d t : Bytes) → reverse t ≡ d ++ r → space_width t ≡ 0 → space_width (reverse r) ≡ 0
unfolding space_width
front_kept [] d t e h = refl
front_kept (x ∷ r) d t e h =
    space_width-append (reverse (x ∷ r)) (reverse d) (reverse-ne-nil (x ∷ r) (cons-ne-nil x r))
      (ap space_width (sym (reverse-append d (x ∷ r)) ∙ ap reverse (sym e) ∙ reverse-reverse t) ∙ h)

-- Trimming leaves a trimmed text.
pub trim_space-IsTrimmed : (s : Bytes) → IsTrimmed (trim_space s)
unfolding trim_space
trim_space-IsTrimmed s =
    let t = trim_by space_width 0 s in
    let r = trim_by last_space_width 0 (reverse t) in
    let (d, e) = trim_by-suffix last_space_width 0 (reverse t) in
    record {
      front = front_kept r d t e (trim_by-done space_width refl 0 s);
      back =
          ap last_space_width (reverse-reverse r)
          ∙ trim_by-done last_space_width refl 0 (reverse t);
    }

last_space_width-over :
    (u w : Bytes) → u ≢ [] → last_space_width u ≡ 0 → last_space_width (u ++ (32 ∷ w)) ≡ 0
unfolding last_space_width space_width
last_space_width-over [] w ne h = absurd (ne refl)
last_space_width-over (a ∷ []) [] ne h = ground arith
last_space_width-over (a ∷ []) (x ∷ w) ne h = ground arith
last_space_width-over (a ∷ b ∷ []) w ne h = ground arith
last_space_width-over (a ∷ b ∷ c ∷ u) w ne h = h

-- A text whose last part, after a space, is trimmed.
pub IsTrimmed-after :
    (w v : Bytes)
    → space_width (w ++ (32 ∷ v)) ≡ 0
    → v ≢ []
    → IsTrimmed v
    → IsTrimmed (w ++ (32 ∷ v))
IsTrimmed-after w v h ne t = record {
  front = h;
  back =
      ap last_space_width (
        reverse-append w (32 ∷ v)
        ∙ (ap (λ z. z ++ reverse w) (reverse-cons 32 v)
            ∙ append_assoc (reverse v) (32 ∷ []) (reverse w)))
      ∙ last_space_width-over (reverse v) (reverse w) (reverse-ne-nil v ne) t.back;
}

-- The white space in front goes away.
space_width-space : (v : Bytes) → space_width (32 ∷ v) ≡ 1
unfolding space_width
space_width-space [] = refl
space_width-space (a ∷ []) = refl
space_width-space (a ∷ b ∷ v) = refl

trim_by_space : (v : Bytes) → space_width v ≡ 0 → trim_by space_width 0 (32 ∷ v) ≡ v
unfolding trim_by
trim_by_space v h = rw (space_width-space v) (trim_by-keeps space_width v h)

-- A space in front goes away.
pub trim_space_space : (v : Bytes) → IsTrimmed v → trim_space (32 ∷ v) ≡ v
unfolding trim_space
trim_space_space v t =
    rw (trim_by_space v t.front)
      (rw (trim_by-keeps last_space_width (reverse v) t.back) (reverse-reverse v))

-- An ASCII character that prints, and is no space.
abbrev pub is_visible : ℕ → Bool
is_visible c = leb 33 c && leb c 126

pub space_width_visible : (c : ℕ) (s : Bytes) → is_visible c ≡ true → space_width (c ∷ s) ≡ 0
unfolding space_width
space_width_visible c [] h = ground arith
space_width_visible c (b ∷ []) h = ground arith
space_width_visible c (b ∷ a ∷ s) h = ground arith

pair_visible : (b c : ℕ) → is_visible c ≡ true → (space_width (b ∷ c ∷ []) == 2) ≡ false
unfolding space_width
pair_visible b c h = ground arith

triple_visible : (a b c : ℕ) → is_visible c ≡ true → (space_width (a ∷ b ∷ c ∷ []) == 3) ≡ false
unfolding space_width
triple_visible a b c h = ground arith

last_space_width_visible : (c : ℕ) (s : Bytes) → is_visible c ≡ true → last_space_width (c ∷ s) ≡ 0
unfolding last_space_width
last_space_width_visible c [] h = space_width_visible c [] h
last_space_width_visible c (b ∷ []) h = rw (space_width_visible c [] h, pair_visible b c h) refl
last_space_width_visible c (b ∷ a ∷ s) h =
    rw (space_width_visible c [] h, pair_visible b c h, triple_visible a b c h) refl

all-reverse_aux :
    (p : ℕ → Bool) (s t : Bytes) → all p s ≡ true → all p t ≡ true → all p (reverse_aux s t) ≡ true
unfolding all
all-reverse_aux p [] t h k = k
all-reverse_aux p (x ∷ s) t h k = all-reverse_aux p s (x ∷ t) (ground arith) (ground arith)

front_visible : (s : Bytes) → all is_visible s ≡ true → space_width s ≡ 0
unfolding all space_width
front_visible [] h = refl
front_visible (c ∷ s) h = space_width_visible c s (ground arith)

back_visible : (s : Bytes) → all is_visible s ≡ true → last_space_width s ≡ 0
unfolding all last_space_width
back_visible [] h = refl
back_visible (c ∷ s) h = last_space_width_visible c s (ground arith)

pub IsTrimmed_visible : (s : Bytes) → all is_visible s ≡ true → IsTrimmed s
unfolding all
IsTrimmed_visible s h = record {
  front = front_visible s h;
  back = back_visible (reverse s) (all-reverse_aux is_visible s [] h refl);
}
