-- ===== src/Adapter/Block/RoundTrip.antt =====
-- Removing a block that was put into a file.
use uawp.Base.{
  ◌⊎◌, is_empty, if◌then◌else◌, codes, subst, ◌∙◌, has_prefix-append, has_prefix_refl, ◌-◌, ap, ℕ,
  ◌+◌, ◌≡◌, refl, arith, true, false, some, [], ◌∷◌, ◌++◌, Bytes, has_prefix, contains, bytes_eq,
  nat_eq, nat_beq_iff, length, take, drop, length-append, leb, sym, ◌&&◌, inl, inr,
}
use uawp.Adapter.ImportLine.{contains_text}
use uawp.Adapter.Block.{
  BlockMeta, upsert_managed_block, BlockSpec, block_bytes, line_end, remove_managed_block,
  strip_block_delimiter, count_text, index_text, begin_marker, end_marker, ok,
}

-- What holds no `sep` does not go over one.
has_prefix-over :
    (sep : ℕ) (xs w m : Bytes)
    → contains m sep ≡ false
    → has_prefix (xs ++ (sep ∷ w)) m ≡ has_prefix xs m
unfolding has_prefix
has_prefix-over sep [] w [] h = refl
has_prefix-over sep [] w (y ∷ m) h = ground (arith, nat_beq_iff sep y, nat_beq_iff y sep)
has_prefix-over sep (x ∷ xs) w [] h = refl
has_prefix-over sep (x ∷ xs) w (y ∷ m) h = ground (arith, has_prefix-over sep xs w m)

has_prefix-empty : (a : ℕ) (m : Bytes) → has_prefix [] (a ∷ m) ≡ false
unfolding has_prefix
has_prefix-empty a m = refl

count_text-over :
    (sep a : ℕ) (xs w m : Bytes)
    → contains (a ∷ m) sep ≡ false
    → count_text (xs ++ (sep ∷ w)) (a ∷ m) ≡ count_text xs (a ∷ m) + count_text w (a ∷ m)
unfolding count_text
count_text-over sep a [] w m h =
    ground (arith, has_prefix-over sep [] w (a ∷ m) h, has_prefix-empty a m)
count_text-over sep a (x ∷ xs) w m h =
    ground (arith, has_prefix-over sep (x ∷ xs) w (a ∷ m) h, count_text-over sep a xs w m h)

index_text-over :
    (sep a : ℕ) (xs w m want : Bytes)
    → contains (a ∷ m) sep ≡ false
    → count_text xs (a ∷ m) ≡ 0
    → ((t : Bytes) → has_prefix t want ≡ true → has_prefix t (a ∷ m) ≡ true)
    → index_text w want ≡ some 0
    → index_text (xs ++ (sep ∷ w)) want ≡ some (length xs + 1)
unfolding index_text count_text
index_text-over sep a [] w m want h c k i =
    ground (arith, has_prefix-over sep [] w (a ∷ m) h, has_prefix-empty a m, k (sep ∷ w))
index_text-over sep a (x ∷ xs) w m want h c k i = ground (
  arith,
  has_prefix-over sep (x ∷ xs) w (a ∷ m) h,
  k (x ∷ (xs ++ (sep ∷ w))),
  index_text-over sep a xs w m want h (ground arith) k i,
)

take-length : (xs ys : Bytes) → take (length xs) (xs ++ ys) ≡ xs
take-length [] ys = refl
take-length (x ∷ xs) ys = ap (◌∷◌ x) (take-length xs ys)

drop-length : (xs ys : Bytes) → drop (length xs) (xs ++ ys) ≡ ys
drop-length [] ys = refl
drop-length (x ∷ xs) ys = drop-length xs ys

drop_all : (xs : Bytes) → drop (length xs) xs ≡ []
drop_all [] = refl
drop_all (x ∷ xs) = drop_all xs

append_nil : (xs : Bytes) → xs ++ [] ≡ xs
append_nil [] = refl
append_nil (x ∷ xs) = ap (◌∷◌ x) (append_nil xs)

append_assoc : (xs ys zs : Bytes) → (xs ++ ys) ++ zs ≡ xs ++ (ys ++ zs)
append_assoc [] ys zs = refl
append_assoc (x ∷ xs) ys zs = ap (◌∷◌ x) (append_assoc xs ys zs)

count_text_absent :
    (a : ℕ) (xs m : Bytes) → contains_text xs (a ∷ m) ≡ false → count_text xs (a ∷ m) ≡ 0
unfolding contains_text count_text
count_text_absent a [] m h = refl
count_text_absent a (x ∷ xs) m h = ground (arith, count_text_absent a xs m)

strip-whole :
    (content nl : Bytes)
    → strip_block_delimiter (content ++ nl) (length (content ++ nl)) nl ≡ content
unfolding strip_block_delimiter
strip-whole content nl =
    let sum = length-append content nl in
    let kept : length (content ++ nl) - length nl ≡ length content = omega (arith, sum) in
    let fits : leb (length nl) (length (content ++ nl))
          && leb (length (content ++ nl)) (length (content ++ nl))
        ≡ true =
      ground (arith, sum) in
    rw fits (rw kept (rw (take-length content nl, drop_all (content ++ nl)) (append_nil content)))

-- What is left of a file that ends with the block.
remove_at :
    (pre out nl : Bytes) (spec : BlockSpec)
    → out ≡ pre ++ block_bytes spec nl
    → line_end out ≡ nl
    → index_text out (block_bytes spec nl) ≡ some (length pre)
    → count_text out begin_marker ≡ 1
    → count_text out end_marker ≡ 1
    → remove_managed_block out spec ≡ ok (strip_block_delimiter pre (length pre) nl)
unfolding remove_managed_block
remove_at pre out nl spec o l i b e =
    let want = block_bytes spec nl in
    let first : take (length pre) out ≡ pre = rw o (take-length pre want) in
    let behind : drop (length pre + length want) out ≡ [] =
      rw (o, sym (length-append pre want)) (drop_all (pre ++ want)) in
    rw (l, i, b, e, first, behind, append_nil pre) refl

index_text_self :
    (begin rest : Bytes) (x : ℕ) → index_text (x ∷ (begin ++ rest)) (x ∷ (begin ++ rest)) ≡ some 0
unfolding index_text
index_text_self begin rest x =
    let whole : has_prefix (x ∷ (begin ++ rest)) (x ∷ (begin ++ rest)) ≡ true =
      subst (λ t. has_prefix t (x ∷ (begin ++ rest)) ≡ true) (append_nil (x ∷ (begin ++ rest)))
        (has_prefix_refl (x ∷ (begin ++ rest)) []) in
    rw whole refl

block_bytes_begins :
    (spec : BlockSpec) (nl : Bytes) → (rest : Bytes) × (block_bytes spec nl ≡ begin_marker ++ rest)
unfolding block_bytes
block_bytes_begins spec nl = (_, refl)

-- The same, where a newline stands before the block and no marker before that.
remove_after :
    (xs out nl : Bytes) (spec : BlockSpec)
    → out ≡ (xs ++ (10 ∷ [])) ++ block_bytes spec nl
    → line_end out ≡ nl
    → count_text xs begin_marker ≡ 0
    → count_text xs end_marker ≡ 0
    → count_text (block_bytes spec nl) begin_marker ≡ 1
    → count_text (block_bytes spec nl) end_marker ≡ 1
    → remove_managed_block out spec
      ≡ ok (strip_block_delimiter (xs ++ (10 ∷ [])) (length (xs ++ (10 ∷ []))) nl)
remove_after xs out nl spec o l b e wb we =
    let want = block_bytes spec nl in
    let split : out ≡ xs ++ (10 ∷ want) = o ∙ append_assoc xs (10 ∷ []) want in
    let (rest, begins) = block_bytes_begins spec nl in
    let at : index_text out want ≡ some (length (xs ++ (10 ∷ []))) =
      rw (split, length-append xs (10 ∷ []))
        (index_text-over 10 b'<' xs want (codes "!-- UAWP:BEGIN") want refl b
          (λ t h.
            has_prefix-append t begin_marker rest (subst (λ v. has_prefix t v ≡ true) begins h))
          (rw begins (index_text_self (codes "!-- UAWP:BEGIN") rest b'<'))) in
    remove_at (xs ++ (10 ∷ [])) out nl spec o l at
      (rw (split, count_text-over 10 b'<' xs want (codes "!-- UAWP:BEGIN") refl, b, wb) refl)
      (rw (split, count_text-over 10 b'<' xs want (codes "!-- UAWP:END") refl, e, we) refl)

fresh :
    (hash_bytes : Bytes → Bytes) (content out : Bytes) (spec : BlockSpec) (meta : BlockMeta)
    → count_text content begin_marker ≡ 0
    → upsert_managed_block hash_bytes content spec ≡ ok (out, meta)
    → (out
        ≡ (if is_empty content then content else content ++ line_end content)
          ++ block_bytes spec (line_end content))
      × (count_text content end_marker ≡ 0)
unfolding upsert_managed_block
fresh hash_bytes content out spec meta b h =
    (ground arith, count_text_absent b'<' content (codes "!-- UAWP:END") (ground arith))

line_ends : (content : Bytes) → (line_end content ≡ 10 ∷ []) ⊎ (line_end content ≡ 13 ∷ 10 ∷ [])
line_ends content = ground arith

remove_from :
    (content out nl : Bytes) (spec : BlockSpec)
    → out ≡ (content ++ nl) ++ block_bytes spec nl
    → ((nl ≡ 10 ∷ []) ⊎ (nl ≡ 13 ∷ 10 ∷ []))
    → line_end out ≡ nl
    → count_text content begin_marker ≡ 0
    → count_text content end_marker ≡ 0
    → count_text (block_bytes spec nl) begin_marker ≡ 1
    → count_text (block_bytes spec nl) end_marker ≡ 1
    → remove_managed_block out spec ≡ ok content
unfolding count_text
remove_from content out nl spec o (inl n) l b e wb we =
    let pre : content ++ nl ≡ content ++ (10 ∷ []) = ap (λ v. content ++ v) n in
    remove_after content out nl spec (o ∙ ap (λ v. v ++ block_bytes spec nl) pre) l b e wb we
    ∙ ap ok (ap (λ v. strip_block_delimiter v (length v) nl) (sym pre) ∙ strip-whole content nl)
remove_from content out nl spec o (inr n) l b e wb we =
    let pre : content ++ nl ≡ (content ++ (13 ∷ [])) ++ (10 ∷ []) =
      ap (λ v. content ++ v) n ∙ sym (append_assoc content (13 ∷ []) (10 ∷ [])) in
    remove_after (content ++ (13 ∷ [])) out nl spec (o ∙ ap (λ v. v ++ block_bytes spec nl) pre) l
      (count_text-over 13 b'<' content [] (codes "!-- UAWP:BEGIN") refl ∙ none_more b)
      (count_text-over 13 b'<' content [] (codes "!-- UAWP:END") refl ∙ none_more e) wb we
    ∙ ap ok (ap (λ v. strip_block_delimiter v (length v) nl) (sym pre) ∙ strip-whole content nl)
  where
    none_more : {n : ℕ} → n ≡ 0 → n + 0 ≡ 0
    none_more h = omega (arith, h)

-- A block that is put into a file without one is removed again, and the file is as it was: where the
-- block has one marker of each kind, and the file with the block has the same line end.
pub remove-upsert_managed_block :
    (hash_bytes : Bytes → Bytes) (content out : Bytes) (spec : BlockSpec) (meta : BlockMeta)
    → count_text content begin_marker ≡ 0
    → count_text (block_bytes spec (line_end content)) begin_marker ≡ 1
    → count_text (block_bytes spec (line_end content)) end_marker ≡ 1
    → line_end out ≡ line_end content
    → upsert_managed_block hash_bytes content spec ≡ ok (out, meta)
    → remove_managed_block out spec ≡ ok content
unfolding strip_block_delimiter contains_text
remove-upsert_managed_block hash_bytes [] out spec meta b wb we l h =
    let (o, e) = fresh hash_bytes [] out spec meta b h in
    let (rest, begins) = block_bytes_begins spec (10 ∷ []) in
    remove_at [] out (10 ∷ []) spec o l
      (rw (o, begins) (index_text_self (codes "!-- UAWP:BEGIN") rest b'<')) (rw o wb) (rw o we)
remove-upsert_managed_block hash_bytes (x ∷ xs) out spec meta b wb we l h =
    let (o, e) = fresh hash_bytes (x ∷ xs) out spec meta b h in
    remove_from (x ∷ xs) out (line_end (x ∷ xs)) spec o (line_ends (x ∷ xs)) l b e wb we
