-- ===== src/Adapter/Block/Laws.antt =====
-- Putting a block into a file.
use uawp.Base.{
  Option-cases, ◌==◌, nat_eq, ◌≡◌, ◌⊎◌, inl, inr, arith, ok, Bytes, ◌++◌, is_empty, if◌then◌else◌,
  Bool-cases,
}
use uawp.Adapter.Block.{
  count_text, index_text, begin_marker, BlockSpec, BlockMeta, upsert_managed_block, check_block,
  line_end, block_bytes, ℕ,
}

check_block-keeps :
    (hash_bytes : Bytes → Bytes) (content nl out : Bytes) (spec : BlockSpec) (start : ℕ)
    (meta : BlockMeta)
    → check_block hash_bytes content spec nl start ≡ ok (out, meta)
    → out ≡ content
unfolding check_block
check_block-keeps hash_bytes content nl out spec start meta h = ground arith

-- The file is left as it is, or the block is put behind it, after a line end if there is anything.
upsert_managed_block-keeps :
    (hash_bytes : Bytes → Bytes) (content out : Bytes) (spec : BlockSpec) (meta : BlockMeta)
    → upsert_managed_block hash_bytes content spec ≡ ok (out, meta)
    → (out ≡ content)
      ⊎ ((out
            ≡ (if is_empty content then content else content ++ line_end content)
              ++ block_bytes spec (line_end content))
          × (meta.outside_sha256 ≡ hash_bytes content))
unfolding upsert_managed_block
upsert_managed_block-keeps hash_bytes content out spec meta h =
    elim (Bool-cases (count_text content begin_marker == 1)) [
      | inl one ↦ elim (Option-cases (index_text content begin_marker)) [
        | inl e ↦ absurd (ground arith)
        | inr (start, e) ↦ inl (
            check_block-keeps hash_bytes content (line_end content) out spec start meta
              (ground arith))
      ]
      | inr other ↦ inr (ground arith)
    ]
