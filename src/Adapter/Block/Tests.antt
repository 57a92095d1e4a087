-- ===== src/Adapter/Block/Tests.antt =====
-- Runs of the block.
use uawp.Adapter.Block.RoundTrip.{remove-upsert_managed_block}
use uawp.Base.{
  ◌≡◌, refl, ok, err, Bytes, codes, ◌++◌, ◌∷◌, [], Result, bytes_beq, bytes_ltb, has_prefix,
}
use uawp.Base.FilePath.{join}
use uawp.Base.Sort.{sort}
use uawp.Plan.Sample.{sample_hash}
use uawp.Adapter.ImportLine.{contains_text}
use uawp.Adapter.Block.{
  BlockSpec, BlockMeta, BlockError, block_missing, duplicate_markers, upsert_managed_block,
  remove_managed_block, check_block, block_bytes, count_text, index_text, strip_block_delimiter,
}

abbrev spec : BlockSpec
spec = record {
  artifact_id = codes "a";
  target = codes "AGENTS.md";
  consumers = codes "z" ∷ codes "c" ∷ [];
  body = codes "@p";
}

abbrev text : Bytes
text = codes "mine" ++ (10 ∷ [])

block : Bytes
unfolding block_bytes join sort bytes_ltb
block = block_bytes spec (10 ∷ [])

upsert : Bytes → Result BlockError (Bytes × BlockMeta)
unfolding upsert_managed_block check_block block count_text index_text strip_block_delimiter
    contains_text has_prefix bytes_beq
upsert content = upsert_managed_block sample_hash content spec

remove : Bytes → Result BlockError Bytes
unfolding upsert remove_managed_block
remove content = remove_managed_block content spec

put : upsert text ≡ ok (text ++ (10 ∷ block), record { outside_sha256 = sample_hash text })
unfolding upsert
put = refl

put_again :
    upsert (text ++ (10 ∷ block))
    ≡ ok (text ++ (10 ∷ block), record { outside_sha256 = sample_hash text })
unfolding upsert
put_again = refl

taken_away : remove (text ++ (10 ∷ block)) ≡ ok text
unfolding remove
taken_away = refl

two_blocks : upsert (block ++ block) ≡ err duplicate_markers
unfolding upsert
two_blocks = refl

none_there : remove text ≡ err block_missing
unfolding remove
none_there = refl

put_in :
    upsert_managed_block sample_hash text spec
    ≡ ok (text ++ (10 ∷ block), record { outside_sha256 = sample_hash text })
unfolding upsert
put_in = refl

remove-upsert_managed_block_example : remove_managed_block (text ++ (10 ∷ block)) spec ≡ ok text
unfolding upsert
remove-upsert_managed_block_example =
    remove-upsert_managed_block sample_hash text (text ++ (10 ∷ block)) spec
      (record { outside_sha256 = sample_hash text }) refl refl refl refl put_in
