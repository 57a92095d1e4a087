-- ===== src/Adapter/Block.antt =====
-- internal/adapter/block.go: the block between two markers that UAWP keeps in a file of a tool.
pub mod Laws
pub mod RoundTrip
mod Tests
use uawp.Base.{
  ℕ, zero, suc, ◌+◌, ◌-◌, Bool, true, false, not, ◌&&◌, ◌||◌, Option, none, some, List, [], ◌∷◌,
  ◌++◌, ◌==◌, ◌/=◌, nat_eq, bytes_eq, if◌then◌else◌, ltb, leb, Result, ok, err, ◌>>=◌, ◌>>◌,
  refuse_if, length, Bytes, codes, is_empty, has_prefix, take, drop, bytes_ltb,
}
use uawp.Base.FilePath.{join}
use uawp.Base.Sort.{sort}
use uawp.Adapter.ImportLine.{contains_text}

pub data BlockError : Type 0 where
  duplicate_markers missing_end nested_marker drift orphan_end block_missing : BlockError

pub record BlockSpec : Type 0 where
  pub artifact_id : Bytes
  pub target : Bytes
  pub consumers : List Bytes
  pub body : Bytes

pub record BlockMeta : Type 0 where
  pub outside_sha256 : Bytes

-- bytes.Count, for a text that does not overlap itself.
unfoldable pub count_text : Bytes → Bytes → ℕ
count_text [] text = 0
count_text (x ∷ xs) text =
    let rest = count_text xs text in if has_prefix (x ∷ xs) text then suc rest else rest

-- bytes.Index
unfoldable pub index_text : Bytes → Bytes → Option ℕ
index_text [] text = if is_empty text then some 0 else none
index_text (x ∷ xs) text =
    let rest = index_text xs text in
    if has_prefix (x ∷ xs) text then some 0 else elim rest [ none ↦ none | some i ↦ some (suc i) ]

abbrev pub begin_marker : Bytes
begin_marker = codes "<!-- UAWP:BEGIN"

abbrev pub end_marker : Bytes
end_marker = codes "<!-- UAWP:END"

abbrev pub end_of : BlockSpec → Bytes
end_of spec = codes "<!-- UAWP:END artifact=" ++ (spec.artifact_id ++ codes " -->")

-- The line end of the file.
abbrev pub line_end : Bytes → Bytes
line_end content = if contains_text content (13 ∷ 10 ∷ []) then 13 ∷ 10 ∷ [] else 10 ∷ []

unfoldable pub block_bytes : BlockSpec → Bytes → Bytes
block_bytes spec nl =
    codes "<!-- UAWP:BEGIN artifact="
    ++ (spec.artifact_id
        ++ (codes " schema=1 target="
            ++ (spec.target
                ++ (codes " consumers="
                    ++ (join (codes ",") (sort bytes_ltb spec.consumers)
                        ++ (codes " -->" ++ (nl ++ (spec.body ++ (nl ++ end_of spec)))))))))

unfoldable pub strip_block_delimiter : Bytes → ℕ → Bytes → Bytes
strip_block_delimiter content start nl =
    if leb (length nl) start && leb start (length content)
    then take (start - length nl) content ++ drop start content
    else content

-- `content[from:to]`
abbrev slice : Bytes → ℕ → ℕ → Bytes
slice content from to = take (to - from) (drop from content)

module _ (hash_bytes : Bytes → Bytes) where
  -- The case of a file that has a block, which starts at `start`.
  unfoldable pub check_block : Bytes → BlockSpec → Bytes → ℕ → Result BlockError (Bytes × BlockMeta)
  check_block content spec nl start = do
    from_start ← elim (index_text (drop start content) (end_of spec)) [
      | none ↦ err missing_end
      | some i ↦ ok i
    ]
    let end = start + from_start + length (end_of spec)
    refuse_if
        (contains_text (slice content (start + length begin_marker) (end - length (end_of spec)))
          begin_marker)
        nested_marker
    refuse_if (slice content start end /= block_bytes spec nl) drift
    let outside = take start content ++ drop end content
    ok (content, record { outside_sha256 = hash_bytes (strip_block_delimiter outside start nl) })

  unfoldable pub upsert_managed_block : Bytes → BlockSpec → Result BlockError (Bytes × BlockMeta)
  unfolding check_block
  upsert_managed_block content spec = do
    let nl = line_end content
    let count = count_text content begin_marker
    refuse_if (ltb 1 count || ltb 1 (count_text content end_marker)) duplicate_markers
    if count == 1
        then elim (index_text content begin_marker) [
          | none ↦ err missing_end
          | some start ↦ check_block content spec nl start
        ]
        else (do
          refuse_if (contains_text content end_marker) orphan_end
          let out = if is_empty content then content else content ++ nl
          ok (out ++ block_bytes spec nl, record { outside_sha256 = hash_bytes content }))

unfoldable pub remove_managed_block : Bytes → BlockSpec → Result BlockError Bytes
remove_managed_block content spec = do
  let nl = line_end content
  let want = block_bytes spec nl
  start ← elim (index_text content want) [ none ↦ err block_missing | some i ↦ ok i ]
  refuse_if (count_text content begin_marker /= 1 || count_text content end_marker /= 1)
      block_missing
  let out = take start content ++ drop (start + length want) content
  ok (strip_block_delimiter out start nl)
