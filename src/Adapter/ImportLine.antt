-- ===== src/Adapter/ImportLine.antt =====
-- internal/adapter/import.go: the import line in a file of a tool.
mod Tests
use uawp.Base.{
  trim_suffix, ℕ, zero, suc, ◌+◌, Bool, true, false, not, ◌&&◌, ◌||◌, Option, none, some, List, [],
  ◌∷◌, ◌++◌, ◌==◌, nat_eq, bytes_eq, if◌then◌else◌, ltb, Result, ok, err, ◌>>=◌, ◌>>◌, refuse_if,
  length, Bytes, codes, is_empty, trim_space, has_prefix, contains_any, reverse, take, drop,
}
use uawp.Base.FilePath.{cons_to_first}

pub data ImportError : Type 0 where
  invalid_target duplicate_import : ImportError

-- bytes.SplitAfter for the newline: each line with the newline that ends it.
unfoldable pub split_after : Bytes → List Bytes
split_after [] = [] ∷ []
split_after (x ∷ xs) =
    let rest = split_after xs in if x == 10 then (x ∷ []) ∷ rest else cons_to_first x rest

-- bytes.Contains
unfoldable pub contains_text : Bytes → Bytes → Bool
contains_text [] text = is_empty text
contains_text (x ∷ xs) text = has_prefix (x ∷ xs) text || contains_text xs text

-- The variables of the loop over the lines.
pub record Scan : Type 0 where
  pub offset : ℕ
  pub fenced : Bool
  pub count : ℕ
  pub first : Option ℕ

-- The body of the loop.
unfoldable pub scan_line : Bytes → Bytes → Scan → Scan
scan_line target raw s =
    let line = trim_suffix 13 (trim_suffix 10 raw) in
    let offset = s.offset + length raw in
    if has_prefix (trim_space line) (codes "```")
    then record s { offset = offset; fenced = not s.fenced }
    else if not s.fenced && line == b'@' ∷ target
    then record s {
      offset = offset;
      count = suc s.count;
      first = elim s.first [ none ↦ some s.offset | some earlier ↦ some earlier ];
    }
    else record s { offset = offset }

unfoldable pub scan_lines : Bytes → List Bytes → Scan → Scan
scan_lines target [] s = s
scan_lines target (raw ∷ lines) s = scan_lines target lines (scan_line target raw s)

abbrev pub scan_start : Scan
scan_start = record { offset = 0; fenced = false; count = 0; first = none }

-- The number of import lines outside code fences, and the place of the first.
unfoldable pub import_lines : Bytes → Bytes → ℕ × Option ℕ
import_lines content target =
    let s = scan_lines target (split_after content) scan_start in (s.count, s.first)

abbrev pub newline_of : Bytes → Bytes
newline_of content = if contains_text content (13 ∷ 10 ∷ []) then 13 ∷ 10 ∷ [] else 10 ∷ []

unfoldable pub upsert_import : Bytes → Bytes → Result ImportError (Bytes × Bool)
upsert_import content target = do
  refuse_if (is_empty target || contains_any target (13 ∷ 10 ∷ [])) invalid_target
  let (count, first) = import_lines content target
  refuse_if (ltb 1 count) duplicate_import
  elim first [
    | some start ↦ ok (content, false)
    | none ↦
        let before = if is_empty content then [] else content ++ newline_of content in
        ok (before ++ (b'@' ∷ target), true)
  ]

-- What follows the line that begins here: the loop that looks for its end.
unfoldable pub after_line : Bytes → Bytes
after_line [] = []
after_line (x ∷ xs) = if x == 10 then xs else after_line xs

-- The text without the newline that ends it.
abbrev pub ends_with_newline : Bytes → Bool
ends_with_newline text = has_prefix (reverse text) (10 ∷ [])

unfoldable pub without_newline : Bytes → Bytes
without_newline text = if ends_with_newline text then trim_suffix 13 (trim_suffix 10 text) else text

unfoldable pub remove_import : Bytes → Bytes → Result ImportError (Bytes × Bool)
remove_import content target = do
  let (count, first) = import_lines content target
  refuse_if (ltb 1 count) duplicate_import
  elim first [
    | none ↦ ok (content, false)
    | some start ↦
        ok (without_newline (take start content) ++ after_line (drop start content), true)
  ]
