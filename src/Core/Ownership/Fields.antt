-- ===== src/Core/Ownership/Fields.antt =====
-- The lines of a claim file, `- Key: value`, as internal/core/ownership_codec.go and
-- internal/migration/v1_1_to_v1_2.go read them into a map.
pub mod Laws
use uawp.Base.{
  trim_suffix, ℕ, Bool, true, false, not, Option, none, some, List, [], ◌∷◌, ◌++◌, ◌==◌, bytes_eq,
  nat_eq, leb, if◌then◌else◌, Result, ok, err, ◌>>=◌, ◌>>◌, refuse_if, Bytes, codes, trim_space,
  has_prefix, trim_prefix, contains, length, map, ◌&&◌,
}
use uawp.Base.FilePath.{cons_to_first, cut}

-- The map of the fields that were read.
abbrev pub Fields : Type 0
Fields = List (Bytes × Bytes)

pub data FieldError : Type 0 where
  line_too_long malformed_field unknown_field duplicate_field missing_field : FieldError

-- What bufio.Scanner calls a line: the last one need not end with a newline.
unfoldable pub lines : Bytes → List Bytes
lines [] = []
lines (x ∷ xs) = let rest = lines xs in if x == 10 then [] ∷ rest else cons_to_first x rest

-- bufio.MaxScanTokenSize, the size of the scanner's buffer: a newline has to be found in it.
abbrev pub max_token : ℕ
max_token = 65536

unfoldable pub field : Fields → Bytes → Option Bytes
field [] key = none
field ((k, v) ∷ fields) key = if k == key then some v else field fields key

-- The body of the loop over the lines.
unfoldable pub read_line : List Bytes → Bytes → Fields → Result FieldError Fields
read_line known raw fields = do
  refuse_if (leb max_token (length raw)) line_too_long
  let line = trim_space (trim_suffix 13 raw)
  if not (has_prefix line (codes "- "))
      then ok fields
      else elim (cut b':' (trim_prefix line (codes "- "))) [
        | none ↦ err malformed_field
        | some (before, after) ↦ do
          let key = trim_space before
          refuse_if (not (contains known key)) unknown_field
          refuse_if (contains (map (λ f. f.0) fields) key) duplicate_field
          ok ((key, trim_space after) ∷ fields)
      ]

unfoldable pub read_lines : List Bytes → List Bytes → Fields → Result FieldError Fields
read_lines known [] fields = ok fields
read_lines known (raw ∷ rest) fields = do
  more ← read_line known raw fields
  read_lines known rest more

-- The loop over the known fields.
unfoldable pub has_all : List Bytes → Fields → Bool
has_all [] fields = true
has_all (key ∷ known) fields = contains (map (λ f. f.0) fields) key && has_all known fields

unfoldable pub read_fields : List Bytes → Bytes → Result FieldError Fields
read_fields known content = do
  fields ← read_lines known (lines content) []
  refuse_if (not (has_all known fields)) missing_field
  ok fields

-- `fields[key]`, which is empty where there is none.
unfoldable pub field_text : Fields → Bytes → Bytes
field_text fields key = elim (field fields key) [ none ↦ [] | some value ↦ value ]
