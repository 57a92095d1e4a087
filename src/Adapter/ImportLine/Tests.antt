-- ===== src/Adapter/ImportLine/Tests.antt =====
-- Runs of the import code.
use uawp.Base.{
  trim_suffix, ◌≡◌, refl, Bool, true, false, codes, Bytes, ok, Result, bytes_beq, trim_space,
  has_prefix, contains_any,
}
use uawp.Adapter.ImportLine.{
  ImportError, split_after, contains_text, scan_line, scan_lines, import_lines, upsert_import,
  after_line, without_newline, remove_import,
}

-- Unfolding these opens all that a run calls.
found : Bytes → Bytes → Result ImportError (Bytes × Bool)
unfolding upsert_import import_lines scan_lines scan_line split_after trim_suffix contains_text
    trim_space has_prefix contains_any bytes_beq
found = upsert_import

removed : Bytes → Bytes → Result ImportError (Bytes × Bool)
unfolding remove_import import_lines scan_lines scan_line split_after trim_suffix trim_space
    has_prefix bytes_beq after_line without_newline
removed = remove_import

appended : upsert_import (codes "a\n") (codes "t") ≡ ok (codes "a\n\n@t", true)
unfolding found
appended = refl

found_again : upsert_import (codes "a\n\n@t") (codes "t") ≡ ok (codes "a\n\n@t", false)
unfolding found
found_again = refl

taken_back : remove_import (codes "a\n\n@t") (codes "t") ≡ ok (codes "a\n", true)
unfolding removed
taken_back = refl

windows_newline : upsert_import (codes "a\r\n") (codes "t") ≡ ok (codes "a\r\n\r\n@t", true)
unfolding found
windows_newline = refl

in_a_fence : remove_import (codes "```\n@t\n```") (codes "t") ≡ ok (codes "```\n@t\n```", false)
unfolding removed
in_a_fence = refl

-- Between two lines both newlines go.
lines_joined : remove_import (codes "a\n@t\nb") (codes "t") ≡ ok (codes "ab", true)
unfolding removed
lines_joined = refl

-- After a fence that is never closed the line is added again.
added_twice : upsert_import (codes "```\n@t") (codes "t") ≡ ok (codes "```\n@t\n@t", true)
unfolding found
added_twice = refl
