-- ===== src/Base/Pattern.antt =====
-- The regular expressions of the program, and tests on the characters of a text.
use Prim.Native.Nat.{ℕ}
use mathlib.Core.Bool.{Bool, true, false, ◌&&◌, ◌||◌}
use mathlib.Core.List.{[], ◌∷◌}
use uawp.Base.Tests.{◌==◌, nat_eq, leb}
use uawp.Base.Lists.{length}
use uawp.Base.Text.{Bytes}

unfoldable pub all : (ℕ → Bool) → Bytes → Bool
all p [] = true
all p (x ∷ xs) = p x && all p xs

abbrev pub is_digit : ℕ → Bool
is_digit c = leb b'0' c && leb c b'9'

-- [0-9a-f]
abbrev pub is_hex : ℕ → Bool
is_hex c = is_digit c || leb b'a' c && leb c b'f'

-- [a-z0-9]
abbrev is_word : ℕ → Bool
is_word c = is_digit c || leb b'a' c && leb c b'z'

-- [a-z0-9._-]
abbrev pub is_tail : ℕ → Bool
is_tail c = is_word c || c == b'.' || c == b'_' || c == b'-'

-- ^[0-9a-f]{64}$
unfoldable pub is_hash : Bytes → Bool
unfolding all
is_hash s = length s == 64 && all is_hex s

-- ^[a-z0-9][a-z0-9._-]*$
unfoldable pub is_name : Bytes → Bool
unfolding all
is_name [] = false
is_name (x ∷ xs) = is_word x && all is_tail xs

-- ^[a-z0-9][a-z0-9._-]{0,127}$
unfoldable pub is_identifier : Bytes → Bool
unfolding is_name
is_identifier s = is_name s && leb (length s) 128

-- [a-z0-9]+(?:-[a-z0-9]+)*$, and what may follow a hyphen or stand at the front.
unfoldable pub is_slug_from : Bool → Bytes → Bool
is_slug_from begun [] = begun
is_slug_from begun (x ∷ xs) =
    is_word x && is_slug_from true xs || x == b'-' && begun && is_slug_from false xs

-- ^[a-z0-9]+(?:-[a-z0-9]+)*$
unfoldable pub is_slug : Bytes → Bool
unfolding is_slug_from
is_slug s = is_slug_from false s
