-- ===== src/Mssql/Identifier.antt =====
-- The names that go into SQL by interpolation: `_validate_identifier` and `_quote_identifier` of
-- connectors/mssql/connector.py.
pub mod Safe
use Prim.Native.Char.{code}
use Prim.Native.String.{[], ◌∷◌, ◌++◌ as ◌<>◌}
use pydblog.Prelude.{ℕ, String, Bool, true, false, ◌&&◌, ◌||◌, List, leb, ◌==◌, if◌then◌else◌}
use pydblog.Exec.{Result, ok, err, and_then, invalid_identifier}

-- `[A-Za-z0-9_]`
unfoldable pub is_word : ℕ → Bool
is_word c =
    (leb b'A' c && leb c b'Z')
    || (leb b'a' c && leb c b'z')
    || (leb b'0' c && leb c b'9')
    || c == b'_'

-- Every character is one of those.
abbrev pub all_words : String → Bool
all_words [] = true
all_words (c ∷ s) = is_word (code c) && all_words s

-- `self._identifier_pattern.fullmatch(name)`, whose pattern asks for at least one character.
unfoldable pub is_identifier : String → Bool
is_identifier [] = false
is_identifier (c ∷ s) = all_words (c ∷ s)

unfoldable pub validate_identifier : String → String → Result String
validate_identifier name kind =
    if is_identifier name then ok name else err (invalid_identifier kind name)

unfoldable pub quote_identifier : String → String → Result String
unfolding validate_identifier
quote_identifier name kind =
    and_then (validate_identifier name kind) λ valid. ok ("[" <> (valid <> "]"))
