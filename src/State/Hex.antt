-- ===== src/State/Hex.antt =====
-- How state.py writes `last_lsn` as text and reads it back: `_lsn_to_hex` and `_lsn_from_hex`. A text
-- is the list of its code points.
use pydblog.Prelude.{
  ℕ, ◌+◌, ◌-◌, ◌*◌, ◌/◌, ◌%◌, ◌<◌, ◌≡◌, refl, Bool, ◌&&◌, ◌||◌, Option, none, some, List, [], ◌∷◌,
  leb, ltb, ◌==◌, arith, if◌then◌else◌,
}
use pydblog.Exec.{Result, ok, err, and_then, hex_text}
use pydblog.Lsn.{Lsn, IsBytes}

abbrev pub hex_digit : ℕ → ℕ
hex_digit n = if ltb n 10 then b'0' + n else b'a' - 10 + n

-- `value.hex()`
unfoldable pub lsn_to_hex : Lsn → List ℕ
lsn_to_hex [] = []
lsn_to_hex (b ∷ bytes) = hex_digit (b / 16) ∷ hex_digit (b % 16) ∷ lsn_to_hex bytes

-- The value of a hexadecimal digit, in either case.
unfoldable pub digit_value : ℕ → Option ℕ
digit_value c =
    if leb b'0' c && leb c b'9'
    then some (c - b'0')
    else if leb b'a' c && leb c b'f'
    then some (c - b'a' + 10)
    else if leb b'A' c && leb c b'F'
    then some (c - b'A' + 10)
    else none

-- ASCII white space, which `bytes.fromhex` skips between two bytes.
abbrev pub is_space : ℕ → Bool
is_space c = (leb 9 c && leb c 13) || c == 32

abbrev byte_of : Option ℕ → Option ℕ → Result Lsn → Result Lsn
byte_of (some high) (some low) rest = and_then rest λ bytes. ok ((high * 16 + low) ∷ bytes)
byte_of (some high) none rest = err hex_text
byte_of none low rest = err hex_text

-- `bytes.fromhex(text)`
unfoldable pub from_hex : List ℕ → Result Lsn
unfolding digit_value
from_hex [] = ok []
from_hex (c ∷ []) = if is_space c then ok [] else err hex_text
from_hex (c ∷ d ∷ text) =
    let skipped = from_hex (d ∷ text) in
    let rest = from_hex text in
    if is_space c then skipped else byte_of (digit_value c) (digit_value d) rest

-- What a caller may build the field from; what is neither is pydantic's to refuse.
pub data Given : Type 0 where
  written : List ℕ → Given
  bytes : Lsn → Given

unfoldable pub lsn_from_hex : Given → Result Lsn
unfolding from_hex
lsn_from_hex (written text) = from_hex text
lsn_from_hex (bytes lsn) = ok lsn

digit_value-hex_digit : (n : ℕ) → n < 16 → digit_value (hex_digit n) ≡ some n
unfolding digit_value
digit_value-hex_digit n h = ground arith

is_space-hex_digit : (n : ℕ) → n < 16 → is_space (hex_digit n) ≡ Bool.false
is_space-hex_digit n h = ground arith

from_hex-lsn_to_hex : (lsn : Lsn) → IsBytes lsn → from_hex (lsn_to_hex lsn) ≡ ok lsn
unfolding from_hex lsn_to_hex
from_hex-lsn_to_hex [] h = refl
from_hex-lsn_to_hex (b ∷ rest) (small, h) =
    let high : b / 16 < 16 = omega arith in
    let low : b % 16 < 16 = omega arith in
    let whole : b / 16 * 16 + b % 16 ≡ b = omega arith in
    rw
      (
        is_space-hex_digit (b / 16) high,
        digit_value-hex_digit (b / 16) high,
        digit_value-hex_digit (b % 16) low,
        from_hex-lsn_to_hex rest h,
        whole,
      )
      refl

-- A position that is written as text reads back as itself.
pub lsn_from_hex-lsn_to_hex :
    (lsn : Lsn) → IsBytes lsn → lsn_from_hex (written (lsn_to_hex lsn)) ≡ ok lsn
unfolding lsn_from_hex
lsn_from_hex-lsn_to_hex lsn h = from_hex-lsn_to_hex lsn h
