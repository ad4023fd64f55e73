-- ===== src/Arrow.antt =====
-- The Arrow types that connectors/mssql/schema.py names, and fields over them. pyarrow's own code is
-- not modelled: a type is the constructor and the arguments that it was built from.
use pydblog.Prelude.{
  ◌≡◌, Bool, true, false, ◌&&◌, ◌==◌, arith, ℕ, String, List, [], ◌∷◌, Option, none, some,
  if◌then◌else◌,
}
use text.Mathlib.Text.{◌==◌ as str_eq}
use text.Mathlib.TextEquality.{eq_iff}

pub data TimeUnit : Type 0 where
  microseconds nanoseconds : TimeUnit

pub data ArrowType : Type 0 where
  int64 int32 int16 uint8 boolean float64 float32 date32 large_string large_binary : ArrowType
  decimal128 : ℕ → ℕ → ArrowType
  -- with the time zone, if it has one
  timestamp : TimeUnit → Option String → ArrowType
  time64 : TimeUnit → ArrowType

pub record Field : Type 0 where
  pub name : String
  pub dtype : ArrowType

-- The type of the first field of a name.
unfoldable pub dtype_of : String → List Field → Option ArrowType
dtype_of name [] = none
dtype_of name (f ∷ fs) = if str_eq f.name name then some f.dtype else dtype_of name fs

abbrev eq_unit : TimeUnit → TimeUnit → Bool
eq_unit microseconds microseconds = true
eq_unit nanoseconds nanoseconds = true
eq_unit _ _ = false

abbrev eq_zone : Option String → Option String → Bool
eq_zone none none = true
eq_zone (some z) (some w) = str_eq z w
eq_zone _ _ = false

-- `a == b` on types.
unfoldable pub eq_type : ArrowType → ArrowType → Bool
eq_type int64 int64 = true
eq_type int32 int32 = true
eq_type int16 int16 = true
eq_type uint8 uint8 = true
eq_type boolean boolean = true
eq_type float64 float64 = true
eq_type float32 float32 = true
eq_type date32 date32 = true
eq_type large_string large_string = true
eq_type large_binary large_binary = true
eq_type (decimal128 p s) (decimal128 q t) = p == q && s == t
eq_type (timestamp u z) (timestamp v w) = eq_unit u v && eq_zone z w
eq_type (time64 u) (time64 v) = eq_unit u v
eq_type _ _ = false

pub eq_type_sound : (a b : ArrowType) → eq_type a b ≡ true → a ≡ b
unfolding eq_type
eq_type_sound a b h = grind (arith, eq_iff)
