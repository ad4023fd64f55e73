-- ===== src/Lsn.antt =====
-- Log sequence numbers: `type LSN = bytes` of connectors/types.py, Python's comparison of bytes, and
-- `increment_lsn` of connectors/mssql/connector.py.
pub mod Value
pub mod Order
use pydblog.Prelude.{
  ◌≡◌, ℕ, zero, suc, ◌+◌, ◌*◌, ◌/◌, ◌%◌, ◌^◌, ◌<◌, Bool, true, false, ◌&&◌, ◌||◌, List, [], ◌∷◌,
  length, All, ltb, leb, ◌==◌, if◌then◌else◌, not,
}
use pydblog.Exec.{Error, lsn_width, lsn_maximum, Result, ok, err}

-- The values of the bytes, the first one first.
abbrev pub Lsn : Type 0
Lsn = List ℕ

-- LSN_WIDTH
abbrev pub lsn_width_bytes : ℕ
lsn_width_bytes = 10

-- `a < b` on bytes: by the first byte that differs, and a proper prefix is smaller.
unfoldable pub lt_bytes : Lsn → Lsn → Bool
lt_bytes [] [] = false
lt_bytes [] (y ∷ ys) = true
lt_bytes (x ∷ xs) [] = false
lt_bytes (x ∷ xs) (y ∷ ys) = ltb x y || (x == y && lt_bytes xs ys)

-- `max(a, b)`: the first one where they are equal.
unfoldable pub max_bytes : Lsn → Lsn → Lsn
max_bytes a b = if lt_bytes a b then b else a

-- `int.from_bytes(b, "big")`
unfoldable pub int_from_bytes : Lsn → ℕ
int_from_bytes [] = 0
int_from_bytes (b ∷ bs) = b * 256 ^ length bs + int_from_bytes bs

-- The digits of `n.to_bytes(width, "big")` where it does not overflow.
unfoldable pub int_to_bytes : ℕ → ℕ → Lsn
int_to_bytes zero n = []
int_to_bytes (suc w) n = (n / 256 ^ w) % 256 ∷ int_to_bytes w n

-- `MSSQLConnector.increment_lsn`; `to_bytes` raises OverflowError where the number does not fit.
unfoldable pub increment_lsn : Lsn → Result Lsn
increment_lsn lsn =
    if length lsn == lsn_width_bytes
    then (if ltb (int_from_bytes lsn + 1) (256 ^ lsn_width_bytes)
        then ok (int_to_bytes lsn_width_bytes (int_from_bytes lsn + 1))
        else err (lsn_maximum lsn))
    else err (lsn_width (length lsn))

-- Every item is a byte.
abbrev pub IsBytes : Lsn → Type 0
IsBytes = All (λ b. b < 256)

-- A value of SQL Server's binary(10).
pub record IsLsn (lsn : Lsn) : Type 0 where
  pub bytes : IsBytes lsn
  pub width : length lsn ≡ lsn_width_bytes
