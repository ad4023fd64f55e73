-- ===== src/Types/Text.antt =====
-- `str.lower`, on the ASCII letters that the catalog's type names are written in.
use Prim.Native.Char.{Char, char, code, IsScalar}
use Prim.Native.Nat.{compare, Ordering}
use Prim.Native.String.{String, [], ◌∷◌}
use mathlib.Core.Logic.{dite}
use native.Mathlib.Decide.{dec_le}
use pydblog.Prelude.{ℕ, ◌+◌, ◌≤◌, ◌≡◌, arith}

pub small-IsScalar : (n : ℕ) → n ≤ 90 → IsScalar (n + 32)
small-IsScalar n h = let e : compare (n + 32) 55296 ≡ Ordering.lt = ground arith in rw e tt

lower_char : Char → Char
lower_char c =
    dite (dec_le 65 (code c))
      (λ _.
        dite (dec_le (code c) 90) (λ h. char (code c + 32) (small-IsScalar (code c) h)) (λ _. c))
      (λ _. c)

unfoldable pub lower : String → String
unfolding lower_char dec_le
lower [] = []
lower (c ∷ s) = lower_char c ∷ lower s
