-- ===== src/Lsn/Value.antt =====
-- The number that a string of bytes stands for, and the bytes of a number.
use native.Mathlib.Nat.{div-add-mod, div-add-mod', div-div-eq-div-mul, mod-eq_of_lt}
use native.Mathlib.Nat.{mul-le-mul_right, pow-suc}
use pydblog.Prelude.{
  ℕ, zero, suc, ◌+◌, ◌*◌, ◌/◌, ◌%◌, ◌^◌, ◌≤◌, ◌<◌, ◌≡◌, refl, ap, ◌∙◌, ◌∷◌, [], length, arith,
}
use pydblog.Lsn.{Lsn, int_from_bytes, int_to_bytes, IsBytes}

pub power_pos : (w : ℕ) → 0 < 256 ^ w
power_pos zero = omega arith
power_pos (suc w) = omega (arith, pow-suc 256 w, power_pos w)

pub int_from_bytes-lt : (bs : Lsn) → IsBytes bs → int_from_bytes bs < 256 ^ length bs
unfolding int_from_bytes
int_from_bytes-lt [] h = omega arith
int_from_bytes-lt (b ∷ bs) (hb, h) =
    let digit : suc b * 256 ^ length bs ≤ 256 * 256 ^ length bs = mul-le-mul_right _ hb in
    omega (arith, pow-suc 256 (length bs), int_from_bytes-lt bs h, digit)

pub length-int_to_bytes : (w n : ℕ) → length (int_to_bytes w n) ≡ w
unfolding int_to_bytes
length-int_to_bytes zero n = refl
length-int_to_bytes (suc w) n = omega (arith, length-int_to_bytes w n)

pub int_to_bytes-IsBytes : (w n : ℕ) → IsBytes (int_to_bytes w n)
unfolding int_to_bytes
int_to_bytes-IsBytes zero n = tt
int_to_bytes-IsBytes (suc w) n = (omega arith, int_to_bytes-IsBytes w n)

-- One more digit of a number, above its lowest ones.
mod_digit : (n m : ℕ) → n / m % 256 * m + n % m ≡ n % (m * 256)
mod_digit n m = omega (
  arith,
  div-add-mod' n m,
  ap (λ (t : ℕ). t * m) (div-add-mod (n / m) 256),
  div-div-eq-div-mul n m 256,
  ap (λ (t : ℕ). m * 256 * t) (div-div-eq-div-mul n m 256),
  div-add-mod n (m * 256),
)

-- Writing a number out and reading it back keeps its lowest digits.
pub int_from_bytes-int_to_bytes_mod : (w n : ℕ) → int_from_bytes (int_to_bytes w n) ≡ n % 256 ^ w
unfolding int_from_bytes int_to_bytes
int_from_bytes-int_to_bytes_mod zero n = omega arith
int_from_bytes-int_to_bytes_mod (suc w) n =
    rw (length-int_to_bytes, int_from_bytes-int_to_bytes_mod w n, pow-suc) (mod_digit n (256 ^ w))

pub int_from_bytes-int_to_bytes : (w n : ℕ) → n < 256 ^ w → int_from_bytes (int_to_bytes w n) ≡ n
int_from_bytes-int_to_bytes w n h = int_from_bytes-int_to_bytes_mod w n ∙ mod-eq_of_lt h
