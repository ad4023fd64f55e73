-- ===== src/Lsn/Order.antt =====
-- The order of LSNs as bytes and as numbers, and `increment_lsn` in that order.
use native.Mathlib.Nat.{mul-le-mul_right}
use pydblog.Prelude.{
  ℕ, suc, ◌+◌, ◌*◌, ◌^◌, ◌≤◌, ◌<◌, ◌≡◌, ◌⊎◌, inl, inr, Bool-cases, refl, ap, true, false, ◌∷◌, [],
  length, arith, ltb, sym, ◌∙◌,
}
use pydblog.Exec.{ok}
use pydblog.Lsn.{
  Lsn, lsn_width_bytes, lt_bytes, max_bytes, int_from_bytes, int_to_bytes, increment_lsn, IsBytes,
  IsLsn,
}
use pydblog.Lsn.Value.{
  int_from_bytes-lt, length-int_to_bytes, int_to_bytes-IsBytes, int_from_bytes-int_to_bytes,
}

-- A smaller first digit makes a smaller number, whatever follows.
digit_lt : (p x y s t : ℕ) → s < p → x < y → x * p + s < y * p + t
digit_lt p x y s t hs h =
    let step : suc x * p ≤ y * p = mul-le-mul_right p h in omega (arith, step, hs)

-- Strings of bytes of one width compare as the numbers that they stand for.
pub lt_bytes-eq-ltb :
    (a b : Lsn)
    → IsBytes a
    → IsBytes b
    → length a ≡ length b
    → lt_bytes a b ≡ ltb (int_from_bytes a) (int_from_bytes b)
unfolding lt_bytes int_from_bytes
lt_bytes-eq-ltb [] [] ha hb e = refl
lt_bytes-eq-ltb [] (y ∷ b) ha hb e = absurd (omega arith)
lt_bytes-eq-ltb (x ∷ a) [] ha hb e = absurd (omega arith)
lt_bytes-eq-ltb (x ∷ a) (y ∷ b) (hx, ha) (hy, hb) e =
    let e' : length a ≡ length b = omega arith in
    let width : 256 ^ length a ≡ 256 ^ length b = ap (λ (n : ℕ). 256 ^ n) e' in
    rw (← e') (
      ground (
        arith,
        int_from_bytes-lt a ha,
        int_from_bytes-lt b hb,
        width,
        digit_lt (256 ^ length a) x y (int_from_bytes a) (int_from_bytes b),
        digit_lt (256 ^ length a) y x (int_from_bytes b) (int_from_bytes a),
        lt_bytes-eq-ltb a b ha hb e',
      ))

-- Two LSNs compare as bytes the way the numbers that they stand for compare.
pub lt_bytes-eq-ltb_of_Lsn :
    (a b : Lsn) → IsLsn a → IsLsn b → lt_bytes a b ≡ ltb (int_from_bytes a) (int_from_bytes b)
lt_bytes-eq-ltb_of_Lsn a b ha hb = lt_bytes-eq-ltb a b ha.bytes hb.bytes (ha.width ∙ sym hb.width)

Lsn-bound : (a : Lsn) → IsLsn a → int_from_bytes a < 256 ^ lsn_width_bytes
Lsn-bound a h = rw h.width at (int_from_bytes-lt a h.bytes)

-- What a call that returns hands back: the LSN of the next number.
pub increment_lsn-value :
    (a : Lsn) {c : Lsn}
    → IsLsn a
    → increment_lsn a ≡ ok c
    → IsLsn c × (int_from_bytes c ≡ int_from_bytes a + 1)
unfolding increment_lsn
increment_lsn-value a {c} h e =
    let room : int_from_bytes a + 1 < 256 ^ lsn_width_bytes = ground (arith, h.width) in
    let made : c ≡ int_to_bytes lsn_width_bytes (int_from_bytes a + 1) = ground (arith, h.width) in
    rw made (
      record {
        bytes = int_to_bytes-IsBytes lsn_width_bytes (int_from_bytes a + 1);
        width = length-int_to_bytes lsn_width_bytes (int_from_bytes a + 1);
      },
      int_from_bytes-int_to_bytes lsn_width_bytes (int_from_bytes a + 1) room,
    )

-- From an LSN, `increment_lsn` returns the least LSN above it: it lies above, and no LSN lies
-- strictly between the two.
pub increment_lsn-least :
    (a c : Lsn)
    → IsLsn a
    → increment_lsn a ≡ ok c
    → IsLsn c
      × (lt_bytes a c ≡ true)
      × ((b : Lsn) → IsLsn b → lt_bytes a b ≡ true → lt_bytes b c ≡ false)
increment_lsn-least a c h e =
    let (made, next) = increment_lsn-value a h e in
    (
      made,
      rw (lt_bytes-eq-ltb_of_Lsn a c h made) (ground arith),
      λ b hb above.
          rw (lt_bytes-eq-ltb_of_Lsn b c hb made) (ground (arith, lt_bytes-eq-ltb_of_Lsn a b h hb)),
    )

-- `increment_lsn` returns on every LSN that has another one above it.
pub increment_lsn_total :
    (a b : Lsn) → IsLsn a → IsLsn b → lt_bytes a b ≡ true → (c : Lsn) × (increment_lsn a ≡ ok c)
unfolding increment_lsn
increment_lsn_total a b ha hb above = (
  int_to_bytes lsn_width_bytes (int_from_bytes a + 1),
  ground (arith, ha.width, Lsn-bound b hb, lt_bytes-eq-ltb_of_Lsn a b ha hb),
)

-- The larger of two LSNs: one of the two, and below neither.
pub record IsLarger (a b m : Lsn) : Type 0 where
  pub is_lsn : IsLsn m
  pub first_le : int_from_bytes a ≤ int_from_bytes m
  pub second_le : int_from_bytes b ≤ int_from_bytes m
  pub one_of : (int_from_bytes m ≡ int_from_bytes a) ⊎ (int_from_bytes m ≡ int_from_bytes b)

pub max_bytes-IsLarger : (a b : Lsn) → IsLsn a → IsLsn b → IsLarger a b (max_bytes a b)
unfolding max_bytes
max_bytes-IsLarger a b ha hb = elim (Bool-cases (lt_bytes a b)) [
  | inl below ↦ rw below (record {
    is_lsn = hb;
    first_le = ground (arith, lt_bytes-eq-ltb_of_Lsn a b ha hb);
    second_le = omega arith;
    one_of = inr refl;
  })
  | inr above ↦ rw above (record {
    is_lsn = ha;
    first_le = omega arith;
    second_le = ground (arith, lt_bytes-eq-ltb_of_Lsn a b ha hb);
    one_of = inl refl;
  })
]
