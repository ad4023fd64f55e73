-- ===== src/Mssql/Log/Floor.antt =====
-- The floor of a capture instance.
use pydblog.Prelude.{
  ℕ, zero, suc, ◌<◌, ◌≡◌, refl, String, true, false, Option, List, [], ◌∷◌, length, arith,
  Bool-cases, inl, inr, ◌⊎◌,
}
use pydblog.Exec.{ok, err_ne_ok, and_then-eq-ok, no_min_lsn}
use pydblog.Exec.Ensures.{Ensures-elim, Ensures-then, Ensures-intro, lift-eq-ok}
use pydblog.Lsn.{Lsn, int_from_bytes, IsLsn, lsn_width_bytes}
use pydblog.Lsn.Value.{power_pos}
use pydblog.Frame.{Value, eq_bytes}
use pydblog.Mssql.Driver.{Driver}
use pydblog.Mssql.Session.{Settings, Session}
use pydblog.Mssql.Log.{zeros, answer, as_lsn, floor_of, ask, get_min_lsn}

-- A string of bytes that stands for zero is all zeros.
zero-bytes : (bs : Lsn) → int_from_bytes bs ≡ 0 → eq_bytes bs (zeros (length bs)) ≡ true
unfolding int_from_bytes
zero-bytes [] h = refl
zero-bytes (zero ∷ bs) h = zero-bytes bs (omega (arith, h))
zero-bytes (suc b ∷ bs) h = absurd (omega (arith, h, power_pos (length bs)))

zero_or_positive : (n : ℕ) → (n ≡ 0) ⊎ (0 < n)
zero_or_positive zero = inl refl
zero_or_positive (suc n) = inr (omega arith)

floor_of-positive :
    (name : String) (row : Option (List Value)) (lsn : Lsn)
    → floor_of name row ≡ ok lsn
    → IsLsn lsn
    → 0 < int_from_bytes lsn
unfolding floor_of
floor_of-positive name row lsn e L =
    let (value, seen, rest) = and_then-eq-ok (answer row (no_min_lsn name)) _ lsn e in
    let (found, typed, test) = and_then-eq-ok (as_lsn value) _ lsn rest in
    elim (Bool-cases (eq_bytes found (zeros lsn_width_bytes))) [
      | inl unknown ↦ absurd (err_ne_ok _ _ (rw unknown at test))
      | inr known ↦
          let same : found ≡ lsn = cc in
          let wide : eq_bytes lsn (zeros (length lsn)) ≡ false = rw (L.width, ← same) known in
          elim (zero_or_positive (int_from_bytes lsn)) [
            | inl nothing ↦ let full = zero-bytes lsn nothing in cc
            | inr positive ↦ positive
          ]
    ]

-- The floor that `get_min_lsn` returns, where it is a value of SQL Server's binary(10), is a position
-- that the log has issued: the zero that stands for an unknown capture instance is raised on instead.
pub get_min_lsn-positive :
    {W : Type 0} (D : Driver W) (M : Settings) (name : String) (s u : Session W) (lsn : Lsn)
    → get_min_lsn D M name s ≡ (ok lsn, u)
    → IsLsn lsn
    → 0 < int_from_bytes lsn
unfolding get_min_lsn
get_min_lsn-positive D M name s u lsn e L =
    Ensures-elim (λ found _. IsLsn found → 0 < int_from_bytes found) _ lsn u e
      (Ensures-then _ (ask D M _ _) _ s λ row t asked. Ensures-intro _ _ λ found v made.
        floor_of-positive name row found (lift-eq-ok (floor_of name row) t v found made).0)
      L
