-- ===== src/Dblog/Refusals.antt =====
-- Which calls of `dblog()` are refused for their arguments.
use text.Mathlib.Text.{◌==◌ as str_eq}
use text.Mathlib.TextEquality.{eq_iff}
use pydblog.Prelude.{
  ◌≡◌, ◌≢◌, ◌↔◌, refl, ap, inl, inr, String, true, false, Option, none, some, Bool-cases, arith,
}
use pydblog.Prelude.Int.{ℤ, pos, ltb_ℤ, ◌<ℤ◌, ◌≤ℤ◌, ltb_ℤ-iff-lt}
use pydblog.Exec.{Error, err, ◌>>=◌, chunk_size_below_one, foreign_state}
use pydblog.Types.{qualified_name, dotted}
use pydblog.State.{RunState}
use pydblog.Frame.{Polars}
use pydblog.Connector.{SourceConnector, Host}
use pydblog.Dblog.Raised.{
  IsOfArguments, deaf, clock, Meets, Raised-bind, of_Raised, opening_state-Raised,
}
use pydblog.Dblog.{opening_state, dblog}
use pydblog.Dblog.Guards.{check_table}

-- The calls that are refused, with the error: a chunk size below one comes first.
pub data IsRefused (schema table : String) : Option RunState → ℤ → Error → Type 0 where
  small :
      (given : Option RunState) (size : ℤ)
      → size <ℤ pos 1
      → IsRefused schema table given size (chunk_size_below_one size)
  foreign :
      (given : RunState) (size : ℤ)
      → pos 1 ≤ℤ size
      → qualified_name given.spec ≢ dotted schema table
      → IsRefused schema table
          (some given)
          size
          (foreign_state (qualified_name given.spec) (dotted schema table))

str_ne : (a b : String) → a ≢ b → str_eq a b ≡ false
str_ne a b h = elim (Bool-cases (str_eq a b)) [
  | inl same ↦ absurd (h ((eq_iff a b).0 same))
  | inr apart ↦ apart
]

module _ (S : Type 0) (P : Polars) (schema table : String) (every : Option ℤ) (s : S) where
  refused :
      (given : Option RunState) (size : ℤ) (e : Error)
      → IsRefused schema table given size e
      → IsOfArguments e
        × ((C : SourceConnector S) (H : Host S)
            → dblog C H P schema table given size every s ≡ (err e, s))
  unfolding dblog opening_state check_table ◌>>=◌
  refused _ _ _ (small given size below) =
      (tt, λ C H. rw ((ltb_ℤ-iff-lt size (pos 1)).1 below) refl)
  refused _ _ _ (foreign given size enough apart) =
      let large : ltb_ℤ size (pos 1) ≡ false = ground arith in
      (tt, λ C H. rw (large, str_ne (qualified_name given.spec) (dotted schema table) apart) refl)

  -- The tail of a call that is let through, seen from that source.
  unrefused :
      (given : Option RunState) (size : ℤ) (e : Error)
      → ((st : RunState) → given ≡ some st → qualified_name st.spec ≡ dotted schema table)
      → ltb_ℤ size (pos 1) ≡ false
      → IsOfArguments e
      → dblog (deaf S) (clock S) P schema table given size every s ≡ (err e, s)
      → ⊥
  unfolding dblog Meets
  unrefused given size e own large named run =
      of_Raised (dblog (deaf S) (clock S) P schema table given size every s).0 e
        (rw large (Raised-bind S _ _ (opening_state-Raised S schema table every given own) s))
        (ap (λ p. p.0) run) named

  of_small :
      (given : Option RunState) (size : ℤ) (e : Error)
      → ltb_ℤ size (pos 1) ≡ true
      → dblog (deaf S) (clock S) P schema table given size every s ≡ (err e, s)
      → IsRefused schema table given size e
  unfolding dblog
  of_small given size e below run =
      let raised : (err (chunk_size_below_one size), s) ≡ (err e, s) = rw below at run in
      let same : chunk_size_below_one size ≡ e = cc in
      rw (← same) (small given size ((ltb_ℤ-iff-lt size (pos 1)).0 below))

  of_foreign :
      (given : RunState) (size : ℤ) (e : Error)
      → ltb_ℤ size (pos 1) ≡ false
      → qualified_name given.spec ≢ dotted schema table
      → dblog (deaf S) (clock S) P schema table (some given) size every s ≡ (err e, s)
      → IsRefused schema table (some given) size e
  of_foreign given size e large apart run =
      let enough : pos 1 ≤ℤ size = ground arith in
      let refusal : IsRefused schema table (some given) size
          (foreign_state (qualified_name given.spec) (dotted schema table)) =
        foreign given size enough apart in
      let raised : dblog (deaf S) (clock S) P schema table (some given) size every s
          ≡ (err (foreign_state (qualified_name given.spec) (dotted schema table)), s) =
        (refused (some given) size _ refusal).1 (deaf S) (clock S) in
      let same : foreign_state (qualified_name given.spec) (dotted schema table) ≡ e = cc in
      rw (← same) refusal

  of_error :
      (given : Option RunState) (size : ℤ) (e : Error)
      → IsOfArguments e
      → dblog (deaf S) (clock S) P schema table given size every s ≡ (err e, s)
      → IsRefused schema table given size e
  of_error none size e named run = elim (Bool-cases (ltb_ℤ size (pos 1))) [
    | inl below ↦ of_small none size e below run
    | inr large ↦ absurd (unrefused none size e (λ st h. absurd cc) large named run)
  ]
  of_error (some given) size e named run = elim (Bool-cases (ltb_ℤ size (pos 1))) [
    | inl below ↦ of_small (some given) size e below run
    | inr large ↦ elim (Bool-cases (str_eq (qualified_name given.spec) (dotted schema table))) [
      | inl own ↦
          let same = (eq_iff (qualified_name given.spec) (dotted schema table)).0 own in
          absurd (
            unrefused (some given) size e
              (λ st h. let st_same : given ≡ st = cc in rw (← st_same) same) large named run)
      | inr other ↦
          of_foreign given size e large
            (λ same.
              let found = (eq_iff (qualified_name given.spec) (dotted schema table)).1 same in cc)
            run
    ]
  ]

-- The calls that `dblog` ends with the error for a chunk size below one or for a state of another
-- table whatever the source and the host are, and without a change to the source, are exactly these:
-- the ones with a chunk size below one, whether a state is given or not, with the first error, and the
-- others that are given a state of another table, with the second.
pub dblog-iff-IsRefused :
    {S : Type 0} (P : Polars) (schema table : String) (every : Option ℤ) (s : S)
    (given : Option RunState) (size : ℤ) (e : Error)
    → IsRefused schema table given size e ↔ (
        IsOfArguments e
        × ((C : SourceConnector S) (H : Host S)
            → dblog C H P schema table given size every s ≡ (err e, s)))
dblog-iff-IsRefused {S} P schema table every s given size e = (
  refused S P schema table every s given size e,
  λ h. of_error S P schema table every s given size e h.0 (h.1 (deaf S) (clock S)),
)
