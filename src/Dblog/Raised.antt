-- ===== src/Dblog/Raised.antt =====
-- Calls that end in an error of the source, seen from a source that fails on every call.
use text.Mathlib.TextEquality.{eq_iff}
use pydblog.Prelude.{◌≡◌, refl, String, Bool, true, false, Option, none, some, if◌then◌else◌}
use pydblog.Prelude.Int.{ℤ, ltb_ℤ}
use pydblog.Exec.{
  Error, Result, ok, err, Exec, raise, ◌>>=◌, chunk_size_below_one, foreign_state, source_failure,
  no_capture_instance, other_error,
}
use pydblog.Exec.Outcome.{Outcome-bind}
use pydblog.Types.{TableSpec, qualified_name, dotted}
use pydblog.State.{RunState, Datetime, aware, naive, sub_datetime}
use pydblog.Connector.{SourceConnector, Host}
use pydblog.Dblog.{opening_state, seed}
use pydblog.Dblog.Guards.{require_capture_instance, check_table, refresh_spec, check_retention}

-- The two errors for the arguments of a call.
abbrev pub IsOfArguments : Error → Type 0
IsOfArguments (chunk_size_below_one size) = Unit
IsOfArguments (foreign_state had asked) = Unit
IsOfArguments e = ⊥

-- A part that raises no error of the two, and one that raises another error.
abbrev pub Beyond : {A : Type 0} → Result A → Type 0
Beyond (ok a) = Unit
Beyond (err e) = IsOfArguments e → ⊥

abbrev pub Raised : {A : Type 0} → Result A → Type 0
Raised (ok a) = ⊥
Raised (err e) = IsOfArguments e → ⊥

sub_datetime-Beyond : (a b : Datetime) → Beyond (sub_datetime a b)
unfolding sub_datetime
sub_datetime-Beyond (aware a) (aware b) = tt
sub_datetime-Beyond (aware a) (naive b) = λ h. h
sub_datetime-Beyond (naive a) (aware b) = λ h. h
sub_datetime-Beyond (naive a) (naive b) = tt

require_capture_instance-Beyond : (spec : TableSpec) → Beyond (require_capture_instance spec)
unfolding require_capture_instance
require_capture_instance-Beyond spec = of_instance spec.capture_instance
  where
    of_instance :
        (o : Option String)
        → Beyond (elim o as (λ _. Result String) [
          | none ↦ err (no_capture_instance (qualified_name spec))
          | some name ↦ ok name
        ])
    of_instance none = λ h. h
    of_instance (some name) = tt

Raised-Beyond : {A : Type 0} (r : Result A) → Raised r → Beyond r
Raised-Beyond (ok a) raised = tt
Raised-Beyond (err e) raised = raised

pub of_Raised : {A : Type 0} (r : Result A) (e : Error) → Raised r → r ≡ err e → IsOfArguments e → ⊥
of_Raised (ok a) e raised same named = raised
of_Raised (err x) e raised same named = let alike : x ≡ e = cc in raised (rw alike named)

check_table-Beyond :
    (given : RunState) (schema table : String)
    → qualified_name given.spec ≡ dotted schema table
    → Beyond (check_table given schema table)
unfolding check_table
check_table-Beyond given schema table same =
    rw ((eq_iff (qualified_name given.spec) (dotted schema table)).1 same) tt

module _ (S : Type 0) where
  -- A source that fails on every call, and a clock.
  abbrev down : {A : Type 0} → Exec S A
  down = raise (source_failure other_error "down")

  abbrev pub deaf : SourceConnector S
  deaf = record {
    get_max_lsn = down;
    get_min_lsn = λ name. down;
    watermark = down;
    await_watermark = λ mark. down;
    connect = down;
    close = down;
    enter = down;
    exit = down;
    inspect = λ schema table. down;
    read_event_log = λ spec low high. down;
    to_events = λ rows spec low. err (source_failure other_error "down");
    read_table = λ spec low high limit. down;
    read_pk_range = λ spec. down;
    increment_lsn = λ lsn. err (source_failure other_error "down");
  }

  abbrev pub clock : Host S
  clock = record { utc_now = λ t. (0, t); warn = λ w t. t }

  unfoldable pub Meets : {A : Type 0} → (Result A → Type 0) → Exec S A → Type 0
  Meets Q m = (t : S) → Q (m t).0

  Meets-bind :
      {A B : Type 0} (Q : Result B → Type 0) (m : Exec S A) (f : A → Exec S B)
      → ((e : Error) → (IsOfArguments e → ⊥) → Q (err e))
      → Meets Beyond m
      → ((a : A) → Meets Q (f a))
      → Meets Q (m >>= f)
  unfolding Meets
  Meets-bind Q m f raised h k t =
      Outcome-bind (λ r _. Beyond r) (λ r _. Q r) m f t (h t) (λ e u. raised e) (λ a u _ _. k a u)

  Meets-if :
      {A : Type 0} (Q : Result A → Type 0) (b : Bool) (m n : Exec S A)
      → Meets Q m
      → Meets Q n
      → Meets Q (if b then m else n)
  Meets-if Q true m n h k = h
  Meets-if Q false m n h k = k

  -- What comes after a part that always raises is never reached.
  pub Raised-bind :
      {A B : Type 0} (m : Exec S A) (f : A → Exec S B) → Meets Raised m → Meets Raised (m >>= f)
  unfolding Meets
  Raised-bind m f h t =
      Outcome-bind (λ r _. Raised r) (λ r _. Raised r) m f t (h t) (λ e u raised. raised)
        (λ a u _ never. absurd never)

  refresh_spec-Beyond :
      (given : RunState) (often : Option ℤ) → Meets Beyond (refresh_spec deaf clock given often)
  unfolding refresh_spec Meets
  refresh_spec-Beyond given none = λ t. tt
  refresh_spec-Beyond given (some often) =
      Meets-bind Beyond _ _ (λ e h. h) (λ t. tt)
        λ moment.
          Meets-bind Beyond _ _ (λ e h. h)
            (λ t. sub_datetime-Beyond (aware moment) given.last_inspect)
            λ age.
              Meets-if Beyond (ltb_ℤ age often) _ _ (λ t. tt)
                (λ t. Raised-Beyond _ (Raised-bind down _ (λ u h. h) t))

  check_retention-Raised :
      (st : RunState) (name : String) → Meets Raised (check_retention deaf st name)
  unfolding check_retention Meets
  check_retention-Raised st name = Raised-bind down _ (λ t h. h)

module _ (S : Type 0) (schema table : String) (every : Option ℤ) where
  -- Where a given state is one of the table, its opening ends in an error of the source.
  pub opening_state-Raised :
      (given : Option RunState)
      → ((st : RunState) → given ≡ some st → qualified_name st.spec ≡ dotted schema table)
      → Meets S Raised (opening_state (deaf S) (clock S) schema table given every)
  unfolding opening_state seed Meets
  opening_state-Raised none own = Raised-bind S (down S) _ (λ t h. h)
  opening_state-Raised (some given) own =
      Meets-bind S Raised _ _ (λ e h. h)
        (λ t. check_table-Beyond given schema table (own given refl))
        λ _.
          Meets-bind S Raised _ _ (λ e h. h) (refresh_spec-Beyond S given every)
            λ st.
              Meets-bind S Raised _ _ (λ e h. h) (λ t. require_capture_instance-Beyond st.spec)
                λ name. Raised-bind S _ _ (check_retention-Raised S st name)
