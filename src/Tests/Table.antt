-- ===== src/Tests/Table.antt =====
-- A table of one row, whose value each commit sets to the commit's number, with a log and a clock:
-- the contract `IsFaithful` can be met. A watermark and a page read each let one commit slip in.
use native.Mathlib.Nat.{le_refl}
use pydblog.Prelude.{
  ℕ, zero, suc, ◌+◌, ◌-◌, ◌^◌, ◌≤◌, ◌<◌, ◌≡◌, refl, ap, ◌∙◌, String, Bool, true, false, Option,
  none, some, List, [], ◌∷◌, map, arith, ltb, leb, if◌then◌else◌, Bool-cases, inl, inr,
}
use pydblog.Prelude.Int.{ℤ, pos, leb_ℤ}
use pydblog.Exec.{Class, Error, Result, ok, err, err_ne_ok, lift, source_failure}
use pydblog.State.{RunState, aware}
use pydblog.Dblog.Guards.{refresh_spec}
use pydblog.Types.{ColumnSpec, TableSpec}
use pydblog.Arrow.{Field, uint8, int64, dtype_of}
use pydblog.Lsn.{Lsn, int_from_bytes, int_to_bytes, increment_lsn, IsLsn}
use pydblog.Lsn.Value.{length-int_to_bytes, int_to_bytes-IsBytes, int_from_bytes-int_to_bytes}
use pydblog.Lsn.Order.{increment_lsn-value}
use pydblog.Frame.{int, Row, cell, Frame, joins}
use pydblog.Connector.{SourceConnector, Host}
use pydblog.Source.{Layout, has_key, image, after, History, as_of, events_from, page_image}
use pydblog.Source.Contract.{Ghost, IsFaithful, IsKeyed, AreStamped, IsPage, AtLeast, rows_of}

abbrev pub layout : Layout
layout = record { leading = "id"; kept = "id" ∷ "v" ∷ [] }

-- The one row, as the commit `n` leaves it.
abbrev pub stored : ℕ → Row
stored n = ("id", int (pos 1)) ∷ ("v", int (pos n)) ∷ []

abbrev pub event : ℕ → Row
event n = ("operation", int (pos 4)) ∷ stored n

abbrev pub history : History
history = record { initial = λ _. none; events_at = λ n. event n ∷ [] }

abbrev column : String → ColumnSpec
column name = record {
  name = name;
  type_name = "bigint";
  precision = 19;
  scale = 0;
  computed_definition = none;
}

abbrev pub table : TableSpec
table = record {
  source_schema = "dbo";
  source_table = "orders";
  pk_columns = "id" ∷ [];
  columns = column "id" ∷ column "v" ∷ [];
  captured_columns = column "id" ∷ column "v" ∷ [];
  capture_instance = some "dbo_orders";
}

abbrev fields : List Field
fields = record { name = "id"; dtype = int64 } ∷ record { name = "v"; dtype = int64 } ∷ []

abbrev pub row_frame : List Row → Frame
row_frame rows = record { schema = fields; rows = rows }

abbrev pub event_frame : List Row → Frame
event_frame rows = record {
  schema = record { name = "operation"; dtype = uint8 } ∷ fields;
  rows = rows;
}

abbrev pub ghost : Ghost ℕ
ghost = record {
  position = λ s. s;
  captured = λ s. s;
  committed_by = λ m. m;
  row_fields = λ _. fields;
  event_fields = λ _. record { name = "operation"; dtype = uint8 } ∷ fields;
}

-- Whether a page that opens at the bound holds the row.
abbrev reaches : Option ℤ → Bool
reaches none = true
reaches (some low) = leb_ℤ low (pos 1)

abbrev page : Option ℤ → ℕ → Frame
page low s = row_frame (if reaches low then stored s ∷ [] else [])

abbrev stamp : List Row → List Row
stamp rows = map (λ row. ("operation", int (pos 0)) ∷ row) rows

abbrev pub source : SourceConnector ℕ
source = record {
  get_max_lsn = λ s. (
    if ltb s (256 ^ 10)
        then ok (int_to_bytes 10 s)
        else err (source_failure Class.runtime_error "no LSN is left"),
    s,
  );
  get_min_lsn = λ name s. (
    if ltb 0 s
        then ok (int_to_bytes 10 1)
        else err (source_failure Class.runtime_error "there is no change table"),
    s,
  );
  watermark = λ s. (ok s, suc s);
  await_watermark = λ m s.
      (if leb m s then ok tt else err (source_failure Class.timeout_error "not caught up"), s);
  connect = λ s. (ok tt, s);
  close = λ s. (ok tt, s);
  enter = λ s. (ok tt, s);
  exit = λ s. (ok tt, s);
  inspect = λ schema name s. (ok table, s);
  read_event_log = λ spec low high s. (
    ok (
        some (
          event_frame (
            events_from history (int_from_bytes low)
              (suc (int_from_bytes high) - int_from_bytes low)))),
    s,
  );
  to_events = λ f spec low. ok (event_frame (stamp f.rows));
  read_table = λ spec low high limit s. (ok (page low s), suc s);
  read_pk_range = λ spec s. (ok (some (pos 1, pos 1)), s);
  increment_lsn = increment_lsn;
}

abbrev pub host : Host ℕ
host = record { utc_now = λ s. (s, s); warn = λ w s. s }

-- At each position the table holds its one row.
as_of-value :
    (n : ℕ) (k : ℤ)
    → as_of layout history n k
      ≡ (if has_key layout k (stored n) then some (int (pos 1) ∷ int (pos n) ∷ []) else none)
unfolding as_of after image joins cell
as_of-value zero k = ground arith
as_of-value (suc n) k = ground (arith, as_of-value n k)

page-IsPage : (low : Option ℤ) (s : ℕ) → IsPage "id" low (page low s).rows
unfolding cell
page-IsPage none s = (pos 1, refl, tt, tt)
page-IsPage (some low) s = elim (Bool-cases (leb_ℤ low (pos 1))) [
  | inl there ↦ rw there (pos 1, refl, ground arith, tt)
  | inr above ↦ rw above tt
]

page-as_of :
    (low : Option ℤ) (s : ℕ) (k : ℤ)
    → AtLeast low k
    → page_image layout k (page low s).rows ≡ as_of layout history s k
unfolding page_image joins cell
page-as_of none s k ahead = rw as_of-value refl
page-as_of (some low) s k ahead = elim (Bool-cases (leb_ℤ low (pos 1))) [
  | inl there ↦ rw (there, as_of-value) refl
  | inr above ↦ rw (above, as_of-value) (ground arith)
]

stamp-AreStamped : (rows : List Row) → AreStamped layout rows (stamp rows)
unfolding cell joins
stamp-AreStamped [] = tt
stamp-AreStamped (row ∷ rows) = (refl, refl, refl, stamp-AreStamped rows)

int_to_bytes-IsLsn : (n : ℕ) → IsLsn (int_to_bytes 10 n)
int_to_bytes-IsLsn n = record {
  bytes = int_to_bytes-IsBytes 10 n;
  width = length-int_to_bytes 10 n;
}

-- What an answer that was returned says.
returned : {A : Type 0} (a b : A) (s u : ℕ) → lift (Result.ok a) s ≡ (ok b, u) → (a ≡ b) × (s ≡ u)
returned a b s u e = let same : Result.ok a ≡ ok b = ap (λ p. p.0) e in (cc, ap (λ p. p.1) e)

tested :
    {A : Type 0} (b : Bool) (a c : A) (x : Error) (s u : ℕ)
    → lift (if b then ok a else err x) s ≡ (ok c, u)
    → (b ≡ true) × (a ≡ c) × (s ≡ u)
tested true a c x s u e = let (same, stays) = returned a c s u e in (refl, same, stays)
tested false a c x s u e = absurd (err_ne_ok x c (ap (λ p. p.0) e))

max_lsn-issued :
    (s u : ℕ) (high : Lsn)
    → source.get_max_lsn s ≡ (ok high, u)
    → IsLsn high × (s ≤ int_from_bytes high) × (int_from_bytes high ≤ u)
max_lsn-issued s u high e =
    let (room, made, stays) =
      tested (ltb s (256 ^ 10)) (int_to_bytes 10 s) high
        (source_failure Class.runtime_error "no LSN is left") s u e in
    let value = int_from_bytes-int_to_bytes 10 s (ground arith) in
    rw (← made, ← stays, value) (int_to_bytes-IsLsn s, le_refl s, le_refl s)

min_lsn-issued :
    (name : String) (s u : ℕ) (floor : Lsn)
    → source.get_min_lsn name s ≡ (ok floor, u)
    → IsLsn floor × (0 < int_from_bytes floor) × (int_from_bytes floor ≤ u)
min_lsn-issued name s u floor e =
    let (some_commit, made, stays) =
      tested (ltb 0 s) (int_to_bytes 10 1) floor
        (source_failure Class.runtime_error "there is no change table") s u e in
    let value = int_from_bytes-int_to_bytes 10 1 (ground arith) in
    rw (← made, ← stays, value) (int_to_bytes-IsLsn 1, omega arith, ground arith)

passed : (m s u : ℕ) → source.await_watermark m s ≡ (ok tt, u) → m ≤ u
passed m s u e =
    let (enough, _, stays) =
      tested (leb m s) tt tt (source_failure Class.timeout_error "not caught up") s u e in
    ground arith

pub table-IsKeyed : IsKeyed layout ghost table
unfolding dtype_of
table-IsKeyed = record { keyed = refl; key_type = int64; in_rows = refl; in_events = refl }

page_read :
    (low : Option ℤ) (s u : ℕ) (f : Frame)
    → page low s ≡ f
    → suc s ≡ u
    → (f.schema ≡ fields)
      × IsPage "id" low f.rows
      × ((k : ℤ)
          → AtLeast low k
          → (t : ℕ) × (s ≤ t) × (t ≤ u) × (page_image layout k f.rows ≡ as_of layout history t k))
page_read low s u f same moved =
    rw (← same)
      (refl, page-IsPage low s, λ k ahead. (s, le_refl s, omega arith, page-as_of low s k ahead))

log_read :
    (low high : Lsn) (base count s u : ℕ) (events : Option Frame)
    → int_from_bytes low ≡ suc base
    → int_from_bytes high ≡ base + count
    → some (
        event_frame (
          events_from history
            (int_from_bytes low)
            (suc (int_from_bytes high) - int_from_bytes low)))
      ≡ events
    → (rows_of events ≡ events_from history (suc base) count)
      × ((f : Frame) → events ≡ some f → f.schema ≡ ghost.event_fields table)
log_read low high base count s u events opens ends same =
    let width : suc (base + count) - suc base ≡ count = omega arith in
    rw (← same, opens, ends, width) (refl, λ f e. cc)

pub source-IsFaithful : IsFaithful source host layout history ghost
source-IsFaithful = record {
  later_max = λ s. le_refl s;
  later_min = λ name s. le_refl s;
  later_mark = λ s. omega arith;
  later_await = λ m s. le_refl s;
  later_inspect = λ schema name s. le_refl s;
  later_log = λ spec low high s. le_refl s;
  later_table = λ spec low high limit s. omega arith;
  later_now = λ s. le_refl s;
  later_warn = λ w s. le_refl s;
  max_lsn = max_lsn-issued;
  min_lsn = min_lsn-issued;
  mark = λ s u m e. rw ((returned s m (suc s) u e).0) (le_refl m);
  awaited = passed;
  inspected = λ schema name s u spec e. rw (← (returned table spec s u e).0) table-IsKeyed;
  table_rows = λ spec low limit s u f keyed one e.
      let (same, moved) = returned (page low s) f (suc s) u e in
      let (schema, ordered, seen) = page_read low s u f same moved in
      (schema, ordered, λ k ahead _. seen k ahead);
  log_rows = λ spec low high base count s u events keyed opens ends e.
      log_read low high base count s u events opens ends (returned _ events s u e).0;
  stamped = λ f g spec low same e.
      let made : event_frame (stamp f.rows) ≡ g = cc in rw (← made) (refl, stamp-AreStamped f.rows);
  incremented =
      λ a c h e. let (made, next) = increment_lsn-value a h e in (made, next ∙ omega arith);
}

-- The LSN of the number 256 * m + n.
abbrev pub lsn : ℕ → ℕ → Lsn
lsn m n = 0 ∷ 0 ∷ 0 ∷ 0 ∷ 0 ∷ 0 ∷ 0 ∷ 0 ∷ m ∷ n ∷ []

pub lsn-IsLsn : (m n : ℕ) → m < 256 → n < 256 → IsLsn (lsn m n)
lsn-IsLsn m n hm hn = record {
  bytes =
      let zero_fits : 0 < 256 = omega arith in
      (
        zero_fits,
        (
          zero_fits,
          (
            zero_fits,
            (zero_fits, (zero_fits, (zero_fits, (zero_fits, (zero_fits, (hm, (hn, tt))))))),
          ),
        ),
      );
  width = refl;
}

-- A state from before a column that is not captured was added, and the state that takes its place.
abbrev pub stale : RunState
stale = record {
  spec = record table { columns = [] };
  last_lsn = lsn 0 4;
  last_inspect = aware 1;
  chunk_key = some (pos 2);
  dump_done = true;
}

abbrev pub renewed : RunState
renewed = record stale { spec = table; last_inspect = aware 9 }

pub refresh_run : refresh_spec source host stale (some (pos 3)) 9 ≡ (ok renewed, 9)
unfolding refresh_spec pydblog.Exec.◌>>=◌ pydblog.State.sub_datetime pydblog.Types.eq_column
    pydblog.Dblog.Guards.require_capture_instance pydblog.Types.lower
refresh_run = refl
