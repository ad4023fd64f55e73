-- ===== src/Mssql/Log.antt =====
-- The change log as connectors/mssql/connector.py reads it: `get_min_lsn`, `get_max_lsn`, `watermark`,
-- `map_lsn_to_timestamp`, `read_event_log` and `to_events`.
pub mod Floor
pub mod Stamped
use pydblog.Prelude.{
  ℕ, ◌+◌, ◌/◌, String, Bool, true, false, Option, none, some, List, [], ◌∷◌, ◌++◌, length, ◌==◌,
  if◌then◌else◌,
}
use Prim.Native.String.{◌++◌ as ◌<>◌}
use pydblog.Prelude.Int.{pos}
use pydblog.Builtins.{first}
use pydblog.Exec.{
  Error, Result, ok, err, Exec, and_then, pure, raise, lift, ◌>>=◌, ◌>>◌, no_min_lsn, no_max_lsn,
  no_watermark, ill_typed_answer, not_captured,
}
use pydblog.Types.{TableSpec, business_columns, qualified_name}
use pydblog.Lsn.{Lsn, lsn_width_bytes}
use pydblog.Arrow.{Field, large_binary, int32, timestamp, microseconds}
use pydblog.Frame.{Value, null, int, binary, moment, str, eq_bytes, Frame}
use pydblog.Mssql.Query.{build_event_query}
use pydblog.Mssql.Driver.{Driver, Columnar}
use pydblog.Mssql.Session.{Settings, Session, call, with_cursor}
use pydblog.Mssql.Schema.{event_schema}
use pydblog.Mssql.Schema.Conform.{conform}

-- `bytes(width)`
abbrev pub zeros : ℕ → Lsn
zeros ℕ.zero = []
zeros (ℕ.suc n) = 0 ∷ zeros n

-- `row[0]`, where a row that is not there or holds NULL means that there is no answer.
unfoldable pub answer : Option (List Value) → Error → Result Value
answer none missing = err missing
answer (some row) missing = and_then (first row) λ cell. elim cell [ null ↦ err missing | v ↦ ok v ]

-- An LSN is binary and a time is a time; the driver hands out nothing else for these columns.
unfoldable pub as_lsn : Value → Result Lsn
as_lsn (binary lsn) = ok lsn
as_lsn _ = err ill_typed_answer

unfoldable pub as_moment : Value → Result ℕ
as_moment (moment m) = ok m
as_moment _ = err ill_typed_answer

-- The floor, where zero stands for an instance that is unknown or out of reach.
unfoldable pub floor_of : String → Option (List Value) → Result Lsn
unfolding answer as_lsn
floor_of capture_instance row = and_then (answer row (no_min_lsn capture_instance)) λ cell.
    and_then (as_lsn cell) λ lsn.
      if eq_bytes lsn (zeros lsn_width_bytes) then err (no_min_lsn capture_instance) else ok lsn

-- OP_DUMP
abbrev pub op_dump : Value
op_dump = int (pos 0)

-- `_mask_width`
unfoldable pub mask_width : TableSpec → ℕ
mask_width spec = (length (business_columns spec) + 7) / 8

abbrev or_null : Option ℕ → Value
or_null none = null
or_null (some m) = moment m

-- The literals of `to_events`.
unfoldable pub stamps : TableSpec → Option ℕ → List (Field × Value)
unfolding mask_width
stamps spec commit_timestamp =
    (record { name = "start_lsn"; dtype = large_binary }, binary (zeros lsn_width_bytes))
    ∷ (record { name = "seqval"; dtype = large_binary }, binary (zeros lsn_width_bytes))
    ∷ (record { name = "operation"; dtype = int32 }, op_dump)
    ∷ (record { name = "update_mask"; dtype = large_binary }, binary (zeros (mask_width spec)))
    ∷ (
      record { name = "commit_timestamp"; dtype = timestamp microseconds none },
      or_null commit_timestamp,
    )
    ∷ []

unfoldable pub to_events : Columnar → Frame → TableSpec → Option ℕ → Result Frame
unfolding stamps
to_events K rows spec commit_timestamp = K.stamp (stamps spec commit_timestamp) rows

-- The time of an LSN, if the server has one.
unfoldable pub time_of : Option (List Value) → Option Value
time_of none = none
time_of (some []) = none
time_of (some (null ∷ row)) = none
time_of (some (v ∷ row)) = some v

-- Who the spec says captures the table.
unfoldable pub captured_by : TableSpec → Result String
captured_by spec = elim spec.capture_instance [
  | none ↦ err (not_captured (qualified_name spec))
  | some name ↦ ok name
]

module _ {W : Type 0} (D : Driver W) (M : Settings) where
  -- A query that is answered by at most one row.
  unfoldable pub ask : String → List Value → Exec (Session W) (Option (List Value))
  unfolding with_cursor
  ask query params =
      with_cursor D M λ cur. do call (D.execute cur query params); call (D.fetchone cur)

  unfoldable pub get_min_lsn : String → Exec (Session W) Lsn
  unfolding ask floor_of
  get_min_lsn capture_instance = do
    row ← ask "SELECT sys.fn_cdc_get_min_lsn(?) as min_lsn" (str capture_instance ∷ [])
    lift (floor_of capture_instance row)

  unfoldable pub get_max_lsn : Exec (Session W) Lsn
  unfolding ask answer as_lsn
  get_max_lsn = do
    row ← ask "SELECT sys.fn_cdc_get_max_lsn() as max_lsn" []
    lift (and_then (answer row no_max_lsn) as_lsn)

  unfoldable pub watermark : Exec (Session W) ℕ
  unfolding ask answer as_moment
  watermark = do
    row ← ask "SELECT SYSDATETIME()" []
    lift (and_then (answer row no_watermark) as_moment)

  unfoldable pub map_lsn_to_timestamp : Lsn → Exec (Session W) (Option Value)
  unfolding ask time_of
  map_lsn_to_timestamp lsn = do
    row ← ask "SELECT sys.fn_cdc_map_lsn_to_time(?)" (binary lsn ∷ [])
    pure (time_of row)

  unfoldable pub read_event_log : Columnar → TableSpec → Lsn → Lsn → Exec (Session W) (Option Frame)
  unfolding with_cursor build_event_query captured_by conform event_schema
  read_event_log K spec from_lsn to_lsn = do
    query ← lift (build_event_query spec)
    table ← with_cursor D M λ cur. do
      call (D.execute cur query (binary from_lsn ∷ binary to_lsn ∷ []))
      call (D.arrow cur)
    if table.num_rows == 0 then pure none else do
      capture_instance ← lift (captured_by spec)
      schema ← lift (event_schema spec)
      events ← lift (conform K table schema (capture_instance <> " events"))
      pure (some (K.data_frame events))
