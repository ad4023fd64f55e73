-- ===== src/Mssql/Server/Moves.antt =====
-- The operations of the SQL Server connector, as calls of the driver that each open and close one cursor.
use pydblog.Prelude.{
  ltb, ℕ, zero, suc, String, Bool, true, false, Option, none, some, List, [], ◌==◌,
}
use pydblog.Prelude.Int.{ℤ}
use pydblog.Exec.{Exec, collect, out_of_rounds, capture_timeout, ◌>>=◌, ◌>>◌}
use pydblog.Types.{ColumnSpec, TableSpec}
use pydblog.Lsn.{Lsn}
use pydblog.Frame.{Value}
use pydblog.Mssql.Identifier.{validate_identifier}
use pydblog.Mssql.Query.{build_event_query, build_read_table_query, build_pk_range_query}
use pydblog.Mssql.Driver.{Driver, Columnar}
use pydblog.Mssql.Session.{Settings, Session, call, with_cursor}
use pydblog.Mssql.Session.Cursors.{
  IsKept, Moves, Moves-lift, Moves-pure, Moves-raise, Moves-call, Moves-bind, Moves-bool, Moves-if,
  Moves-with_cursor,
}
use pydblog.Mssql.Schema.{row_schema, event_schema}
use pydblog.Mssql.Schema.Conform.{conform}
use pydblog.Mssql.Log.{
  map_lsn_to_timestamp, time_of, ask, get_min_lsn, get_max_lsn, watermark, read_event_log,
  captured_by,
}
use pydblog.Mssql.Barrier.{capture_passed, poll, monotonic, sleep, await_watermark}
use pydblog.Mssql.Catalog.{
  some_key, name_of, instance_of, column_of, validated, read_pk_columns, read_columns,
  read_capture_instance, read_captured_columns, reconcile, read_catalog, inspect,
}
use pydblog.Mssql.Table.{read_table, read_pk_range}

module _ {W : Type 0} (D : Driver W) (M : Settings) (R : W → W → Type 0) (K : IsKept D R) where
  executes :
      {A : Type 0} (cur : ℕ) (query : String) (params : List Value)
      (f : Unit {0} → Exec (Session W) A)
      → Moves D R (f tt)
      → Moves D R (call (D.execute cur query params) >>= f)
  executes cur query params f h =
      Moves-bind D R K (call (D.execute cur query params)) f
        (Moves-call D R K (D.execute cur query params) (K.execute cur query params)) λ _. h

  ask-Moves : (query : String) (params : List Value) → Moves D R (ask D M query params)
  unfolding ask
  ask-Moves query params =
      Moves-with_cursor D R K M _
        λ cur. executes cur query params _ (Moves-call D R K (D.fetchone cur) (K.fetchone cur))

  -- A query of one row, and what is made of the row.
  asks :
      {A : Type 0} (query : String) (params : List Value)
      (f : Option (List Value) → Exec (Session W) A)
      → ((row : Option (List Value)) → Moves D R (f row))
      → Moves D R (ask D M query params >>= f)
  asks query params f h = Moves-bind D R K (ask D M query params) f (ask-Moves query params) h

  pub get_min_lsn-Moves : (name : String) → Moves D R (get_min_lsn D M name)
  unfolding get_min_lsn
  get_min_lsn-Moves name = asks _ _ _ λ row. Moves-lift D R K _

  pub get_max_lsn-Moves : Moves D R (get_max_lsn D M)
  unfolding get_max_lsn
  get_max_lsn-Moves = asks _ _ _ λ row. Moves-lift D R K _

  pub watermark-Moves : Moves D R (watermark D M)
  unfolding watermark
  watermark-Moves = asks _ _ _ λ row. Moves-lift D R K _

  -- The rows of a query as a table.
  table-Moves :
      (query : String) (params : List Value)
      → Moves D R (with_cursor D M λ cur. (call (D.execute cur query params) >> call (D.arrow cur)))
  table-Moves query params =
      Moves-with_cursor D R K M _
        λ cur. executes cur query params _ (Moves-call D R K (D.arrow cur) (K.arrow cur))

  pub read_event_log-Moves :
      (C : Columnar) (spec : TableSpec) (low high : Lsn)
      → Moves D R (read_event_log D M C spec low high)
  unfolding read_event_log
  read_event_log-Moves C spec low high =
      Moves-bind D R K _ _ (Moves-lift D R K (build_event_query spec)) λ query.
        Moves-bind D R K _ _ (table-Moves query _) λ table.
          Moves-if D R K (table.num_rows == 0) _ _ (Moves-pure D R K none) (
            Moves-bind D R K _ _ (Moves-lift D R K (captured_by spec)) λ name.
              Moves-bind D R K _ _ (Moves-lift D R K (event_schema spec)) λ schema.
                Moves-bind D R K _ _ (Moves-lift D R K (conform C table schema _))
                  λ events. Moves-pure D R K (some (C.data_frame events)))

  pub read_table-Moves :
      (C : Columnar) (spec : TableSpec) (low high : Option ℤ) (limit : ℤ)
      → Moves D R (read_table D M C spec low high limit)
  unfolding read_table
  read_table-Moves C spec low high limit =
      Moves-bind D R K _ _
        (Moves-lift D R K (build_read_table_query M.pagination spec low high limit))
        λ query. Moves-bind D R K _ _ (table-Moves query.text _) λ table.
          Moves-bind D R K _ _ (Moves-lift D R K (row_schema spec)) λ schema.
            Moves-bind D R K _ _ (Moves-lift D R K (conform C table schema _))
              λ rows. Moves-pure D R K (C.data_frame rows)

  pub read_pk_range-Moves : (spec : TableSpec) → Moves D R (read_pk_range D M spec)
  unfolding read_pk_range
  read_pk_range-Moves spec =
      Moves-bind D R K _ _ (Moves-lift D R K (build_pk_range_query spec))
        λ query. asks query [] _ λ row. Moves-lift D R K _

  capture_passed-Moves : (cur mark : ℕ) → Moves D R (capture_passed D cur mark)
  unfolding capture_passed
  capture_passed-Moves cur mark = executes cur _ _ _ (
      Moves-bind D R K _ _ (Moves-call D R K (D.fetchone cur) (K.fetchone cur))
        λ row. Moves-pure D R K _)

  monotonic-Moves : Moves D R (monotonic D)
  unfolding Moves
  monotonic-Moves s = K.monotonic s.world

  sleep-Moves : (pause : ℕ) → Moves D R (sleep D pause)
  unfolding Moves
  sleep-Moves pause s = K.sleep pause s.world

  poll-Moves :
      (rounds pause deadline cur mark : ℕ) → Moves D R (poll D rounds pause deadline cur mark)
  unfolding poll
  poll-Moves zero pause deadline cur mark = Moves-raise D R K Bool out_of_rounds
  poll-Moves (suc rounds) pause deadline cur mark = Moves-bind D R K _ _ monotonic-Moves λ time.
      Moves-bool D R K (ltb time deadline) _ _
        (Moves-bind D R K _ _ (capture_passed-Moves cur mark) λ passed.
          Moves-bool D R K passed _ _
            (Moves-bind D R K _ _ monotonic-Moves λ _. Moves-pure D R K true)
            (Moves-bind D R K _ _ (sleep-Moves pause)
              λ _. poll-Moves rounds pause deadline cur mark))
        (Moves-pure D R K false)

  pub await_watermark-Moves : (mark : ℕ) → Moves D R (await_watermark D M mark)
  unfolding await_watermark
  await_watermark-Moves mark = Moves-bind D R K _ _ monotonic-Moves λ started.
      Moves-bind D R K _ _
        (Moves-with_cursor D R K M _
          λ cur. poll-Moves (suc M.watermark_timeout) M.watermark_poll _ cur mark)
        λ passed.
          Moves-if D R K passed _ _ (Moves-pure D R K tt)
            (Moves-raise D R K (Unit {0}) (capture_timeout mark))

  read_pk_columns-Moves : (cur : ℕ) (name : String) → Moves D R (read_pk_columns D cur name)
  unfolding read_pk_columns
  read_pk_columns-Moves cur name = executes cur _ _ _ (
      Moves-bind D R K _ _ (Moves-call D R K (D.fetchall cur) (K.fetchall cur)) λ rows.
        Moves-bind D R K _ _ (Moves-lift D R K (collect name_of rows))
          λ names. Moves-lift D R K (some_key name names))

  read_columns-Moves : (cur : ℕ) (name : String) → Moves D R (read_columns D cur name)
  unfolding read_columns
  read_columns-Moves cur name = executes cur _ _ _ (
      Moves-bind D R K _ _ (Moves-call D R K (D.fetchall cur) (K.fetchall cur))
        λ rows. Moves-lift D R K (collect column_of rows))

  read_capture_instance-Moves :
      (cur : ℕ) (name schema : String) → Moves D R (read_capture_instance D cur name schema)
  unfolding read_capture_instance
  read_capture_instance-Moves cur name schema = executes cur _ _ _ (
      Moves-bind D R K _ _ (Moves-call D R K (D.fetchone cur) (K.fetchone cur))
        λ row. Moves-lift D R K (instance_of row))

  reconcile-Moves :
      (cur : ℕ) (columns : List ColumnSpec) (capture_instance : Option String) (schema : String)
      → Moves D R (reconcile D cur columns capture_instance schema)
  unfolding reconcile read_captured_columns
  reconcile-Moves cur columns none schema = Moves-pure D R K columns
  reconcile-Moves cur columns (some name) schema =
      Moves-bind D R K _ _
        (Moves-bind D R K _ _ (Moves-lift D R K (validate_identifier name "capture instance"))
          λ safe. Moves-bind D R K _ _ (read_columns-Moves cur _) λ found. Moves-pure D R K _)
        λ captured. Moves-pure D R K _

  pub inspect-Moves :
      (schema table captures : String) → Moves D R (inspect D M schema table captures)
  unfolding inspect read_catalog
  inspect-Moves schema table captures =
      Moves-bind D R K _ _
        (Moves-with_cursor D R K M _ λ cur.
          Moves-bind D R K _ _ (read_pk_columns-Moves cur _) λ pk_columns.
            Moves-bind D R K _ _ (read_capture_instance-Moves cur _ captures) λ capture_instance.
              Moves-bind D R K _ _ (read_columns-Moves cur _) λ columns.
                Moves-bind D R K _ _ (reconcile-Moves cur columns capture_instance captures)
                  λ captured. Moves-pure D R K _)
        λ spec. Moves-lift D R K (validated spec)

  pub map_lsn_to_timestamp-Moves : (lsn : Lsn) → Moves D R (map_lsn_to_timestamp D M lsn)
  unfolding map_lsn_to_timestamp
  map_lsn_to_timestamp-Moves lsn = asks _ _ _ λ row. Moves-pure D R K (time_of row)
