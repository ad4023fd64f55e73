-- ===== src/Mssql/Server/Pinned.antt =====
-- The schemas of the frames that the SQL Server connector hands out.
use pydblog.Prelude.{◌≡◌, String, refl, ap, ◌∙◌, Option, some, ◌==◌, List}
use pydblog.Prelude.Int.{ℤ}
use pydblog.Exec.{Result, ok, lift}
use pydblog.Exec.Ensures.{Ensures, Ensures-elim, Ensures-then, Ensures-if, lift-eq-ok}
use pydblog.Types.{TableSpec}
use pydblog.Lsn.{Lsn}
use pydblog.Arrow.{Field}
use pydblog.Frame.{Frame}
use pydblog.Connector.{SourceConnector}
use pydblog.Mssql.Query.{build_read_table_query, build_event_query}
use pydblog.Mssql.Driver.{Driver, ArrowTable, Columnar, IsColumnar, frame_schema}
use pydblog.Mssql.Session.{Settings, Session, with_cursor}
use pydblog.Mssql.Schema.{row_schema, event_schema}
use pydblog.Mssql.Schema.Conform.{conform}
use pydblog.Mssql.Schema.Conform.Pinned.{conform-eq-ok}
use pydblog.Mssql.Log.{read_event_log, captured_by}
use pydblog.Mssql.Table.{read_table}
use pydblog.Mssql.Server.{mssql_source}

-- A frame's columns are those of the Arrow schema that was declared, where there is one, in its order
-- and at the types that polars reads them as.
abbrev pub Lands : Result (List Field) → Frame → Type 0
Lands declared f = (schema : List Field) × (declared ≡ ok schema) × (f.schema ≡ frame_schema schema)

-- Every frame of table rows or of events has the schema that the spec declares for that read.
pub record IsPinned {S : Type 0} (C : SourceConnector S) : Type 0 where
  pub rows :
      (spec : TableSpec) (low high : Option ℤ) (limit : ℤ) (s u : S) (f : Frame)
      → C.read_table spec low high limit s ≡ (ok f, u)
      → Lands (row_schema spec) f
  pub events :
      (spec : TableSpec) (low high : Lsn) (s u : S) (f : Frame)
      → C.read_event_log spec low high s ≡ (ok (some f), u)
      → Lands (event_schema spec) f

module _ {W : Type 0} (D : Driver W) (M : Settings) (K : Columnar) (L : IsColumnar K) where
  framed :
      (declared : Result (List Field)) (table t : ArrowTable) (schema : List Field)
      (context : String)
      → declared ≡ ok schema
      → conform K table schema context ≡ ok t
      → Lands declared (K.data_frame t)
  framed declared table t schema context typed made = (
    schema,
    typed,
    L.schema-data_frame t ∙ ap frame_schema (conform-eq-ok K L table t schema context made).0,
  )

  read_table-schema :
      (spec : TableSpec) (low high : Option ℤ) (limit : ℤ) (s : Session W)
      → Ensures (λ f _. Lands (row_schema spec) f) (read_table D M K spec low high limit s)
  unfolding read_table
  read_table-schema spec low high limit s =
      Ensures-then _ (lift (build_read_table_query M.pagination spec low high limit)) _ s
        λ query t _. Ensures-then _ (with_cursor D M _) _ t λ table u _.
          Ensures-then _ (lift (row_schema spec)) _ u λ schema v e.
            Ensures-then _ (lift (conform K table schema _)) _ v λ rows w e'.
              framed (row_schema spec) table rows schema _
                (lift-eq-ok (row_schema spec) u v schema e).0
                (lift-eq-ok (conform K table schema _) v w rows e').0

  SomeEvents : TableSpec → Option Frame → Type 0
  SomeEvents spec events = (f : Frame) → events ≡ some f → Lands (event_schema spec) f

  read_event_log-schema :
      (spec : TableSpec) (low high : Lsn) (s : Session W)
      → Ensures (λ events _. SomeEvents spec events) (read_event_log D M K spec low high s)
  unfolding read_event_log SomeEvents
  read_event_log-schema spec low high s =
      Ensures-then _ (lift (build_event_query spec)) _ s λ query t _.
        Ensures-then _ (with_cursor D M _) _ t λ table u _.
          Ensures-if _ (table.num_rows == 0) _ _ u (λ empty f e. cc)
            λ filled. Ensures-then _ (lift (captured_by spec)) _ u λ name v _.
              Ensures-then _ (lift (event_schema spec)) _ v λ schema w e.
                Ensures-then _ (lift (conform K table schema _)) _ w λ events x e'. λ f same.
                  let whole : K.data_frame events ≡ f = cc in
                  rw (← whole) (
                    framed (event_schema spec) table events schema _
                      (lift-eq-ok (event_schema spec) v w schema e).0
                      (lift-eq-ok (conform K table schema _) w x events e').0)

-- Every frame of table rows and every frame of events that the connector hands out has exactly the
-- columns of the Arrow schema that the spec declares for that read, in this order, each at the polars
-- type that its Arrow type is read as, for the pyarrow and the polars that are documented.
pub mssql_source-IsPinned :
    {W : Type 0} (D : Driver W) (M : Settings) (K : Columnar)
    → IsColumnar K
    → IsPinned (mssql_source D K M)
unfolding mssql_source SomeEvents
mssql_source-IsPinned D M K L = record {
  rows = λ spec low high limit s u f e.
      Ensures-elim (λ f _. Lands (row_schema spec) f) _ f u e
        (read_table-schema D M K L spec low high limit s);
  events = λ spec low high s u f e.
      Ensures-elim (λ events _. SomeEvents D M K L spec events) _ (some f) u e
        (read_event_log-schema D M K L spec low high s) f refl;
}
