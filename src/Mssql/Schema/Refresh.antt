-- ===== src/Mssql/Schema/Refresh.antt =====
-- `_refresh_spec` against the schemas of connectors/mssql/schema.py.
use pydblog.Prelude.{◌≡◌, Option, List}
use pydblog.Prelude.Int.{ℤ}
use pydblog.Exec.{ok}
use pydblog.Arrow.{Field}
use pydblog.State.{RunState}
use pydblog.Connector.{SourceConnector, Host}
use pydblog.Dblog.Guards.{refresh_spec}
use pydblog.Dblog.Guards.Schema.{refresh_spec-frames}
use pydblog.Mssql.Schema.{row_schema, event_schema}
use pydblog.Mssql.Schema.Agreement.{schemas_congr}

-- Where the spec of the given state has schemas for its two reads, the spec of a state that
-- `_refresh_spec` returns has the same ones, whatever the source answers.
pub refresh_spec-schemas :
    {S : Type 0} (C : SourceConnector S) (H : Host S) (state kept : RunState)
    (inspect_every : Option ℤ) (s u : S) (rows events : List Field)
    → refresh_spec C H state inspect_every s ≡ (ok kept, u)
    → row_schema state.spec ≡ ok rows
    → event_schema state.spec ≡ ok events
    → (row_schema kept.spec ≡ ok rows) × (event_schema kept.spec ≡ ok events)
refresh_spec-schemas C H state kept every s u rows events e =
    let (refreshed, names) = refresh_spec-frames C H state kept every s u e in
    schemas_congr state.spec kept.spec rows events refreshed.frames.captured
