-- ===== src/Mssql/Server.antt =====
-- The SQL Server connector as a source, and `build_connector` of connectors/base.py.
pub mod Built
pub mod Kept
pub mod Moves
pub mod Pinned
use text.Mathlib.Text.{◌==◌ as str_eq}
use pydblog.Prelude.{ℕ, String, Option, some, if◌then◌else◌}
use pydblog.Exec.{Result, ok, err, and_then, unknown_source_type, source_undefined, argument_twice}
use pydblog.Types.{SourceType, mssql, postgres}
use pydblog.Lsn.{increment_lsn}
use pydblog.Connector.{SourceConnector}
use pydblog.Mssql.Driver.{Driver, Columnar}
use pydblog.Mssql.Session.{connect, close, Settings, Keywords, Session, init}
use pydblog.Mssql.Log.{get_min_lsn, get_max_lsn, watermark, read_event_log, to_events}
use pydblog.Mssql.Barrier.{await_watermark}
use pydblog.Mssql.Catalog.{inspect}
use pydblog.Mssql.Table.{read_table, read_pk_range}

-- The methods of `MSSQLConnector` that the Protocol names. `inspect` is called with its default schema.
unfoldable pub mssql_source :
    {W : Type 0} → Driver W → Columnar → Settings → SourceConnector (Session W)
mssql_source D K M = record {
  get_max_lsn = get_max_lsn D M;
  get_min_lsn = λ capture_instance. get_min_lsn D M capture_instance;
  watermark = watermark D M;
  await_watermark = λ mark. await_watermark D M mark;
  connect = connect D M;
  close = close D M;
  enter = connect D M;
  exit = close D M;
  inspect = λ schema table. inspect D M schema table "cdc";
  read_event_log = λ spec from_lsn to_lsn. read_event_log D M K spec from_lsn to_lsn;
  to_events = λ rows spec mark. to_events K rows spec (some mark);
  read_table = λ spec start_pk end_pk limit. read_table D M K spec start_pk end_pk limit;
  read_pk_range = λ spec. read_pk_range D M spec;
  increment_lsn = increment_lsn;
}

-- `SourceType(source_type)`, where the source type is a string.
unfoldable pub source_type_of : String → Result SourceType
source_type_of name =
    if str_eq name "mssql"
    then ok mssql
    else if str_eq name "postgres"
    then ok postgres
    else err (unknown_source_type name)

-- `__init__` called with all five arguments by name and with `count` further ones by position, which
-- come first: the first of these is `host` once more.
unfoldable pub init_with :
    ℕ → String → String → String → String → String → Keywords → Result Settings
unfolding init
init_with ℕ.zero host user password database port k = init host user password database port k
init_with (ℕ.suc count) host user password database port k = err argument_twice

-- `build_connector`, where `count` is how many further arguments are given by position.
unfoldable pub build_connector :
    String → String → String → String → String → String → ℕ → Keywords → Result Settings
unfolding source_type_of init_with
build_connector source_type host port user password database count k =
    and_then (source_type_of source_type) λ t. elim t [
      | mssql ↦ init_with count host user password database port k
      | postgres ↦ err source_undefined
    ]
