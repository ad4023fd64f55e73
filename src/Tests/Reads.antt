-- ===== src/Tests/Reads.antt =====
-- Runs of the SQL Server connector on the server of Tests/Server.antt, and theorems at them.
use pydblog.Prelude.{ℕ, ◌≡◌, ◌↔◌, refl, String, Option, none, some, List, [], ◌∷◌, arith}
use pydblog.Exec.{Result, ok}
use pydblog.Types.{ColumnSpec, TableSpec, eq_list, eq_column}
use pydblog.Arrow.{Field, int32}
use pydblog.Lsn.{Lsn}
use pydblog.Frame.{str, moment}
use pydblog.Mssql.Identifier.{is_word, is_identifier, quote_identifier}
use pydblog.Mssql.Session.Block.{Keeps, with_connector-closed}
use pydblog.Mssql.Session.{connect, with_connector, Settings, Session, Keywords, settings_of}
use pydblog.Mssql.Table.{read_pk_range}
use pydblog.Mssql.Log.{get_min_lsn, map_lsn_to_timestamp}
use pydblog.Mssql.Barrier.{capture_query, await_watermark}
use pydblog.Mssql.Barrier.Rounds.{Settled, await_watermark-Settled}
use pydblog.Mssql.Catalog.{columns_query, mark_computed, inspect}
use pydblog.Mssql.Catalog.Inspected.{IsInspected, inspect-IsInspected}
use pydblog.Mssql.Server.{mssql_source, build_connector}
use pydblog.Mssql.Server.Built.{IsBuilt, build_connector-iff-IsBuilt}
use pydblog.Mssql.Server.Kept.{AllMove, mssql_source-closes}
use pydblog.Mssql.Server.Pinned.{IsPinned, mssql_source-IsPinned}
use pydblog.Tests.Columns.{columnar, columnar-IsColumnar}
use pydblog.Tests.Server.{Server, driver, driver-IsClock, driver-HasCursors, driver-HasConnections}

abbrev pub keywords : Keywords
keywords = record {
  encrypt = none;
  trust_server_certificate = none;
  application_name = none;
  watermark_timeout = some 10;
  watermark_poll = some 2;
  pagination = some "top";
}

abbrev pub source_type : String
source_type = "mssql"

abbrev pub no_more : ℕ
no_more = 0

abbrev pub settings : Settings
settings = settings_of "top" "db" "sa" "secret" "shop" "1433" keywords

built : build_connector source_type "db" "1433" "sa" "secret" "shop" no_more keywords ≡ ok settings
unfolding build_connector
built = refl

build_connector-iff-IsBuilt_example :
    (build_connector source_type "db" "1433" "sa" "secret" "shop" no_more keywords ≡ ok settings)
    ↔ ((source_type ≡ "mssql")
        × (no_more ≡ 0)
        × IsBuilt "db" "1433" "sa" "secret" "shop" keywords settings)
build_connector-iff-IsBuilt_example =
    build_connector-iff-IsBuilt source_type "db" "1433" "sa" "secret" "shop" no_more keywords
      settings

-- What is open on the server for a connector that has this connection.
abbrev open_by : Option ℕ → List ℕ
open_by none = []
open_by (some handle) = handle ∷ []

abbrev pub at : Option ℕ → ℕ → Session Server
at conn time = record {
  conn = conn;
  world = record { connections = open_by conn; cursors = []; time = time; query = ""; args = [] };
}

mssql_source-closes_example :
    AllMove (λ v w. v.cursors ≡ w.cursors) (mssql_source driver columnar settings)
    × ((spec : TableSpec) (s : Session Server)
        → s.world.cursors ≡ (read_pk_range driver settings spec s).1.world.cursors)
    × ((lsn : Lsn) (s : Session Server)
        → s.world.cursors ≡ (map_lsn_to_timestamp driver settings lsn s).1.world.cursors)
mssql_source-closes_example =
    mssql_source-closes driver settings columnar (λ w. w.cursors) driver-HasCursors

mssql_source-IsPinned_example : IsPinned (mssql_source driver columnar settings)
mssql_source-IsPinned_example = mssql_source-IsPinned driver settings columnar columnar-IsColumnar

await_watermark-Settled_example : Settled 4 (await_watermark driver settings 4 (at none 4)).0
await_watermark-Settled_example =
    await_watermark-Settled driver settings (λ w. w.time) driver-IsClock (omega arith) 4 (at none 4)

-- The first poll finds no scan past the mark, the second one does.
abbrev after_two_polls : Session Server
after_two_polls = record {
  conn = some 1;
  world = record {
    connections = 1 ∷ [];
    cursors = [];
    time = 6;
    query = capture_query;
    args = moment 4 ∷ moment 4 ∷ [];
  };
}

abbrev pub int_column : String → Option String → ColumnSpec
int_column name formula = record {
  name = name;
  type_name = "int";
  precision = 10;
  scale = 0;
  computed_definition = formula;
}

abbrev after_inspect : Session Server
after_inspect = record {
  conn = some 1;
  world = record {
    connections = 1 ∷ [];
    cursors = [];
    time = 4;
    query = columns_query;
    args = str "cdc.dbo_orders_CT" ∷ [];
  };
}

abbrev pub orders : TableSpec
orders = record {
  source_schema = "dbo";
  source_table = "orders";
  pk_columns = "id" ∷ [];
  columns = int_column "id" none ∷ int_column "twice" (some "id * 2") ∷ [];
  captured_columns = int_column "id" none ∷ int_column "twice" (some "id * 2") ∷ [];
  capture_instance = some "dbo_orders";
}

inspected :
    inspect driver settings "dbo" "orders" "cdc" (at (some 1) 4) ≡ (ok orders, after_inspect)
unfolding inspect pydblog.Exec.◌>>=◌ pydblog.Mssql.Session.with_cursor pydblog.Mssql.Session.connect
    pydblog.Mssql.Session.cursor pydblog.Mssql.Catalog.read_catalog
    pydblog.Mssql.Catalog.read_pk_columns pydblog.Mssql.Catalog.read_columns
    pydblog.Mssql.Catalog.read_capture_instance pydblog.Mssql.Catalog.read_captured_columns
    pydblog.Mssql.Catalog.reconcile pydblog.Mssql.Catalog.validated pydblog.Types.lower
    pydblog.Arrow.eq_type pydblog.Mssql.Identifier.validate_identifier is_identifier is_word
inspected = refl

inspect-IsInspected_example : IsInspected "dbo" "orders" orders
inspect-IsInspected_example =
    inspect-IsInspected driver settings "dbo" "orders" "cdc" (at (some 1) 4) after_inspect orders
      inspected

abbrev connected : Session Server
connected = at (some 1) 4

connected_run : connect driver settings (at none 4) ≡ (ok tt, connected)
unfolding connect pydblog.Exec.◌>>=◌
connected_run = refl

get_min_lsn-Keeps :
    Keeps driver settings
      (λ w. w.connections)
      driver-HasConnections
      (get_min_lsn driver settings "dbo_orders")
unfolding get_min_lsn pydblog.Exec.◌>>=◌ pydblog.Mssql.Session.with_cursor connect
    pydblog.Mssql.Session.cursor
get_min_lsn-Keeps v handle h = rw h (refl, refl)

-- The body is a read of the floor, which leaves the connection open.
with_connector-closed_example :
    ((with_connector driver settings (get_min_lsn driver settings "dbo_orders") (at none 4)).0
      ≡ (get_min_lsn driver settings "dbo_orders" connected).0)
    × ((with_connector driver settings
          (get_min_lsn driver settings "dbo_orders")
          (at none 4)).1.conn
        ≡ none)
    × ((with_connector driver settings
          (get_min_lsn driver settings "dbo_orders")
          (at none 4)).1.world.connections
        ≡ [])
with_connector-closed_example =
    with_connector-closed driver settings (λ w. w.connections) driver-HasConnections
      (get_min_lsn driver settings "dbo_orders") get_min_lsn-Keeps (at none 4) connected refl
      connected_run
