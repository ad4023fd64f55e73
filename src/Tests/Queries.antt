-- ===== src/Tests/Queries.antt =====
-- The queries, the stamping and the result sets of the SQL Server connector at concrete inputs.
use Prim.Native.String.{◌++◌ as ◌<>◌}
use pydblog.Prelude.{
  ◌↔◌, ℕ, ◌+◌, ◌<◌, ◌≡◌, refl, String, true, false, ◌&&◌, none, some, [], ◌∷◌, ◌++◌, arith,
}
use pydblog.Prelude.Int.{pos}
use pydblog.Exec.{Result, ok}
use pydblog.Types.{ColumnSpec, TableSpec, eq_list, eq_column}
use pydblog.Arrow.{Field, int32}
use pydblog.Lsn.{Lsn, int_from_bytes}
use pydblog.Frame.{Frame, int, null, binary, str, moment}
use pydblog.Source.{Layout}
use pydblog.Dblog.Drift.{member}
use pydblog.Mssql.Identifier.{is_word, is_identifier, quote_identifier}
use pydblog.Mssql.Identifier.Safe.{marks, quote_identifier-eq-ok}
use pydblog.Mssql.Query.Accepted.{IsReadable, build_read_table_query-iff-IsReadable}
use pydblog.Mssql.Query.Events.{build_event_query-placeholders}
use pydblog.Mssql.Query.Clauses.{placeholders}
use pydblog.Mssql.Query.{build_event_query, Query, build_read_table_query}
use pydblog.Mssql.Query.Fill.{fill}
use pydblog.Mssql.Query.Statement.{bracketed, statement}
use pydblog.Mssql.Query.Binds.{build_read_table_query-fill}
use pydblog.Builtins.{first}
use pydblog.Mssql.Driver.{ArrowTable}
use pydblog.Mssql.Session.{Settings, Session, Keywords, settings_of}
use pydblog.Mssql.Log.{map_lsn_to_timestamp, zeros, get_min_lsn}
use pydblog.Mssql.Log.Floor.{get_min_lsn-positive}
use pydblog.Mssql.Catalog.{mark_computed}
use pydblog.Mssql.Catalog.Computed.{computed_names, mark_computed-eq_list}
use pydblog.Mssql.Schema.{metadata_fields, contains}
use pydblog.Mssql.Schema.Conform.{conform}
use pydblog.Mssql.Schema.Conform.Pinned.{conform-eq-ok}
use pydblog.Tests.Columns.{columnar, columnar-IsColumnar}
use pydblog.Tests.Table.{lsn, lsn-IsLsn}
use pydblog.Tests.Server.{Server, driver, table_rows, int_field}
use pydblog.Tests.Reads.{settings, at, int_column, orders}

abbrev quoted : String
quoted = "[order_1]"

quoted_run : quote_identifier "order_1" "table" ≡ ok quoted
unfolding quote_identifier pydblog.Mssql.Identifier.validate_identifier is_identifier is_word
quoted_run = refl

quote_identifier-eq-ok_example :
    (is_identifier "order_1" ≡ true)
    × (quoted ≡ "[order_1]")
    × ((c : ℕ) → is_word c ≡ false → marks c quoted ≡ marks c "[" + marks c "]")
quote_identifier-eq-ok_example = quote_identifier-eq-ok "order_1" "table" quoted quoted_run

abbrev page_query : Query
page_query = record {
  text = "SELECT TOP (?) [id], NULL AS [twice] FROM [dbo].[orders] WHERE [id] >= ? ORDER BY [id]";
  params = pos 50 ∷ pos 3 ∷ [];
}

page_run : build_read_table_query "top" orders (some (pos 3)) none (pos 50) ≡ ok page_query
unfolding build_read_table_query quote_identifier pydblog.Mssql.Identifier.validate_identifier
    is_identifier is_word
page_run = refl

-- `SELECT TOP (50) [id], NULL AS [twice] FROM [dbo].[orders] WHERE [id] >= 3 ORDER BY [id]`
build_read_table_query-fill_example :
    (key : String) × (first ("id" ∷ []) ≡ ok key)
    × (fill page_query.text page_query.params
        ≡ some (
            statement true false "[dbo]" "[orders]"
              ("[id]" ∷ "NULL AS [twice]" ∷ [])
              ("[id]" ∷ [])
              (bracketed key)
              (some (pos 3))
              none
              (pos 50)))
build_read_table_query-fill_example =
    build_read_table_query-fill "top" orders (some (pos 3)) none (pos 50) page_query page_run

build_read_table_query-iff-IsReadable_example :
    IsReadable orders (some (pos 3)) none (pos 50)
    ↔ ((q : Query) × (build_read_table_query "top" orders (some (pos 3)) none (pos 50) ≡ ok q))
build_read_table_query-iff-IsReadable_example =
    build_read_table_query-iff-IsReadable "top" orders (some (pos 3)) none (pos 50)

abbrev window_query : String
window_query =
    "SELECT __$start_lsn AS start_lsn, __$seqval AS seqval, __$operation AS operation, "
    <> ("__$update_mask AS update_mask, "
        <> ("sys.fn_cdc_map_lsn_to_time(__$start_lsn) AS commit_timestamp, [id], [twice] "
            <> ("FROM cdc.fn_cdc_get_all_changes_dbo_orders(?, ?, N'all') "
                <> "ORDER BY __$start_lsn, __$seqval")))

window_run : build_event_query orders ≡ ok window_query
unfolding build_event_query quote_identifier pydblog.Mssql.Identifier.validate_identifier
    is_identifier is_word
window_run = refl

build_event_query-placeholders_example : placeholders window_query ≡ 2
build_event_query-placeholders_example =
    build_event_query-placeholders orders window_query window_run

abbrev floor : Lsn
floor = lsn 0 5

abbrev after_floor : Session Server
after_floor = record {
  conn = some 1;
  world = record {
    connections = 1 ∷ [];
    cursors = [];
    time = 4;
    query = "SELECT sys.fn_cdc_get_min_lsn(?) as min_lsn";
    args = str "dbo_orders" ∷ [];
  };
}

floor_run : get_min_lsn driver settings "dbo_orders" (at none 4) ≡ (ok floor, after_floor)
unfolding get_min_lsn pydblog.Exec.◌>>=◌ pydblog.Mssql.Session.with_cursor
    pydblog.Mssql.Session.connect pydblog.Mssql.Session.cursor
floor_run = refl

get_min_lsn-positive_example : 0 < int_from_bytes floor
get_min_lsn-positive_example =
    get_min_lsn-positive driver settings "dbo_orders" (at none 4) after_floor floor floor_run
      (lsn-IsLsn 0 5 (omega arith) (omega arith))

abbrev page : Frame
page = record {
  schema = int_field "id" ∷ int_field "twice" ∷ [];
  rows = (("id", int (pos 7)) ∷ ("twice", null) ∷ []) ∷ [];
}

abbrev layout : Layout
layout = record { leading = "id"; kept = "id" ∷ "twice" ∷ [] }

abbrev conformed : ArrowTable
conformed = record {
  fields = int_field "id" ∷ int_field "twice" ∷ [];
  columns =
      record { dtype = int32; values = int (pos 7) ∷ [] }
      ∷ record { dtype = int32; values = null ∷ [] }
      ∷ [];
  num_rows = 1;
}

conform_run : conform columnar table_rows page.schema "rows" ≡ ok conformed
unfolding conform pydblog.Arrow.eq_type pydblog.Dblog.Drift.sorted_set
conform_run = refl

conform-eq-ok_example :
    (conformed.fields ≡ page.schema)
    × ((n : String) → member ("id" ∷ "twice" ∷ []) n ≡ member ("twice" ∷ "id" ∷ []) n)
conform-eq-ok_example =
    conform-eq-ok columnar columnar-IsColumnar table_rows conformed page.schema "rows" conform_run

mark_computed-eq_list_example :
    (eq_list eq_column
        (mark_computed (int_column "twice" none ∷ int_column "id" none ∷ []) orders.columns)
        (int_column "twice" none ∷ int_column "id" none ∷ [])
      ≡ true)
    × ((name : String)
        → contains
            (computed_names
              (mark_computed (int_column "twice" none ∷ int_column "id" none ∷ []) orders.columns))
            name
          ≡ (contains ("twice" ∷ "id" ∷ []) name && contains ("twice" ∷ []) name))
mark_computed-eq_list_example =
    mark_computed-eq_list (int_column "twice" none ∷ int_column "id" none ∷ []) orders.columns
      (refl, (refl, tt))

abbrev stamped_page : Frame
stamped_page = record {
  schema = metadata_fields ++ page.schema;
  rows =
      (("start_lsn", binary (zeros 10))
        ∷ ("seqval", binary (zeros 10))
        ∷ ("operation", int (pos 0))
        ∷ ("update_mask", binary (zeros 1))
        ∷ ("commit_timestamp", moment 9)
        ∷ ("id", int (pos 7))
        ∷ ("twice", null)
        ∷ [])
      ∷ [];
}
