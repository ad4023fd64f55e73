-- ===== src/Mssql/Query.antt =====
-- The queries over a table and its change log that connectors/mssql/connector.py builds:
-- `_validate_read_spec`, `_project`, `_build_read_table_query`, `_build_pk_range_query` and the query of
-- `read_event_log`. The SQL stays text, and what the server makes of it is not modelled.
pub mod Accepted
pub mod Binds
pub mod Clauses
pub mod Events
pub mod Fill
pub mod Statement
use Prim.Native.String.{◌++◌ as ◌<>◌}
use text.Mathlib.Text.{◌==◌ as str_eq}
use pydblog.Prelude.{
  String, Bool, true, false, ◌&&◌, Option, none, some, List, [], ◌∷◌, ◌++◌, if◌then◌else◌,
}
use pydblog.Prelude.Int.{ℤ, pos, ltb_ℤ, leb_ℤ}
use pydblog.Builtins.{first, join}
use pydblog.Exec.{
  Result, ok, err, and_then as ◌>>=◌, and_also as ◌>>◌, and_then, collect, no_key_columns,
  no_business_columns, negative_limit, inverted_bounds, not_captured,
}
use pydblog.Types.{ColumnSpec, TableSpec, is_computed, qualified_name, business_columns}
use pydblog.Mssql.Identifier.{validate_identifier, quote_identifier}

-- A query with its `?` placeholders, and the values to bind to them.
pub record Query : Type 0 where
  pub text : String
  pub params : List ℤ

-- `_validate_read_spec`, by the table's name, its key and its columns.
unfoldable pub check_read : String → List String → List String → Result (Unit {0})
check_read name [] columns = err (no_key_columns name)
check_read name (k ∷ keys) [] = err (no_business_columns name)
check_read name (k ∷ keys) (c ∷ columns) = ok tt

unfoldable pub validate_read_spec : TableSpec → Result (Unit {0})
unfolding check_read
validate_read_spec spec = check_read (qualified_name spec) spec.pk_columns (business_columns spec)

-- `_project`: a computed column is read as NULL.
unfoldable pub project : ColumnSpec → Result String
project column =
    and_then (quote_identifier column.name "business column")
      λ quoted. ok (if is_computed column then "NULL AS " <> quoted else quoted)

-- The two checks of the arguments.
unfoldable pub check_limit : ℤ → Result (Unit {0})
check_limit limit = if ltb_ℤ limit (pos 0) then err (negative_limit limit) else ok tt

unfoldable pub check_bounds : Option ℤ → Option ℤ → Result (Unit {0})
check_bounds (some low) (some high) =
    if leb_ℤ high low then err (inverted_bounds low high) else ok tt
check_bounds _ _ = ok tt

-- A predicate and the value that it binds, where there is a bound.
abbrev pub predicate : String → String → Option ℤ → List String
predicate leading comparison none = []
predicate leading comparison (some bound) = (leading <> comparison) ∷ []

abbrev pub bound_to : Option ℤ → List ℤ
bound_to none = []
bound_to (some bound) = bound ∷ []

abbrev pub where_clause : List String → List String
where_clause [] = []
where_clause (p ∷ ps) = ("WHERE " <> join " AND " (p ∷ ps)) ∷ []

-- Whether the read is capped, in the given style of pagination.
abbrev pub capped : String → ℤ → String → Bool
capped pagination limit style = ltb_ℤ (pos 0) limit && str_eq pagination style

abbrev pub when {ℓ} : {A : Type ℓ} → Bool → A → List A
when test item = if test then item ∷ [] else []

-- The clauses and the values, for a cap that stands behind TOP, behind FETCH or nowhere.
unfoldable pub compose_read :
    Bool
    → Bool
    → String
    → String
    → List String
    → List String
    → String
    → Option ℤ
    → Option ℤ
    → ℤ
    → Query
unfolding join
compose_read top fetch schema table columns order_by leading low high limit =
    let select = (if top then "SELECT TOP (?) " else "SELECT ") <> join ", " columns in
    let source = "FROM " <> (schema <> ("." <> table)) in
    let predicates = predicate leading " >= ?" low ++ predicate leading " < ?" high in
    let order = "ORDER BY " <> join ", " order_by in
    let cap = when fetch "OFFSET 0 ROWS FETCH NEXT ? ROWS ONLY" in
    record {
      text = join " " (select ∷ source ∷ (where_clause predicates ++ (order ∷ cap)));
      params = when top limit ++ (bound_to low ++ (bound_to high ++ when fetch limit));
    }

-- `_build_read_table_query`, with the connector's style of pagination.
unfoldable pub build_read_table_query : String → TableSpec → Option ℤ → Option ℤ → ℤ → Result Query
unfolding validate_read_spec project check_limit check_bounds compose_read
build_read_table_query pagination spec start_pk end_pk limit = do
  validate_read_spec spec
  check_limit limit
  check_bounds start_pk end_pk
  schema ← quote_identifier spec.source_schema "schema"
  table ← quote_identifier spec.source_table "table"
  columns ← collect project spec.captured_columns
  order_by ← collect (λ c. quote_identifier c "primary key column") spec.pk_columns
  leading ← first order_by
  let top = capped pagination limit "top"
  let fetch = capped pagination limit "fetch"
  ok (compose_read top fetch schema table columns order_by leading start_pk end_pk limit)

unfoldable pub build_pk_range_query : TableSpec → Result String
unfolding validate_read_spec
build_pk_range_query spec = do
  validate_read_spec spec
  schema ← quote_identifier spec.source_schema "schema"
  table ← quote_identifier spec.source_table "table"
  key ← first spec.pk_columns
  leading ← quote_identifier key "primary key column"
  ok (
      "SELECT MIN("
      <> (leading <> ("), MAX(" <> (leading <> (") FROM " <> (schema <> ("." <> table)))))))

-- The log's own columns, as the query of `read_event_log` names them.
abbrev pub log_columns : List String
log_columns =
    "__$start_lsn AS start_lsn" ∷ "__$seqval AS seqval" ∷ "__$operation AS operation"
    ∷ "__$update_mask AS update_mask"
    ∷ "sys.fn_cdc_map_lsn_to_time(__$start_lsn) AS commit_timestamp" ∷ []

-- The query of a window of the change log of a capture instance, by the quoted columns.
unfoldable pub event_query : String → List String → String
unfolding join
event_query capture_instance columns =
    "SELECT "
    <> (join ", " (log_columns ++ columns)
        <> (" FROM cdc.fn_cdc_get_all_changes_"
            <> (capture_instance <> "(?, ?, N'all') ORDER BY __$start_lsn, __$seqval")))

-- The query that `read_event_log` builds, which binds the two ends of the window, by who captures the
-- table.
unfoldable pub event_query_of : TableSpec → Option String → Result String
unfolding event_query
event_query_of spec none = err (not_captured (qualified_name spec))
event_query_of spec (some capture_instance) = do
  validate_identifier capture_instance "capture instance"
  columns ← collect (λ c. quote_identifier c "business column") (business_columns spec)
  ok (event_query capture_instance columns)

unfoldable pub build_event_query : TableSpec → Result String
unfolding event_query_of
build_event_query spec = event_query_of spec spec.capture_instance
