-- ===== src/Mssql/Catalog.antt =====
-- What connectors/mssql/connector.py reads of SQL Server's catalog: `inspect` and its helpers.
pub mod Computed
pub mod Inspected
use Prim.Native.String.{◌++◌ as ◌<>◌}
use text.Mathlib.Text.{◌==◌ as str_eq, starts_with}
use pydblog.Prelude.{
  ℕ, String, Bool, true, false, not, Option, none, some, List, [], ◌∷◌, ◌++◌, map, keep, any,
  if◌then◌else◌,
}
use pydblog.Prelude.Int.{ℤ, pos}
use pydblog.Builtins.{first}
use pydblog.Exec.{
  Result, ok, err, Exec, and_then, collect, pure, raise, lift, ◌>>=◌, ◌>>◌, no_primary_key,
  ill_typed_answer,
}
use pydblog.Types.{ColumnSpec, TableSpec, is_computed, dotted}
use pydblog.Frame.{Value, null, int, str}
use pydblog.Mssql.Identifier.{validate_identifier}
use pydblog.Mssql.Driver.{Driver}
use pydblog.Mssql.Session.{Settings, Session, call, with_cursor}
use pydblog.Mssql.Schema.{validate}

-- The cells of the catalog's views: names are texts, and precision and scale are numbers. The driver
-- hands out nothing else for these columns.
unfoldable pub as_name : Value → Result String
as_name (str name) = ok name
as_name _ = err ill_typed_answer

-- `row[0]` as a name.
unfoldable pub name_of : List Value → Result String
unfolding as_name
name_of row = and_then (first row) as_name

-- `row[0] if row else None`
unfoldable pub instance_of : Option (List Value) → Result (Option String)
instance_of none = ok none
instance_of (some []) = ok none
instance_of (some (null ∷ row)) = ok none
instance_of (some (str name ∷ row)) = ok (some name)
instance_of _ = err ill_typed_answer

unfoldable pub column_of : List Value → Result ColumnSpec
column_of (str name ∷ str type_name ∷ int (pos precision) ∷ int (pos scale) ∷ null ∷ []) =
    ok (record {
      name = name;
      type_name = type_name;
      precision = precision;
      scale = scale;
      computed_definition = none;
    })
column_of (str name ∷ str type_name ∷ int (pos precision) ∷ int (pos scale) ∷ str formula ∷ []) =
    ok (record {
      name = name;
      type_name = type_name;
      precision = precision;
      scale = scale;
      computed_definition = some formula;
    })
column_of _ = err ill_typed_answer

unfoldable pub some_key : String → List String → Result (List String)
some_key object_name [] = err (no_primary_key object_name)
some_key object_name (k ∷ ks) = ok (k ∷ ks)

-- The formula that the dict of `_mark_computed` holds for a name: of a name twice, the last.
unfoldable pub formula_of : List ColumnSpec → String → Option String
formula_of [] name = none
formula_of (c ∷ source) name = elim (formula_of source name) [
  | some later ↦ some later
  | none ↦ if str_eq c.name name then c.computed_definition else none
]

abbrev pub with_formula : ColumnSpec → Option String → ColumnSpec
with_formula column none = column
with_formula column (some formula) = record column { computed_definition = some formula }

-- `_mark_computed`
unfoldable pub mark_computed : List ColumnSpec → List ColumnSpec → List ColumnSpec
unfolding formula_of
mark_computed captured source = map (λ c. with_formula c (formula_of source c.name)) captured

-- `_read_captured_columns` leaves out the log's own columns.
unfoldable pub is_business : ColumnSpec → Bool
is_business column = not (starts_with column.name "__$")

-- What `inspect` makes of its four reads.
unfoldable pub spec_of :
    String → String → List String → List ColumnSpec → List ColumnSpec → Option String → TableSpec
spec_of schema table pk_columns columns captured capture_instance = record {
  source_schema = schema;
  source_table = table;
  pk_columns = pk_columns;
  columns = columns;
  captured_columns = captured;
  capture_instance = capture_instance;
}

-- The spec, by who captures its table.
unfoldable pub validated_by : TableSpec → Option String → Result TableSpec
unfolding validate
validated_by spec none = ok spec
validated_by spec (some name) = and_then (validate spec) λ _. ok spec

unfoldable pub validated : TableSpec → Result TableSpec
unfolding validated_by
validated spec = validated_by spec spec.capture_instance

abbrev pub columns_query : String
columns_query =
    "SELECT c.name, t.name AS type_name, c.precision, c.scale, cc.definition "
    <> ("FROM sys.columns c "
        <> ("JOIN sys.types t ON t.user_type_id = c.user_type_id "
            <> ("LEFT JOIN sys.computed_columns cc "
                <> ("ON cc.object_id = c.object_id AND cc.column_id = c.column_id "
                    <> ("WHERE c.object_id = OBJECT_ID(?) " <> "ORDER BY c.column_id")))))

module _ {W : Type 0} (D : Driver W) where
  unfoldable pub read_pk_columns : ℕ → String → Exec (Session W) (List String)
  unfolding name_of some_key
  read_pk_columns cur object_name = do
    call (
        D.execute cur
          ("SELECT c.name FROM sys.indexes i "
            <> ("JOIN sys.index_columns ic ON ic.object_id = i.object_id "
                <> ("AND ic.index_id = i.index_id "
                    <> ("JOIN sys.columns c ON c.object_id = ic.object_id "
                        <> ("AND c.column_id = ic.column_id "
                            <> ("WHERE i.is_primary_key = 1 AND i.object_id = OBJECT_ID(?) "
                                <> "ORDER BY ic.key_ordinal"))))))
          (str object_name ∷ []))
    rows ← call (D.fetchall cur)
    names ← lift (collect name_of rows)
    lift (some_key object_name names)

  unfoldable pub read_columns : ℕ → String → Exec (Session W) (List ColumnSpec)
  unfolding column_of
  read_columns cur object_name = do
    call (D.execute cur columns_query (str object_name ∷ []))
    rows ← call (D.fetchall cur)
    lift (collect column_of rows)

  unfoldable pub read_capture_instance : ℕ → String → String → Exec (Session W) (Option String)
  unfolding instance_of
  read_capture_instance cur object_name capture_schema = do
    call (
        D.execute cur
          ("SELECT ct.capture_instance FROM "
            <> (capture_schema <> ".change_tables ct WHERE ct.source_object_id = OBJECT_ID(?)"))
          (str object_name ∷ []))
    row ← call (D.fetchone cur)
    lift (instance_of row)

  unfoldable pub read_captured_columns : ℕ → String → String → Exec (Session W) (List ColumnSpec)
  unfolding read_columns is_business
  read_captured_columns cur capture_instance capture_schema = do
    name ← lift (validate_identifier capture_instance "capture instance")
    columns ← read_columns cur (capture_schema <> ("." <> (name <> "_CT")))
    pure (keep is_business columns)

  -- The columns that the reads project: the table's own where nothing captures it.
  unfoldable pub reconcile :
      ℕ → List ColumnSpec → Option String → String → Exec (Session W) (List ColumnSpec)
  unfolding read_captured_columns mark_computed
  reconcile cur columns none capture_schema = pure columns
  reconcile cur columns (some capture_instance) capture_schema = do
    captured ← read_captured_columns cur capture_instance capture_schema
    pure (mark_computed captured columns)

  -- The four reads of `inspect`.
  unfoldable pub read_catalog : ℕ → String → String → String → Exec (Session W) TableSpec
  unfolding read_pk_columns read_capture_instance read_columns reconcile spec_of
  read_catalog cur schema table capture_schema = do
    let object_name = dotted schema table
    pk_columns ← read_pk_columns cur object_name
    capture_instance ← read_capture_instance cur object_name capture_schema
    columns ← read_columns cur object_name
    captured ← reconcile cur columns capture_instance capture_schema
    pure (spec_of schema table pk_columns columns captured capture_instance)

  unfoldable pub inspect : Settings → String → String → String → Exec (Session W) TableSpec
  unfolding with_cursor read_catalog validated
  inspect M schema table capture_schema = do
    spec ← with_cursor D M λ cur. read_catalog cur schema table capture_schema
    lift (validated spec)
