-- ===== src/Tests/Schemas.antt =====
-- The schemas of the test table, and tables that `validate` refuses.
use pydblog.Prelude.{◌≡◌, refl, false, some, List, [], ◌∷◌, ◌++◌, All}
use pydblog.Prelude.Int.{pos}
use pydblog.Exec.{ok, err, key_not_captured, column_gone}
use pydblog.Types.{ColumnSpec, TableSpec, is_computed}
use pydblog.Arrow.{ArrowType, int64, Field, dtype_of}
use pydblog.Mssql.Schema.{
  metadata_fields, metadata_columns, contains, validate, row_schema, event_schema,
}
use pydblog.Mssql.Schema.Agreement.{HasOrigin, IsStored, validate-eq-ok, validate-schemas}
use pydblog.Mssql.Schema.Refresh.{refresh_spec-schemas}
use pydblog.Tests.Table.{table, source, host, stale, renewed, refresh_run}

accepted : validate table ≡ ok tt
unfolding validate pydblog.Types.lower pydblog.Arrow.eq_type
accepted = refl

-- A key that the log does not carry.
uncaptured :
    validate (record table { pk_columns = "k" ∷ [] }) ≡ err (key_not_captured "k" "dbo.orders")
unfolding validate pydblog.Types.lower pydblog.Arrow.eq_type
uncaptured = refl

-- The check of the columns comes first.
gone :
    validate (record table { columns = []; pk_columns = "k" ∷ [] })
    ≡ err (column_gone "id" "dbo.orders")
unfolding validate
gone = refl

validate-eq-ok_example :
    All (HasOrigin table) table.captured_columns
    × All (IsStored table) ("id" ∷ [])
    × All (λ n. contains metadata_columns n ≡ false) ("id" ∷ "v" ∷ [])
validate-eq-ok_example = validate-eq-ok table accepted

validate-schemas_example :
    (rows : List Field) × (row_schema table ≡ ok rows)
    × (event_schema table ≡ ok (metadata_fields ++ rows))
    × All
        (λ key.
          (t : ArrowType) × (dtype_of key rows ≡ some t)
          × (dtype_of key (metadata_fields ++ rows) ≡ some t))
        ("id" ∷ [])
validate-schemas_example = validate-schemas table accepted

abbrev row_fields : List Field
row_fields = record { name = "id"; dtype = int64 } ∷ record { name = "v"; dtype = int64 } ∷ []

row_run : row_schema stale.spec ≡ ok row_fields
unfolding row_schema pydblog.Types.lower
row_run = refl

event_run : event_schema stale.spec ≡ ok (metadata_fields ++ row_fields)
unfolding event_schema pydblog.Types.lower
event_run = refl

refresh_spec-schemas_example :
    (row_schema table ≡ ok row_fields) × (event_schema table ≡ ok (metadata_fields ++ row_fields))
refresh_spec-schemas_example =
    refresh_spec-schemas source host stale renewed (some (pos 3)) 9 9 row_fields
      (metadata_fields ++ row_fields) refresh_run row_run event_run
