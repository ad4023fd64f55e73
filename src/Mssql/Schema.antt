-- ===== src/Mssql/Schema.antt =====
-- connectors/mssql/schema.py: the Arrow schema that every read of a table is pinned to.
pub mod Agreement
pub mod Conform
pub mod Refresh
use text.Mathlib.Text.{◌==◌ as str_eq}
use pydblog.Prelude.{
  ℕ, String, Bool, true, false, not, Option, none, some, List, [], ◌∷◌, ◌++◌, map, any, keep, leb,
  if◌then◌else◌,
}
use pydblog.Exec.{
  Result, ok, err, and_also as ◌>>◌, and_then, no_arrow_type, column_gone, column_drifted,
  key_not_captured, key_computed, name_reserved,
}
use pydblog.Types.{ColumnSpec, TableSpec, lower, is_computed, qualified_name, business_columns}
use pydblog.Arrow.{
  TimeUnit, microseconds, nanoseconds, ArrowType, int64, int32, int16, uint8, boolean, float64,
  float32, date32, large_string, large_binary, decimal128, timestamp, time64, Field, eq_type,
}

-- METADATA_FIELDS
abbrev pub metadata_fields : List Field
metadata_fields =
    record { name = "start_lsn"; dtype = large_binary }
    ∷ record { name = "seqval"; dtype = large_binary }
    ∷ record { name = "operation"; dtype = int32 }
    ∷ record { name = "update_mask"; dtype = large_binary }
    ∷ record { name = "commit_timestamp"; dtype = timestamp microseconds none }
    ∷ []

-- METADATA_COLUMNS
abbrev pub metadata_columns : List String
metadata_columns = map (λ f. f.name) metadata_fields

-- `name in names`
abbrev pub contains : List String → String → Bool
contains names n = any (str_eq n) names

-- _FIXED
abbrev fixed : List (String × ArrowType)
fixed =
    ("bigint", int64)
    ∷ ("int", int32)
    ∷ ("smallint", int16)
    ∷ ("tinyint", uint8)
    ∷ ("bit", boolean)
    ∷ ("float", float64)
    ∷ ("real", float32)
    ∷ ("date", date32)
    ∷ ("char", large_string)
    ∷ ("varchar", large_string)
    ∷ ("nchar", large_string)
    ∷ ("nvarchar", large_string)
    ∷ ("text", large_string)
    ∷ ("ntext", large_string)
    ∷ ("xml", large_string)
    ∷ ("sysname", large_string)
    ∷ ("uniqueidentifier", large_string)
    ∷ ("binary", large_binary)
    ∷ ("varbinary", large_binary)
    ∷ ("image", large_binary)
    ∷ ("timestamp", large_binary)
    ∷ ("rowversion", large_binary)
    ∷ []

abbrev find : String → List (String × ArrowType) → Option ArrowType
find name [] = none
find name ((n, t) ∷ entries) =
    let rest = find name entries in if str_eq n name then some t else rest

-- _DECIMALS and _TIMESTAMPS
abbrev decimals : List String
decimals = "decimal" ∷ "numeric" ∷ "money" ∷ "smallmoney" ∷ []

abbrev timestamps : List String
timestamps = "datetime" ∷ "smalldatetime" ∷ "datetime2" ∷ []

unfoldable pub time_unit : ℕ → TimeUnit
time_unit scale = if leb 7 scale then nanoseconds else microseconds

-- `arrow_type` by the lowered name, the precision and the scale; none where the code raises.
unfoldable pub type_by_name : String → ℕ → ℕ → Option ArrowType
unfolding time_unit
type_by_name type_name precision scale = elim (find type_name fixed) [
  | some t ↦ some t
  | none ↦
      if contains decimals type_name
      then some (decimal128 precision scale)
      else if contains timestamps type_name
      then some (timestamp (time_unit scale) none)
      else if str_eq type_name "datetimeoffset"
      then some (timestamp (time_unit scale) (some "UTC"))
      else if str_eq type_name "time"
      then some (time64 (time_unit scale))
      else none
]

abbrev pub or_raise : ColumnSpec → Option ArrowType → Result ArrowType
or_raise column (some t) = ok t
or_raise column none = err (no_arrow_type column.name column.type_name)

unfoldable pub arrow_type : ColumnSpec → Result ArrowType
unfolding type_by_name
arrow_type column =
    or_raise column (type_by_name (lower column.type_name) column.precision column.scale)

-- A loop whose body may raise.
abbrev pub each {ℓ} : {A : Type ℓ} → (A → Result (Unit {0})) → List A → Result (Unit {0})
each body [] = ok tt
each body (x ∷ xs) = let rest = each body xs in and_then (body x) λ _. rest

-- The value of a dict built from the columns by their names: the last one of a name.
abbrev pub last_named : List ColumnSpec → String → Option ColumnSpec
last_named [] n = none
last_named (c ∷ columns) n = elim (last_named columns n) [
  | some later ↦ some later
  | none ↦ if str_eq c.name n then some c else none
]

-- The three loops of `validate`, one item each. The first one by what the source has of the name.
unfoldable pub check_origin : TableSpec → ColumnSpec → Option ColumnSpec → Result (Unit {0})
unfolding arrow_type
check_origin spec captured none = err (column_gone captured.name (qualified_name spec))
check_origin spec captured (some origin) = and_then (arrow_type origin) λ now.
    and_then (arrow_type captured) λ recorded.
      if not (eq_type now recorded)
      then err (column_drifted captured.name (qualified_name spec))
      else ok tt

unfoldable pub check_captured : TableSpec → ColumnSpec → Result (Unit {0})
unfolding check_origin
check_captured spec captured = check_origin spec captured (last_named spec.columns captured.name)

unfoldable pub check_key : TableSpec → String → Result (Unit {0})
check_key spec key =
    if not (contains (business_columns spec) key)
    then err (key_not_captured key (qualified_name spec))
    else (if contains (map (λ c. c.name) (keep is_computed spec.captured_columns)) key
        then err (key_computed key (qualified_name spec))
        else ok tt)

unfoldable pub check_name : TableSpec → String → Result (Unit {0})
check_name spec name =
    if contains metadata_columns name then err (name_reserved name (qualified_name spec)) else ok tt

unfoldable pub validate : TableSpec → Result (Unit {0})
unfolding check_captured check_key check_name
validate spec = do
  each (check_captured spec) spec.captured_columns
  each (check_key spec) spec.pk_columns
  each (check_name spec) (business_columns spec)
  each (λ c. and_then (arrow_type c) λ _. ok tt) spec.captured_columns

-- `_fields`
unfoldable pub fields : List ColumnSpec → Result (List Field)
unfolding arrow_type
fields [] = ok []
fields (c ∷ columns) =
    let rest = fields columns in
    and_then (arrow_type c)
      λ t. and_then rest λ more. ok (record { name = c.name; dtype = t } ∷ more)

unfoldable pub row_schema : TableSpec → Result (List Field)
unfolding fields
row_schema spec = fields spec.captured_columns

unfoldable pub event_schema : TableSpec → Result (List Field)
unfolding fields
event_schema spec = and_then (fields spec.captured_columns) λ more. ok (metadata_fields ++ more)
