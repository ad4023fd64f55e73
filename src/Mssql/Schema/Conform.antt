-- ===== src/Mssql/Schema/Conform.antt =====
-- `conform` and `_cast` of connectors/mssql/schema.py, over the pyarrow of Mssql/Driver.antt.
pub mod Pinned
use text.Mathlib.Text.{◌==◌ as str_eq}
use pydblog.Prelude.{
  ℕ, String, Bool, true, false, not, ◌&&◌, Option, none, some, List, [], ◌∷◌, ◌++◌, length, keep,
  ltb, ◌==◌, if◌then◌else◌,
}
use pydblog.Exec.{
  Result, ok, err, and_then as ◌>>=◌, and_also as ◌>>◌, collect, and_then, names_repeat,
  names_differ, cast_failed,
}
use pydblog.Arrow.{Field}
use pydblog.Dblog.Drift.{member, sorted_set}
use pydblog.Mssql.Driver.{ChunkedArray, ArrowTable, Columnar, column_names}

-- `names.count(name)`
abbrev count_of : List String → String → ℕ
count_of names n = length (keep (λ m. str_eq m n) names)

unfoldable pub check_repeats : String → List String → Result (Unit {0})
check_repeats context names =
    if not (length names == length (sorted_set names))
    then err (names_repeat context (sorted_set (keep (λ n. ltb 1 (count_of names n)) names)))
    else ok tt

-- The names of the first list that the second one has not, in order.
abbrev pub absent : List String → List String → List String
absent wanted names = keep (λ n. not (member names n)) wanted

abbrev pub nothing : List String → Bool
nothing [] = true
nothing (n ∷ ns) = false

unfoldable pub check_names : String → List String → List String → Result (Unit {0})
check_names context declared names =
    let missing = absent declared names in
    let unexpected = absent names declared in
    if nothing missing && nothing unexpected
    then ok tt
    else err (names_differ context missing unexpected)

module _ (K : Columnar) where
  abbrev or_cast_failed : String → Field → Option ChunkedArray → Result ChunkedArray
  or_cast_failed context field none = err (cast_failed context field.name)
  or_cast_failed context field (some column) = ok column

  unfoldable pub cast_column : String → Field → ChunkedArray → Result ChunkedArray
  cast_column context field column = or_cast_failed context field (K.cast field.dtype column)

  unfoldable pub conform : ArrowTable → List Field → String → Result ArrowTable
  unfolding check_repeats check_names cast_column
  conform table schema context = do
    check_repeats context (column_names table.fields)
    check_names context (column_names schema) (column_names table.fields)
    ordered ← K.select (column_names schema) table
    columns ←
        collect (λ field. and_then (K.column field.name ordered) λ c. cast_column context field c)
          schema
    K.table columns schema
