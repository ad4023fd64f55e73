-- ===== src/Tests/Columns.antt =====
-- A pyarrow and a polars for tables of at most one row.
use text.Mathlib.Text.{◌==◌ as str_eq}
use pydblog.Prelude.{
  ℕ, sym, ap, ◌≡◌, String, refl, none, some, List, [], ◌∷◌, ◌++◌, map, if◌then◌else◌,
}
use pydblog.Exec.{Result, ok, err, and_then, collect, other_error, source_failure}
use pydblog.Arrow.{Field, eq_type}
use pydblog.Frame.{Value, Row, Frame}
use pydblog.Mssql.Driver.{ChunkedArray, ArrowTable, Columnar, IsColumnar, frame_schema}

-- A column and its field, by name.
abbrev find : String → List Field → List ChunkedArray → Result (Field × ChunkedArray)
find name (f ∷ fields) (c ∷ columns) =
    let later = find name fields columns in if str_eq f.name name then ok (f, c) else later
find name _ _ = err (source_failure other_error name)

abbrev first_row : List Field → List ChunkedArray → Row
first_row (f ∷ fields) (c ∷ columns) =
    let later = first_row fields columns in
    elim c.values [ [] ↦ later | v ∷ vs ↦ (f.name, v) ∷ later ]
first_row _ _ = []

abbrev rows_of : ArrowTable → List Row
rows_of t = elim t.num_rows [ ℕ.zero ↦ [] | ℕ.suc n ↦ first_row t.fields t.columns ∷ [] ]

abbrev stamped : List (Field × Value) → Frame → Frame
stamped literals f = record {
  schema = map (λ l. l.0) literals ++ f.schema;
  rows = map (λ (row : Row). map (λ l. (l.0.name, l.1)) literals ++ row) f.rows;
}

abbrev pub columnar : Columnar
columnar = record {
  select = λ names t.
      and_then (collect (λ name. find name t.fields t.columns) names)
        λ found. ok (record t { fields = map (λ p. p.0) found; columns = map (λ p. p.1) found });
  column = λ name t. and_then (find name t.fields t.columns) λ found. ok found.1;
  cast = λ dtype c. if eq_type dtype c.dtype then some c else none;
  table = λ columns fields. ok (record { fields = fields; columns = columns; num_rows = 1 });
  data_frame = λ t. record { schema = frame_schema t.fields; rows = rows_of t };
  stamp = λ literals f. ok (stamped literals f);
}

pub columnar-IsColumnar : IsColumnar columnar
columnar-IsColumnar = record {
  fields-table = λ columns schema t e.
      let same : record { fields = schema; columns = columns; num_rows = 1 } ≡ t = cc in
      ap (λ t. t.fields) (sym same);
  schema-data_frame = λ t. refl;
  stamp-rows = λ literals f g e.
      let same : stamped literals f ≡ g = cc in
      (ap (λ h. h.schema) (sym same), ap (λ h. h.rows) (sym same));
}
