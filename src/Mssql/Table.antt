-- ===== src/Mssql/Table.antt =====
-- The reads of the table in connectors/mssql/connector.py: `read_table` and `read_pk_range`.
use Prim.Native.String.{◌++◌ as ◌<>◌}
use pydblog.Prelude.{Option, none, some, List, [], ◌∷◌, map, true, false}
use pydblog.Prelude.Int.{ℤ, pos}
use pydblog.Exec.{
  Result, ok, err, Exec, and_then, pure, lift, ◌>>=◌, ◌>>◌, non_integer_key, index_out_of_range,
}
use pydblog.Types.{TableSpec, qualified_name}
use pydblog.Frame.{Value, null, int, bool, Frame}
use pydblog.Mssql.Query.{build_read_table_query, build_pk_range_query}
use pydblog.Mssql.Driver.{Driver, Columnar}
use pydblog.Mssql.Session.{Settings, Session, call, with_cursor}
use pydblog.Mssql.Schema.{row_schema}
use pydblog.Mssql.Schema.Conform.{conform}
use pydblog.Mssql.Log.{ask}

-- `isinstance(value, int)`, which a `bool` passes: it counts as 0 or 1.
unfoldable pub as_int : TableSpec → Value → Result ℤ
as_int spec (int n) = ok n
as_int spec (bool true) = ok (pos 1)
as_int spec (bool false) = ok (pos 0)
as_int spec _ = err (non_integer_key (qualified_name spec))

-- The two bounds of the key, or none where the table is empty. The type is looked at once both are read.
unfoldable pub range_of : TableSpec → Option (List Value) → Result (Option (ℤ × ℤ))
unfolding as_int
range_of spec none = ok none
range_of spec (some []) = err index_out_of_range
range_of spec (some (null ∷ _)) = ok none
range_of spec (some (low ∷ [])) = err index_out_of_range
range_of spec (some (low ∷ high ∷ _)) =
    and_then (as_int spec low)
      λ minimum. and_then (as_int spec high) λ maximum. ok (some (minimum, maximum))

module _ {W : Type 0} (D : Driver W) (M : Settings) where
  unfoldable pub read_table :
      Columnar → TableSpec → Option ℤ → Option ℤ → ℤ → Exec (Session W) Frame
  unfolding with_cursor build_read_table_query conform row_schema
  read_table K spec start_pk end_pk limit = do
    query ← lift (build_read_table_query M.pagination spec start_pk end_pk limit)
    table ←
        with_cursor D M
          λ cur. do call (D.execute cur query.text (map int query.params)); call (D.arrow cur)
    schema ← lift (row_schema spec)
    rows ← lift (conform K table schema (qualified_name spec <> " rows"))
    pure (K.data_frame rows)

  unfoldable pub read_pk_range : TableSpec → Exec (Session W) (Option (ℤ × ℤ))
  unfolding ask build_pk_range_query range_of
  read_pk_range spec = do
    query ← lift (build_pk_range_query spec)
    row ← ask D M query []
    lift (range_of spec row)
