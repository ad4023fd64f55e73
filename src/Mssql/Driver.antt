-- ===== src/Mssql/Driver.antt =====
-- What the SQL Server connector calls outside the repository: the driver `mssql_python`, the clock and
-- `sleep` of the process, pyarrow's tables, and the one projection of polars that stamps rows. Each is
-- a record of operations; `W` is all that they change.
use pydblog.Prelude.{ℕ, String, ◌≡◌, Option, List, ◌++◌, map}
use pydblog.Exec.{Result, ok, Exec}
use pydblog.Arrow.{ArrowType, time64, nanoseconds, Field}
use pydblog.Frame.{Value, Row, Frame}

-- A column of a pyarrow table without its name.
pub record ChunkedArray : Type 0 where
  pub dtype : ArrowType
  pub values : List Value

pub record ArrowTable : Type 0 where
  pub fields : List Field
  pub columns : List ChunkedArray
  pub num_rows : ℕ

-- `table.column_names`, which are also `schema.names` of its schema.
abbrev pub column_names : List Field → List String
column_names fields = map (λ f. f.name) fields

-- Connections and cursors are numbers that the driver hands out.
pub record Driver (W : Type 0) : Type 0 where
  -- `mssql_python.connect(conn_str, autocommit=True)`
  pub connect : String → Exec W ℕ
  pub close_connection : ℕ → Exec W (Unit {0})
  -- `connection.cursor()`
  pub cursor : ℕ → Exec W ℕ
  pub close_cursor : ℕ → Exec W (Unit {0})
  -- `cur.execute(query, params)`
  pub execute : ℕ → String → List Value → Exec W (Unit {0})
  pub fetchone : ℕ → Exec W (Option (List Value))
  pub fetchall : ℕ → Exec W (List (List Value))
  -- `cur.arrow()`
  pub arrow : ℕ → Exec W ArrowTable
  -- `monotonic()` and `sleep(...)`, in microseconds
  pub monotonic : W → ℕ × W
  pub sleep : ℕ → W → W

pub record Columnar : Type 0 where
  -- `table.select(names)` and `table.column(name)`
  pub select : List String → ArrowTable → Result ArrowTable
  pub column : String → ArrowTable → Result ChunkedArray
  -- `column.cast(type)`; none where pyarrow raises an ArrowException
  pub cast : ArrowType → ChunkedArray → Option ChunkedArray
  -- `pa.table(columns, schema=schema)`
  pub table : List ChunkedArray → List Field → Result ArrowTable
  -- `DataFrame(table)`
  pub data_frame : ArrowTable → Frame
  -- `frame.select(lit(value, type).alias(name), ..., all())`
  pub stamp : List (Field × Value) → Frame → Result Frame

-- The polars type that an Arrow column is read as, written as an Arrow type: of times of day polars has
-- one type, which counts nanoseconds, and the other types that schema.py names keep apart.
abbrev pub lands : ArrowType → ArrowType
lands (time64 unit) = time64 nanoseconds
lands dtype = dtype

abbrev lands_field : Field → Field
lands_field f = record { name = f.name; dtype = lands f.dtype }

abbrev pub frame_schema : List Field → List Field
frame_schema fields = map lands_field fields

-- What the documentation of pyarrow and polars promises of these.
pub record IsColumnar (K : Columnar) : Type 0 where
  -- A table that is built has the schema that was given.
  pub fields-table :
      (columns : List ChunkedArray) (schema : List Field) (t : ArrowTable)
      → K.table columns schema ≡ ok t
      → t.fields ≡ schema
  -- A frame has the columns of its table, each at the type that polars reads it as.
  pub schema-data_frame : (t : ArrowTable) → (K.data_frame t).schema ≡ frame_schema t.fields
  -- A projection of literals and all columns puts the literals first, on every row.
  pub stamp-rows :
      (literals : List (Field × Value)) (f g : Frame)
      → K.stamp literals f ≡ ok g
      → (g.schema ≡ map (λ l. l.0) literals ++ f.schema)
        × (g.rows ≡ map (λ (row : Row). map (λ l. (l.0.name, l.1)) literals ++ row) f.rows)
