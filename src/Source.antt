-- ===== src/Source.antt =====
-- The contract of a source, which connectors/base.py states in words: a table with a history of
-- commits, a change log that lags behind it, and what each primitive of `SourceConnector` may answer.
-- No database is modelled.
pub mod Contract
pub mod Events
use pydblog.Prelude.{
  ℕ, zero, suc, ◌+◌, ◌-◌, ◌≤◌, ◌<◌, ◌≡◌, ◌≢◌, ◌⊎◌, String, Bool, true, false, Option, none, some,
  List, [], ◌∷◌, ◌++◌, map, All, if◌then◌else◌, ◌==◌,
}
use pydblog.Prelude.Int.{ℤ, pos, ◌≤ℤ◌, ◌<ℤ◌}
use pydblog.Exec.{Result, ok, Exec}
use pydblog.Types.{TableSpec}
use pydblog.Arrow.{ArrowType, Field, dtype_of}
use pydblog.Lsn.{Lsn, int_from_bytes, IsLsn}
use pydblog.Frame.{Value, int, Row, cell, cells, Frame, joins}
use pydblog.Connector.{SourceConnector}

-- OP_DELETE of connectors/mssql/connector.py.
abbrev pub op_delete : Value
op_delete = int (pos 1)

-- What a consumer of the frames goes by: the leading key column, and the columns that it keeps.
pub record Layout : Type 0 where
  pub leading : String
  pub kept : List String

-- What a consumer knows of one key: nothing, or the cells of its row.
abbrev pub Image : Type 0
Image = Option (List Value)

module _ (Y : Layout) where
  -- Whether a row has the key.
  abbrev pub has_key : ℤ → Row → Bool
  has_key k row = joins (int k) (cell Y.leading row)

  -- The image that a row of a batch leaves: a delete clears it, all else replaces it.
  unfoldable pub image : Row → Image
  image row = if joins op_delete (cell "operation" row) then none else some (cells Y.kept row)

  -- A consumer that applies rows in order, followed at one key.
  unfoldable pub after : ℤ → Image → List Row → Image
  after k old [] = old
  after k old (row ∷ rows) = after k (if has_key k row then image row else old) rows

-- The events that the log holds at each position, in their order, and the table before them.
-- A position is the number that an LSN stands for.
pub record History : Type 0 where
  pub initial : ℤ → Image
  pub events_at : ℕ → List Row

module _ (Y : Layout) (h : History) where
  -- The table as of a position: what the events up to it, it included, make of the first table.
  unfoldable pub as_of : ℕ → ℤ → Image
  as_of zero k = after Y k (h.initial k) (h.events_at 0)
  as_of (suc n) k = after Y k (as_of n k) (h.events_at (suc n))

-- The events at `count` positions from `from` on.
unfoldable pub events_from : History → ℕ → ℕ → List Row
events_from h from zero = []
events_from h from (suc count) = h.events_at from ++ events_from h (suc from) count

-- The row that a page holds for a key, as the table read projects it.
unfoldable pub page_image : Layout → ℤ → List Row → Image
page_image Y k [] = none
page_image Y k (row ∷ rows) =
    if has_key Y k row then some (cells Y.kept row) else page_image Y k rows
