-- ===== src/Dblog/Merge.antt =====
-- `_supersede` and `_merge_chunk`: a chunk of table rows and the log window that brackets its read.
pub mod Survivors
use pydblog.Prelude.{ℕ, Option, none, some, if◌then◌else◌}
use pydblog.Exec.{Result, ok, err, and_then as ◌>>=◌}
use pydblog.Types.{TableSpec}
use pydblog.Frame.{Frame, Polars, is_empty}
use pydblog.Connector.{SourceConnector}

module _ (P : Polars) where
  -- The rows of the chunk that the window does not supersede, where the window holds events.
  unfoldable pub supersede_events : Frame → Frame → TableSpec → Result Frame
  supersede_events chunk window spec = do
    changed ← P.select spec.pk_columns window
    mine ← P.select spec.pk_columns chunk
    overlap ← P.semi_join spec.pk_columns mine (P.unique changed)
    if is_empty overlap then ok chunk else P.anti_join spec.pk_columns chunk (P.unique changed)

  unfoldable pub supersede : Frame → Option Frame → TableSpec → Result Frame
  unfolding supersede_events
  supersede chunk none spec = ok chunk
  supersede chunk (some window) spec =
      if is_empty window then ok chunk else supersede_events chunk window spec

  -- What is emitted of a window and of the chunk's stamped rows.
  unfoldable pub stack : Option Frame → Frame → Result Frame
  stack none events = ok events
  stack (some window) events = if is_empty window then ok events else P.concat window events

  unfoldable pub merge_chunk :
      {S : Type 0} → SourceConnector S → Frame → Option Frame → ℕ → TableSpec → Result Frame
  unfolding supersede stack
  merge_chunk C chunk window low spec = do
    survivors ← supersede chunk window spec
    events ← C.to_events survivors spec low
    stack window events
