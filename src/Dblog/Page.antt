-- ===== src/Dblog/Page.antt =====
-- `_key_after` and `_next_chunk`: one page of the table, and where the next one opens.
pub mod Key
use pydblog.Prelude.{ℕ, String, Option, none, some, List, [], ◌∷◌, ◌==◌, not, if◌then◌else◌}
use pydblog.Prelude.Int.{ℤ, pos, ◌+ℤ◌, ltb_ℤ}
use pydblog.Exec.{
  Result, ok, err, and_then, Exec, pure, lift, ◌>>=◌, leading_key_repeats, leading_key_not_integer,
}
use pydblog.Builtins.{first, last}
use pydblog.Types.{TableSpec, qualified_name}
use pydblog.State.{RunState}
use pydblog.Frame.{Value, int, Frame, Polars, height, is_empty}
use pydblog.Connector.{SourceConnector}

-- One past the key, which has to be an integer; a `bool` does not count as one.
unfoldable pub one_past : TableSpec → Value → Result ℤ
one_past spec (int n) = ok (n +ℤ pos 1)
one_past spec _ = err (leading_key_not_integer (qualified_name spec))

module _ (P : Polars) where
  unfoldable pub key_after : Frame → TableSpec → Result ℤ
  unfolding one_past
  key_after rows spec = and_then (first spec.pk_columns) λ leading.
      and_then (P.column leading rows) λ keys.
        if not (P.n_unique keys == height rows)
        then err (leading_key_repeats (qualified_name spec))
        else and_then (last keys) (one_past spec)

  unfoldable pub next_chunk :
      {S : Type 0} → SourceConnector S → RunState → ℤ → Exec S (Option Frame × RunState)
  next_chunk C state chunk_size = do
    rows ← C.read_table state.spec state.chunk_key none chunk_size
    let done = ltb_ℤ (pos (height rows)) chunk_size
    if is_empty rows then pure (none, record state { dump_done = done }) else do
      chunk_key ← lift (key_after rows state.spec)
      pure (some rows, record state { chunk_key = some chunk_key; dump_done = done })
