-- ===== src/Tests/Parts.antt =====
-- The parts of a call at concrete inputs: the merge, a page's last key, the checks, and LSNs.
use pydblog.Prelude.{
  ℕ, ◌≡◌, ◌↔◌, if◌then◌else◌, refl, true, false, none, some, List, [], ◌∷◌, ◌++◌, map, arith,
}
use pydblog.Prelude.Int.{ℤ, pos, ◌+ℤ◌}
use pydblog.Exec.{
  Class, Result, ok, err, chunk_size_below_one, foreign_state, source_failure, hex_text,
}
use pydblog.Builtins.{last}
use pydblog.Types.{business_columns}
use pydblog.Arrow.{int64}
use pydblog.Lsn.{Lsn, lt_bytes, int_from_bytes, increment_lsn, IsLsn}
use pydblog.Lsn.Order.{increment_lsn-least, increment_lsn_total}
use pydblog.State.Hex.{lsn_to_hex, lsn_from_hex, written, lsn_from_hex-lsn_to_hex}
use pydblog.State.{RunState, aware, run_state, BatchResult}
use pydblog.Frame.{Frame, Row, Joinable, cell, int, distinct}
use pydblog.Source.Contract.{AreStamped}
use pydblog.Dblog.{dblog, tail_batch, dump_batch, state_at_lsn}
use pydblog.Dblog.Calls.{IsRetained, dblog-IsRetained, dblog-table_unread, state_at_lsn-eq-ok}
use pydblog.Connector.{SourceConnector, Host}
use pydblog.Dblog.Raised.{IsOfArguments}
use pydblog.Dblog.Refusals.{IsRefused, dblog-iff-IsRefused}
use pydblog.Dblog.Converge.Merge.{merge_chunk-rows}
use pydblog.Dblog.Guards.{refresh_spec}
use pydblog.Dblog.Guards.Schema.{Refreshed, refresh_spec-frames}
use pydblog.Dblog.Merge.{supersede, merge_chunk}
use pydblog.Dblog.Merge.Survivors.{survivors, supersede-survivors}
use pydblog.Dblog.Page.{key_after}
use pydblog.Dblog.Page.Key.{key_after-eq-ok}
use pydblog.Tests.Frames.{polars, polars-IsLawful}
use pydblog.Tests.Table.{
  layout, history, table, stored, event, row_frame, event_frame, ghost, source, host,
  source-IsFaithful, table-IsKeyed, lsn, lsn-IsLsn, stale, renewed, refresh_run,
}

-- A chunk of two rows, and a window with an event on the first one's key.
abbrev other_row : Row
other_row = ("id", int (pos 2)) ∷ ("v", int (pos 7)) ∷ []

abbrev chunk : Frame
chunk = row_frame (stored 3 ∷ other_row ∷ [])

abbrev window : Frame
window = event_frame (event 4 ∷ [])

chunk-Joinable : Joinable table.pk_columns chunk window
unfolding pydblog.Arrow.dtype_of
chunk-Joinable = record { some_key = λ e. cc; once = refl; typed = ((int64, refl, refl), tt) }

supersede-survivors_example :
    (g : Frame) × (supersede polars chunk (some window) table ≡ ok g)
    × (g.schema ≡ chunk.schema)
    × (g.rows ≡ survivors ("id" ∷ []) (event 4 ∷ []) (stored 3 ∷ other_row ∷ []))
supersede-survivors_example =
    supersede-survivors polars polars-IsLawful chunk (some window) table chunk-Joinable

-- One row of the two is left.
only_other : survivors ("id" ∷ []) (event 4 ∷ []) (stored 3 ∷ other_row ∷ []) ≡ other_row ∷ []
unfolding cell pydblog.Frame.joins
only_other = refl

abbrev merged : Frame
merged = event_frame (event 4 ∷ (("operation", int (pos 0)) ∷ other_row) ∷ [])

merge_run : merge_chunk polars source chunk (some window) 9 table ≡ ok merged
unfolding merge_chunk cell pydblog.Frame.joins
merge_run = refl

merge_chunk-rows_example :
    (stamped : List Row) × (merged.rows ≡ (event 4 ∷ []) ++ stamped)
    × AreStamped layout (survivors ("id" ∷ []) (event 4 ∷ []) (stored 3 ∷ other_row ∷ [])) stamped
merge_chunk-rows_example =
    merge_chunk-rows source host layout history ghost source-IsFaithful polars polars-IsLawful table
      table-IsKeyed chunk refl (some window) 9 merged (λ f e. cc) merge_run

key_run : key_after polars chunk table ≡ ok (pos 3)
unfolding key_after cell pydblog.Frame.joins ◌+ℤ◌
key_run = refl

key_after-eq-ok_example :
    (n : ℤ) × (last (map (cell "id") chunk.rows) ≡ ok (int n))
    × (pos 3 ≡ n +ℤ pos 1)
    × (distinct (map (cell "id") chunk.rows) ≡ true)
unfolding pydblog.Arrow.dtype_of
key_after-eq-ok_example =
    key_after-eq-ok polars polars-IsLawful chunk table "id" [] (pos 3) refl ((int64, refl), tt)
      key_run

refresh_spec-frames_example :
    Refreshed stale renewed × (business_columns renewed.spec ≡ business_columns stale.spec)
refresh_spec-frames_example =
    refresh_spec-frames source host stale renewed (some (pos 3)) 9 9 refresh_run

abbrev tailed : BatchResult
tailed = record {
  frame = some (event_frame (event 4 ∷ event 5 ∷ []));
  state = record stale { last_lsn = lsn 0 6 };
}

tail_run : dblog source host polars "dbo" "orders" (some stale) (pos 1) none 5 ≡ (ok tailed, 5)
unfolding dblog pydblog.Exec.◌>>=◌ pydblog.Dblog.Guards.check_table refresh_spec
    pydblog.Dblog.Guards.require_capture_instance pydblog.Dblog.Guards.check_retention lt_bytes
    pydblog.Lsn.int_to_bytes pydblog.Dblog.Window.read_window increment_lsn int_from_bytes
    pydblog.Source.events_from
tail_run = refl

dblog-IsRetained_example :
    (kept : RunState) × (asked left : ℕ) × (refresh_spec source host stale none 5
      ≡ (ok kept, asked))
    × IsRetained source host kept.spec (lsn 0 4) asked left
    × ((if kept.dump_done
            then tail_batch source polars kept
            else dump_batch source polars (pos 1) kept)
          left
        ≡ (ok tailed, 5))
dblog-IsRetained_example =
    dblog-IsRetained source host polars "dbo" "orders" stale (pos 1) none 5 5 tailed tail_run

dblog-table_unread_example :
    dblog
      (record source {
        read_table = λ spec low high limit s. (err (source_failure Class.runtime_error "gone"), s);
        watermark = λ s. (err (source_failure Class.runtime_error "gone"), s);
        await_watermark = λ m s. (err (source_failure Class.runtime_error "gone"), s);
        to_events = λ f spec low. err (source_failure Class.runtime_error "gone");
      })
      host
      polars
      "dbo"
      "orders"
      (some stale)
      (pos 1)
      none
      5
    ≡ dblog source host polars "dbo" "orders" (some stale) (pos 1) none 5
dblog-table_unread_example =
    dblog-table_unread source host polars
      (λ spec low high limit s. (err (source_failure Class.runtime_error "gone"), s))
      (λ s. (err (source_failure Class.runtime_error "gone"), s))
      (λ m s. (err (source_failure Class.runtime_error "gone"), s))
      (λ f spec low. err (source_failure Class.runtime_error "gone")) "dbo" "orders" stale (pos 1)
      none 5 refl

abbrev resumed : RunState
resumed = record {
  spec = table;
  last_lsn = lsn 0 4;
  last_inspect = aware 7;
  chunk_key = none;
  dump_done = true;
}

resume_run : state_at_lsn source host "dbo" "orders" (lsn 0 4) true 7 ≡ (ok resumed, 7)
unfolding state_at_lsn pydblog.Exec.◌>>=◌ pydblog.Dblog.Guards.require_capture_instance
    pydblog.Dblog.Guards.check_retention lt_bytes run_state pydblog.Lsn.int_to_bytes
    pydblog.State.as_aware
resume_run = refl

state_at_lsn-eq-ok_example :
    (moment : ℕ) × (described asked : ℕ) × (source.inspect "dbo" "orders" 7 ≡ (ok table, described))
    × (host.utc_now described ≡ (moment, asked))
    × IsRetained source host table (lsn 0 4) asked 7
    × (resumed ≡ run_state table (lsn 0 4) (aware moment) none true)
state_at_lsn-eq-ok_example =
    state_at_lsn-eq-ok source host polars "dbo" "orders" (lsn 0 4) true 7 7 resumed resume_run

dblog-iff-IsRefused_example :
    IsRefused "dbo" "orders" none (pos 0) (chunk_size_below_one (pos 0)) ↔ (
      IsOfArguments (chunk_size_below_one (pos 0))
      × ((C : SourceConnector ℕ) (H : Host ℕ)
          → dblog C H polars "dbo" "orders" none (pos 0) none 5
            ≡ (err (chunk_size_below_one (pos 0)), 5)))
dblog-iff-IsRefused_example =
    dblog-iff-IsRefused polars "dbo" "orders" none 5 none (pos 0) (chunk_size_below_one (pos 0))

carried : increment_lsn (lsn 0 255) ≡ ok (lsn 1 0)
unfolding increment_lsn int_from_bytes pydblog.Lsn.int_to_bytes
carried = refl

increment_lsn-least_example :
    IsLsn (lsn 1 0)
    × (lt_bytes (lsn 0 255) (lsn 1 0) ≡ true)
    × ((b : Lsn) → IsLsn b → lt_bytes (lsn 0 255) b ≡ true → lt_bytes b (lsn 1 0) ≡ false)
increment_lsn-least_example =
    increment_lsn-least (lsn 0 255) (lsn 1 0) (lsn-IsLsn 0 255 (omega arith) (omega arith)) carried

increment_lsn_total_example : (c : Lsn) × (increment_lsn (lsn 0 255) ≡ ok c)
unfolding lt_bytes
increment_lsn_total_example =
    increment_lsn_total (lsn 0 255) (lsn 3 0) (lsn-IsLsn 0 255 (omega arith) (omega arith))
      (lsn-IsLsn 3 0 (omega arith) (omega arith)) refl

lsn_from_hex-lsn_to_hex_example : lsn_from_hex (written (lsn_to_hex (lsn 10 255))) ≡ ok (lsn 10 255)
lsn_from_hex-lsn_to_hex_example =
    lsn_from_hex-lsn_to_hex (lsn 10 255) (lsn-IsLsn 10 255 (omega arith) (omega arith)).bytes

-- Upper case and white space between bytes are read too, and half a byte is not.
spaced : lsn_from_hex (written (b'0' ∷ b'A' ∷ b' ' ∷ b'f' ∷ b'F' ∷ [])) ≡ ok (10 ∷ 255 ∷ [])
unfolding lsn_from_hex
spaced = refl

halved : lsn_from_hex (written (b'0' ∷ b'A' ∷ b'f' ∷ [])) ≡ err hex_text
unfolding lsn_from_hex
halved = refl
