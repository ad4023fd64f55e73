-- ===== src/Dblog.antt =====
-- dblog.py: the algorithm over a `SourceConnector`. The helpers are in the modules below, in the
-- order in which a call makes them.
pub mod Drift
pub mod Guards
pub mod Merge
pub mod Page
pub mod Window
pub mod Calls
pub mod Raised
pub mod Refusals
pub mod Converge
use pydblog.Prelude.{ℕ, String, Bool, false, Option, none, some, if◌then◌else◌}
use pydblog.Prelude.Int.{ℤ, pos, ltb_ℤ}
use pydblog.Exec.{Exec, pure, raise, lift, ◌>>=◌, ◌>>◌, chunk_size_below_one}
use pydblog.Types.{TableSpec, qualified_name}
use pydblog.Lsn.{Lsn, max_bytes}
use pydblog.State.{RunState, aware, run_state, BatchResult}
use pydblog.Frame.{Frame, Polars}
use pydblog.Connector.{SourceConnector, Host, now, warning, full_dump}
use Guards.{require_capture_instance, check_table, refresh_spec, check_retention}
use Merge.{merge_chunk}
use Page.{next_chunk}
use Window.{read_window}

module _ {S : Type 0} (C : SourceConnector S) (H : Host S) where
  unfoldable pub seed : String → String → Exec S RunState
  seed schema table = do
    spec ← C.inspect schema table
    capture_instance ← lift (require_capture_instance spec)
    floor ← C.get_min_lsn capture_instance
    reached ← C.get_max_lsn
    let opening = max_bytes reached floor
    warning H (full_dump (qualified_name spec) opening)
    moment ← now H
    pure (run_state spec opening (aware moment) none false)

  unfoldable pub state_at_lsn : String → String → Lsn → Bool → Exec S RunState
  state_at_lsn schema table from_lsn dump_done = do
    spec ← C.inspect schema table
    capture_instance ← lift (require_capture_instance spec)
    moment ← now H
    let built = run_state spec from_lsn (aware moment) none dump_done
    check_retention C built capture_instance
    pure built

  -- The state that a call works on: a fresh one, or the one it was given once that is checked.
  unfoldable pub opening_state : String → String → Option RunState → Option ℤ → Exec S RunState
  unfolding seed
  opening_state schema table none inspect_every = seed schema table
  opening_state schema table (some given) inspect_every = do
    lift (check_table given schema table)
    state ← refresh_spec C H given inspect_every
    capture_instance ← lift (require_capture_instance state.spec)
    check_retention C state capture_instance
    pure state

module _ {S : Type 0} (C : SourceConnector S) (P : Polars) where
  -- A window of the log alone.
  unfoldable pub tail_batch : RunState → Exec S BatchResult
  tail_batch state = do
    (window, state') ← read_window C state
    pure (record { frame = window; state = state' })

  -- The frame of a dump batch: an empty chunk leaves the window to stand on its own.
  unfoldable pub dump_frame : Option Frame → Option Frame → ℕ → TableSpec → Exec S (Option Frame)
  dump_frame none window low spec = pure window
  dump_frame (some chunk) window low spec = do
    frame ← lift (merge_chunk P C chunk window low spec)
    pure (some frame)

  -- A chunk of rows and the window that brackets the read of it.
  unfoldable pub dump_batch : ℤ → RunState → Exec S BatchResult
  unfolding dump_frame
  dump_batch chunk_size state = do
    low ← C.watermark
    (chunk, state') ← next_chunk P C state chunk_size
    high ← C.watermark
    C.await_watermark high
    (window, state'') ← read_window C state'
    frame ← dump_frame chunk window low state''.spec
    pure (record { frame = frame; state = state'' })

module _ {S : Type 0} (C : SourceConnector S) (H : Host S) (P : Polars) where
  unfoldable pub dblog : String → String → Option RunState → ℤ → Option ℤ → Exec S BatchResult
  unfolding opening_state tail_batch dump_batch
  dblog schema table given chunk_size inspect_every =
      if ltb_ℤ chunk_size (pos 1) then raise (chunk_size_below_one chunk_size) else do
        state ← opening_state C H schema table given inspect_every
        if state.dump_done then tail_batch C P state else dump_batch C P chunk_size state
