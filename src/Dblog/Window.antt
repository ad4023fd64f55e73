-- ===== src/Dblog/Window.antt =====
-- `_read_window`: one window of the change log.
use pydblog.Prelude.{Option, none, if◌then◌else◌}
use pydblog.Exec.{Exec, pure, lift, ◌>>=◌}
use pydblog.Lsn.{lt_bytes}
use pydblog.State.{RunState}
use pydblog.Frame.{Frame}
use pydblog.Connector.{SourceConnector}

module _ {S : Type 0} (C : SourceConnector S) where
  unfoldable pub read_window : RunState → Exec S (Option Frame × RunState)
  read_window state = do
    high ← C.get_max_lsn
    if lt_bytes high state.last_lsn then pure (none, state) else do
      events ← C.read_event_log state.spec state.last_lsn high
      next_lsn ← lift (C.increment_lsn high)
      pure (events, record state { last_lsn = next_lsn })
