-- ===== src/Connector.antt =====
-- connectors/base.py: the primitives that the algorithm may call on a source, over the source's
-- state `S`, and the clock and the logger of the process.
use pydblog.Prelude.{ℕ, String, Option, List}
use pydblog.Prelude.Int.{ℤ}
use pydblog.Exec.{Result, ok, Exec}
use pydblog.Types.{TableSpec}
use pydblog.Lsn.{Lsn}
use pydblog.Frame.{Frame}

-- The Protocol's methods, of which `dblog()` and `state_at_lsn()` call those that read and the last
-- one. `__enter__` hands back the connector itself.
pub record SourceConnector (S : Type 0) : Type 0 where
  pub get_max_lsn : Exec S Lsn
  pub get_min_lsn : String → Exec S Lsn
  pub watermark : Exec S ℕ
  pub await_watermark : ℕ → Exec S Unit
  pub connect : Exec S (Unit {0})
  pub close : Exec S (Unit {0})
  -- `__enter__` and `__exit__`
  pub enter : Exec S (Unit {0})
  pub exit : Exec S (Unit {0})
  pub inspect : String → String → Exec S TableSpec
  pub read_event_log : TableSpec → Lsn → Lsn → Exec S (Option Frame)
  pub to_events : Frame → TableSpec → ℕ → Result Frame
  -- the spec, `start_pk`, `end_pk`, `limit`
  pub read_table : TableSpec → Option ℤ → Option ℤ → ℤ → Exec S Frame
  pub read_pk_range : TableSpec → Exec S (Option (ℤ × ℤ))
  pub increment_lsn : Lsn → Result Lsn

-- What the log says at the level of a warning.
pub data Warning : Type 0 where
  full_dump : String → Lsn → Warning
  source_drifted : String → String → List String → Warning

pub record Host (S : Type 0) : Type 0 where
  -- `datetime.now(UTC)`
  pub utc_now : S → ℕ × S
  -- `logger.warning(...)`
  pub warn : Warning → S → S

module _ {S : Type 0} (H : Host S) where
  abbrev pub now : Exec S ℕ
  now s = let (t, s') = H.utc_now s in (ok t, s')

  abbrev pub warning : Warning → Exec S Unit
  warning w s = (ok tt, H.warn w s)
