-- ===== src/Mssql/Barrier.antt =====
-- `await_watermark` and `_capture_passed` of connectors/mssql/connector.py: the connector polls the
-- server until its capture job has passed a watermark, or until a deadline.
pub mod Rounds
pub mod Passed
use pydblog.Prelude.{
  String, ℕ, zero, suc, ◌+◌, Bool, true, false, Option, none, some, List, [], ◌∷◌, ltb, not,
  if◌then◌else◌, ◌==◌,
}
use Prim.Native.String.{◌++◌ as ◌<>◌}
use pydblog.Prelude.Int.{ℤ, pos, negsuc}
use pydblog.Builtins.{first}
use pydblog.Exec.{
  Result, ok, err, Exec, and_then, pure, raise, lift, ◌>>=◌, ◌>>◌, capture_timeout, out_of_rounds,
}
use pydblog.Frame.{Value, null, bool, int, str, binary, moment, other}
use pydblog.Mssql.Driver.{Driver}
use pydblog.Mssql.Session.{Settings, Session, call, with_cursor}

-- `bool(value)` of a cell of a query that answers 1 or 0.
abbrev pub truthy : Value → Bool
truthy null = false
truthy (bool b) = b
truthy (int (pos n)) = not (n == 0)
truthy (int (negsuc n)) = true
truthy _ = true

-- `bool(row and row[0])`: no row and an empty row are false.
unfoldable pub holds : Option (List Value) → Bool
holds none = false
holds (some []) = false
holds (some (v ∷ row)) = truthy v

abbrev pub capture_query : String
capture_query =
    "SELECT TOP 1 CASE WHEN start_time > ? "
    <> ("    OR (empty_scan_count > 0 AND end_time > ?) THEN 1 ELSE 0 END "
        <> ("FROM sys.dm_cdc_log_scan_sessions "
            <> ("WHERE session_id > 0 " <> "ORDER BY end_time DESC")))

module _ {W : Type 0} (D : Driver W) where
  unfoldable pub capture_passed : ℕ → ℕ → Exec (Session W) Bool
  unfolding holds
  capture_passed cur mark = do
    call (D.execute cur capture_query (moment mark ∷ moment mark ∷ []))
    row ← call (D.fetchone cur)
    pure (holds row)

  abbrev pub monotonic : Exec (Session W) ℕ
  monotonic s = let (t, w) = D.monotonic s.world in (ok t, record s { world = w })

  abbrev pub sleep : ℕ → Exec (Session W) (Unit {0})
  sleep t s = (ok tt, record s { world = D.sleep t s.world })

  -- The `while`: whether the capture job passed the mark before the deadline.
  unfoldable pub poll : ℕ → ℕ → ℕ → ℕ → ℕ → Exec (Session W) Bool
  unfolding capture_passed
  poll zero pause deadline cur mark = raise out_of_rounds
  poll (suc rounds) pause deadline cur mark = do
    time ← monotonic
    elim (ltb time deadline) [
      | false ↦ pure false
      | true ↦ do
        passed ← capture_passed cur mark
        elim passed [
          | true ↦ do
            -- the log line of a success reads the clock once more
            monotonic
            pure true
          | false ↦ do sleep pause; poll rounds pause deadline cur mark
        ]
    ]

  -- The loop has one round more than the timeout has microseconds.
  unfoldable pub await_watermark : Settings → ℕ → Exec (Session W) (Unit {0})
  unfolding with_cursor poll
  await_watermark M mark = do
    started ← monotonic
    let deadline = started + M.watermark_timeout
    passed ←
        with_cursor D M λ cur. poll (suc M.watermark_timeout) M.watermark_poll deadline cur mark
    if passed then pure tt else raise (capture_timeout mark)
