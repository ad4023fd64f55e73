-- ===== src/Mssql/Barrier/Passed.antt =====
-- What a wait for a watermark that returns has waited for.
use pydblog.Prelude.{ℕ, ◌≤◌, ◌≡◌, Bool, true, Option, List, [], ◌∷◌}
use pydblog.Exec.{ok}
use pydblog.Exec.Ensures.{Ensures}
use pydblog.Frame.{Value, moment}
use pydblog.Mssql.Driver.{Driver}
use pydblog.Mssql.Session.{Session}
use pydblog.Mssql.Barrier.{capture_query, holds, monotonic}

module _ {W : Type 0} (D : Driver W) (committed_by : ℕ → ℕ) (captured : W → ℕ) where
  -- A server whose scan sessions tell the truth: where its view shows a scan that began after the
  -- mark, or an empty one that ended after it, the log consumer has read all that was committed by
  -- the mark. What was read stays read.
  pub record IsScanned : Type 0 where
    pub scanned :
        (cur mark : ℕ) (v w x : W) (row : Option (List Value))
        → D.execute cur capture_query (moment mark ∷ moment mark ∷ []) v ≡ (ok tt, w)
        → D.fetchone cur w ≡ (ok row, x)
        → holds row ≡ true
        → committed_by mark ≤ captured x
    pub monotonic : (w : W) → captured w ≤ captured (D.monotonic w).1
    pub close_cursor : (cur : ℕ) (w : W) → captured w ≤ captured (D.close_cursor cur w).1

  Passed : ℕ → Bool → Session W → Type 0
  Passed mark passed t = passed ≡ true → committed_by mark ≤ captured t.world
