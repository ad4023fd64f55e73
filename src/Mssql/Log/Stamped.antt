-- ===== src/Mssql/Log/Stamped.antt =====
-- The rows of a dump page as events of the change log.
use pydblog.Prelude.{ℕ, some, map}
use pydblog.Types.{TableSpec}
use pydblog.Frame.{Row, Frame}
use pydblog.Mssql.Log.{stamps}

-- The cells that `to_events` puts before each row.
abbrev stamped_cells : TableSpec → ℕ → Row
stamped_cells spec mark = map (λ l. (l.0.name, l.1)) (stamps spec (some mark))
