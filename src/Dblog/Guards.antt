-- ===== src/Dblog/Guards.antt =====
-- The checks that a call makes of its state before it reads anything: `_require_capture_instance`,
-- `_check_table`, `_refresh_spec` and `_check_retention`.
pub mod Schema
use text.Mathlib.Text.{◌==◌ as str_eq}
use pydblog.Prelude.{String, not, Option, none, some, map, if◌then◌else◌}
use pydblog.Prelude.Int.{ℤ, ltb_ℤ}
use pydblog.Exec.{
  Result, ok, err, Exec, pure, raise, lift, ◌>>=◌, ◌>>◌, no_capture_instance, foreign_state,
  rekeyed, recaptured, retention_expired,
}
use pydblog.Types.{TableSpec, eq_list, eq_column, qualified_name, dotted, business_columns}
use pydblog.Lsn.{lt_bytes}
use pydblog.State.{Datetime, RunState, aware, sub_datetime}
use pydblog.Connector.{SourceConnector, Host, now, warning, source_drifted}
use pydblog.Dblog.Drift.{drift}

unfoldable pub require_capture_instance : TableSpec → Result String
require_capture_instance spec = elim spec.capture_instance [
  | none ↦ err (no_capture_instance (qualified_name spec))
  | some name ↦ ok name
]

unfoldable pub check_table : RunState → String → String → Result (Unit {0})
check_table state schema table =
    if not (str_eq (qualified_name state.spec) (dotted schema table))
    then err (foreign_state (qualified_name state.spec) (dotted schema table))
    else ok tt

module _ {S : Type 0} (C : SourceConnector S) (H : Host S) where
  -- What follows the re-reading of the spec: stop, warn or carry on.
  unfoldable pub adopt_spec : RunState → TableSpec → Datetime → Exec S RunState
  adopt_spec state fresh read_at =
      if not (eq_list str_eq state.spec.pk_columns fresh.pk_columns)
      then raise (rekeyed (qualified_name fresh))
      else if not (eq_list eq_column state.spec.captured_columns fresh.captured_columns)
      then raise (
          recaptured (qualified_name fresh)
            (drift (business_columns state.spec) (business_columns fresh)))
      else do
        (if not (eq_list eq_column state.spec.columns fresh.columns)
            then warning H (
                source_drifted (qualified_name fresh)
                  (drift (map (λ c. c.name) state.spec.columns) (map (λ c. c.name) fresh.columns))
                  (business_columns fresh))
            else pure tt)
        pure (record state { spec = fresh; last_inspect = read_at })

  unfoldable pub refresh_spec : RunState → Option ℤ → Exec S RunState
  unfolding adopt_spec
  refresh_spec state none = pure state
  refresh_spec state (some inspect_every) = do
    moment ← now H
    age ← lift (sub_datetime (aware moment) state.last_inspect)
    if ltb_ℤ age inspect_every then pure state else do
      fresh ← C.inspect state.spec.source_schema state.spec.source_table
      lift (require_capture_instance fresh)
      adopt_spec state fresh (aware moment)

module _ {S : Type 0} (C : SourceConnector S) where
  unfoldable pub check_retention : RunState → String → Exec S (Unit {0})
  check_retention state capture_instance = do
    floor ← C.get_min_lsn capture_instance
    if lt_bytes state.last_lsn floor
        then raise (retention_expired (qualified_name state.spec) state.last_lsn floor)
        else pure tt
