-- ===== src/State.antt =====
-- state.py: what a run carries between calls, and what one call hands back.
pub mod Hex
use pydblog.Prelude.{ℕ, Bool, Option}
use pydblog.Prelude.Int.{ℤ, sub_ℕ}
use pydblog.Exec.{Result, ok, err, naive_and_aware}
use pydblog.Types.{TableSpec}
use pydblog.Lsn.{Lsn}
use pydblog.Frame.{Frame}

-- A `datetime` in microseconds since year 1: a wall clock with no time zone, or a moment in UTC.
pub data Datetime : Type 0 where
  naive : ℕ → Datetime
  aware : ℕ → Datetime

-- `a - b` in microseconds; Python refuses to mix the two kinds.
unfoldable pub sub_datetime : Datetime → Datetime → Result ℤ
sub_datetime (aware a) (aware b) = ok (sub_ℕ a b)
sub_datetime (naive a) (naive b) = ok (sub_ℕ a b)
sub_datetime _ _ = err naive_and_aware

pub record RunState : Type 0 where
  pub spec : TableSpec
  pub last_lsn : Lsn
  pub last_inspect : Datetime
  pub chunk_key : Option ℤ
  pub dump_done : Bool

-- The validator of `last_inspect`, `_aware`.
unfoldable pub as_aware : Datetime → Datetime
as_aware (aware t) = aware t
as_aware (naive t) = aware t

-- The constructor `RunState(...)`, which runs the validator. `model_copy` does not.
unfoldable pub run_state : TableSpec → Lsn → Datetime → Option ℤ → Bool → RunState
run_state spec last_lsn last_inspect chunk_key dump_done = record {
  spec = spec;
  last_lsn = last_lsn;
  last_inspect = as_aware last_inspect;
  chunk_key = chunk_key;
  dump_done = dump_done;
}

pub record BatchResult : Type 0 where
  pub frame : Option Frame
  pub state : RunState
