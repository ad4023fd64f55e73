-- ===== src/Dblog/Converge/Later.antt =====
-- The last commit of a source across each part of a call, whether that returns or raises.
use native.Mathlib.Nat.{le_trans, le_refl}
use pydblog.Prelude.{ℕ, ◌≤◌, String, Bool, true, false, Option, none, some, if◌then◌else◌}
use pydblog.Prelude.Int.{ℤ}
use pydblog.Exec.{Error, Result, ok, err, Exec, continue, ◌>>=◌, lift, pure, raise}
use pydblog.Lsn.{Lsn}
use pydblog.State.{Datetime, RunState}
use pydblog.Types.{TableSpec}
use pydblog.Frame.{Frame, Polars}
use pydblog.Connector.{SourceConnector, Host, Warning, now, warning}
use pydblog.Source.{Layout, History}
use pydblog.Source.Contract.{Ghost, IsFaithful}
use pydblog.Dblog.{dblog, seed, opening_state, tail_batch, dump_frame, dump_batch}
use pydblog.Dblog.Guards.{adopt_spec, refresh_spec, check_retention}
use pydblog.Dblog.Page.{next_chunk}
use pydblog.Dblog.Window.{read_window}

module _ {S : Type 0} (G : Ghost S) where
  -- The call leaves the source where it was or later.
  pub record IsLater {A : Type 0} (m : Exec S A) : Type 0 where
    pub at : (s : S) → G.position s ≤ G.position (m s).1

  pub IsLater-lift : {A : Type 0} (r : Result A) → IsLater (lift r)
  IsLater-lift r = record { at = λ s. le_refl (G.position s) }

  IsLater-pure : {A : Type 0} (a : A) → IsLater (pure a)
  IsLater-pure a = record { at = λ s. le_refl (G.position s) }

  IsLater-raise : {A : Type 0} (e : Error) → IsLater (raise {A = A} e)
  IsLater-raise e = record { at = λ s. le_refl (G.position s) }

  IsLater-if :
      {A : Type 0} (b : Bool) (m n : Exec S A)
      → IsLater m
      → IsLater n
      → IsLater (if b then m else n)
  IsLater-if true m n hm hn = hm
  IsLater-if false m n hm hn = hn

  IsLater-bind :
      {A B : Type 0} (m : Exec S A) (f : A → Exec S B)
      → IsLater m
      → ((a : A) → IsLater (f a))
      → IsLater (m >>= f)
  unfolding ◌>>=◌
  IsLater-bind {A} {B} m f hm hf = record { at = λ s. go (m s) (hm.at s) }
    where
      go : {n : ℕ} (p : Result A × S) → n ≤ G.position p.1 → n ≤ G.position (continue p.0 f p.1).1
      go (ok a, t) h = le_trans h ((hf a).at t)
      go (err e, t) h = h

ruleset later_rules = (IsLater-lift, IsLater-pure, IsLater-raise, IsLater-if, IsLater-bind)

module _ {S : Type 0} (C : SourceConnector S) (H : Host S) (Y : Layout) (h : History) (G : Ghost S)
    (F : IsFaithful C H Y h G) where
  max-IsLater : IsLater G C.get_max_lsn
  max-IsLater = record { at = F.later_max }

  min-IsLater : (name : String) → IsLater G (C.get_min_lsn name)
  min-IsLater name = record { at = F.later_min name }

  mark-IsLater : IsLater G C.watermark
  mark-IsLater = record { at = F.later_mark }

  await-IsLater : (m : ℕ) → IsLater G (C.await_watermark m)
  await-IsLater m = record { at = F.later_await m }

  inspect-IsLater : (schema table : String) → IsLater G (C.inspect schema table)
  inspect-IsLater schema table = record { at = F.later_inspect schema table }

  log-IsLater : (spec : TableSpec) (low high : Lsn) → IsLater G (C.read_event_log spec low high)
  log-IsLater spec low high = record { at = F.later_log spec low high }

  table-IsLater :
      (spec : TableSpec) (low high : Option ℤ) (limit : ℤ)
      → IsLater G (C.read_table spec low high limit)
  table-IsLater spec low high limit = record { at = F.later_table spec low high limit }

  now-IsLater : IsLater G (now H)
  now-IsLater = record { at = F.later_now }

  warning-IsLater : (w : Warning) → IsLater G (warning H w)
  warning-IsLater w = record { at = F.later_warn w }

  read_window-IsLater : (st : RunState) → IsLater G (read_window C st)
  unfolding read_window
  read_window-IsLater st = search (later_rules, max-IsLater, log-IsLater)

  next_chunk-IsLater : (P : Polars) (st : RunState) (size : ℤ) → IsLater G (next_chunk P C st size)
  unfolding next_chunk
  next_chunk-IsLater P st size = search (later_rules, table-IsLater)

  adopt_spec-IsLater :
      (st : RunState) (fresh : TableSpec) (t : Datetime) → IsLater G (adopt_spec C H st fresh t)
  unfolding adopt_spec
  adopt_spec-IsLater st fresh t = search (later_rules, warning-IsLater)

  refresh_spec-IsLater : (st : RunState) (every : Option ℤ) → IsLater G (refresh_spec C H st every)
  unfolding refresh_spec
  refresh_spec-IsLater st none = IsLater-pure G st
  refresh_spec-IsLater st (some every) =
      search (later_rules, now-IsLater, inspect-IsLater, adopt_spec-IsLater) depth 14

  check_retention-IsLater : (st : RunState) (name : String) → IsLater G (check_retention C st name)
  unfolding check_retention
  check_retention-IsLater st name = search (later_rules, min-IsLater)

  seed-IsLater : (schema table : String) → IsLater G (seed C H schema table)
  unfolding seed
  seed-IsLater schema table =
      search (later_rules, inspect-IsLater, min-IsLater, max-IsLater, warning-IsLater, now-IsLater)
        depth 14

  opening_state-IsLater :
      (schema table : String) (given : Option RunState) (every : Option ℤ)
      → IsLater G (opening_state C H schema table given every)
  unfolding opening_state
  opening_state-IsLater schema table none every = seed-IsLater schema table
  opening_state-IsLater schema table (some given) every =
      search (later_rules, refresh_spec-IsLater, check_retention-IsLater)

  tail_batch-IsLater : (P : Polars) (st : RunState) → IsLater G (tail_batch C P st)
  unfolding tail_batch
  tail_batch-IsLater P st = search (later_rules, read_window-IsLater)

  dump_frame-IsLater :
      (P : Polars) (chunk window : Option Frame) (low : ℕ) (spec : TableSpec)
      → IsLater G (dump_frame C P chunk window low spec)
  unfolding dump_frame
  dump_frame-IsLater P none window low spec = IsLater-pure G window
  dump_frame-IsLater P (some chunk) window low spec = search later_rules

  dump_batch-IsLater : (P : Polars) (size : ℤ) (st : RunState) → IsLater G (dump_batch C P size st)
  unfolding dump_batch
  dump_batch-IsLater P size st =
      search
        (
          later_rules, mark-IsLater, await-IsLater, next_chunk-IsLater, read_window-IsLater,
          dump_frame-IsLater,
        )
        depth 14

  -- A call of `dblog` leaves the source where it was or later, whatever it returns or raises.
  pub dblog-IsLater :
      (P : Polars) (schema table : String) (given : Option RunState) (size : ℤ) (every : Option ℤ)
      → IsLater G (dblog C H P schema table given size every)
  unfolding dblog
  dblog-IsLater P schema table given size every =
      search (later_rules, opening_state-IsLater, tail_batch-IsLater, dump_batch-IsLater)
