-- ===== src/Tests/Witnesses.antt =====
-- Runs of the code on the table of Tests/Table.antt, and each theorem at one of them.
use pydblog.Prelude.{
  ◌⊎◌, ℕ, suc, ◌+◌, ◌≤◌, ◌<◌, ◌≡◌, refl, inl, inr, String, Bool, true, false, Option, none, some,
  List, [], ◌∷◌, arith,
}
use pydblog.Prelude.Int.{ℤ, pos, ◌+ℤ◌, ◌≤ℤ◌}
use pydblog.Exec.{Result, ok, err, chunk_size_below_one}
use pydblog.Exec.Ensures.{Ensures}
use pydblog.Lsn.{Lsn, int_from_bytes, IsLsn}
use pydblog.State.{RunState, aware, BatchResult}
use pydblog.Frame.{Frame}
use pydblog.Source.{as_of}
use pydblog.Dblog.{dblog, state_at_lsn}
use pydblog.Dblog.Page.{next_chunk}
use pydblog.Dblog.Window.{read_window}
use pydblog.Dblog.Converge.Window.{Advanced, read_window-Advanced}
use pydblog.Dblog.Converge.Page.{Walked, Paged, next_chunk-Paged}
use pydblog.Dblog.Converge.Progress.{next_chunk-progress}
use pydblog.Dblog.Converge.Tail.{Copy, apply_frame}
use pydblog.Dblog.Converge.Run.{Run, start, idle, returned, raised, Run-converges}
use pydblog.Tests.Frames.{polars, polars-IsLawful}
use pydblog.Tests.Table.{
  layout, history, table, event, event_frame, ghost, source, host, source-IsFaithful, table-IsKeyed,
  lsn, lsn-IsLsn,
}

-- The first call, made at position 5, and what it hands back.
abbrev first_batch : BatchResult
first_batch = record {
  frame = some (event_frame (event 5 ∷ event 6 ∷ event 7 ∷ event 8 ∷ []));
  state = record {
    spec = table;
    last_lsn = lsn 0 9;
    last_inspect = aware 5;
    chunk_key = some (pos 2);
    dump_done = false;
  };
}

-- The second one, made at position 12, closes the walk.
abbrev second_batch : BatchResult
second_batch = record {
  frame = some (
      event_frame (event 9 ∷ event 10 ∷ event 11 ∷ event 12 ∷ event 13 ∷ event 14 ∷ event 15 ∷ []));
  state = record {
    spec = table;
    last_lsn = lsn 0 16;
    last_inspect = aware 5;
    chunk_key = some (pos 2);
    dump_done = true;
  };
}

first_call : dblog source host polars "dbo" "orders" none (pos 1) none 5 ≡ (ok first_batch, 8)
unfolding dblog pydblog.Exec.◌>>=◌ pydblog.Dblog.Guards.require_capture_instance
    pydblog.State.run_state pydblog.Dblog.Page.next_chunk pydblog.Dblog.Page.key_after
    pydblog.Frame.cell pydblog.Dblog.Window.read_window pydblog.Lsn.lt_bytes
    pydblog.Lsn.int_to_bytes pydblog.Lsn.max_bytes pydblog.Lsn.increment_lsn int_from_bytes
    pydblog.Dblog.Merge.merge_chunk pydblog.Source.events_from pydblog.Frame.joins
    pydblog.State.as_aware pydblog.Prelude.Int.◌+ℤ◌
first_call = refl

refused_call :
    dblog source host polars "dbo" "orders" (some first_batch.state) (pos 0) none 12
    ≡ (err (chunk_size_below_one (pos 0)), 12)
unfolding dblog
refused_call = refl

second_call :
    dblog source host polars "dbo" "orders" (some first_batch.state) (pos 1) none 12
    ≡ (ok second_batch, 15)
unfolding dblog pydblog.Dblog.Guards.check_table pydblog.Dblog.Guards.refresh_spec
    pydblog.Dblog.Guards.check_retention pydblog.Exec.◌>>=◌
    pydblog.Dblog.Guards.require_capture_instance pydblog.State.run_state
    pydblog.Dblog.Page.next_chunk pydblog.Dblog.Page.key_after pydblog.Frame.cell
    pydblog.Dblog.Window.read_window pydblog.Lsn.lt_bytes pydblog.Lsn.int_to_bytes
    pydblog.Lsn.max_bytes pydblog.Lsn.increment_lsn int_from_bytes pydblog.Dblog.Merge.merge_chunk
    pydblog.Source.events_from pydblog.Frame.joins pydblog.State.as_aware pydblog.Prelude.Int.◌+ℤ◌
second_call = refl

-- What a consumer of both frames has.
abbrev copied : Copy
copied = apply_frame layout (apply_frame layout (λ _. none) first_batch.frame) second_batch.frame

both_calls : Run source host polars layout ghost 15 (some second_batch.state) copied
both_calls =
    returned "dbo" "orders" (pos 1) none
      (raised "dbo" "orders" (pos 0) none
        (idle (returned "dbo" "orders" (pos 1) none (start 5) first_call) (omega arith))
        refused_call)
      second_call

Run-converges_example :
    (n : ℕ) × (int_from_bytes (lsn 0 16) ≡ suc n)
    × (n ≤ 15)
    × ((k : ℤ) → Walked second_batch.state k → copied k ≡ as_of layout history n k)
Run-converges_example =
    Run-converges source host layout history ghost source-IsFaithful polars polars-IsLawful 15
      second_batch.state copied both_calls

lsn-value : (n : ℕ) → int_from_bytes (lsn 0 n) ≡ n
unfolding int_from_bytes
lsn-value n = omega arith

read_window-Advanced_example :
    Ensures
      (λ r u. Advanced ghost history first_batch.state 12 8 r.0 r.1 u)
      (read_window source first_batch.state 12)
read_window-Advanced_example =
    read_window-Advanced source host layout history ghost source-IsFaithful first_batch.state 8
      table-IsKeyed (lsn-IsLsn 0 9 (omega arith) (omega arith)) (lsn-value 9) 12 (omega arith)

next_chunk-Paged_example :
    Ensures
      (λ r u. Paged layout history ghost first_batch.state 12 r.0 r.1 u)
      (next_chunk polars source first_batch.state (pos 1) 12)
next_chunk-Paged_example =
    next_chunk-Paged source host layout history ghost source-IsFaithful polars polars-IsLawful
      first_batch.state (pos 1) table-IsKeyed (omega arith) 12

next_chunk-progress_example :
    Ensures
      (λ r _. (r.1.dump_done ≡ true) ⊎ ((c : ℤ) × (r.1.chunk_key ≡ some c) × (pos 2 +ℤ pos 3 ≤ℤ c)))
      (next_chunk polars source first_batch.state (pos 3) 12)
next_chunk-progress_example =
    next_chunk-progress source host layout history ghost source-IsFaithful polars polars-IsLawful
      first_batch.state (pos 3) (pos 2) table-IsKeyed (omega arith) refl 12
