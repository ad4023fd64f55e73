-- ===== src/Dblog/Converge/Tail.antt =====
-- What holds between calls, and a batch of the log alone.
use pydblog.Prelude.{ℕ, suc, ◌+◌, ◌≤◌, ◌≡◌, sym, ap, ◌∙◌, inl, true, Option}
use pydblog.Prelude.Int.{ℤ}
use pydblog.Exec.Ensures.{Ensures, Ensures-bind}
use pydblog.Lsn.{int_from_bytes, IsLsn}
use pydblog.State.{RunState, BatchResult}
use pydblog.Frame.{Frame, Polars}
use pydblog.Connector.{SourceConnector, Host}
use pydblog.Source.{Layout, Image, after, History, as_of}
use pydblog.Source.Contract.{Ghost, IsFaithful, IsKeyed, rows_of}
use pydblog.Source.Events.{as_of-events_from}
use pydblog.Dblog.{tail_batch}
use pydblog.Dblog.Window.{read_window}
use pydblog.Dblog.Converge.Batch.{IsKnown}
use pydblog.Dblog.Converge.Window.{Advanced, read_window-Advanced}
use pydblog.Dblog.Converge.Page.{Walked}

-- What a consumer knows of every key.
abbrev pub Copy : Type 0
Copy = ℤ → Image

-- A consumer applies the rows of a frame in order; None changes nothing.
abbrev pub apply_frame : Layout → Copy → Option Frame → Copy
apply_frame Y copy frame k = after Y k (copy k) (rows_of frame)

-- Between calls: the next window opens right behind a position that the source has passed; there a
-- consumer has the table's image of every key that the walk has passed, and of any other key the
-- image or nothing.
pub record IsCurrent {S : Type 0} (Y : Layout) (h : History) (G : Ghost S) (s : S) (st : RunState)
    (copy : Copy) : Type 0 where
  pub keyed : IsKeyed Y G st.spec
  pub lsn : IsLsn st.last_lsn
  pub base : ℕ
  pub opens : int_from_bytes st.last_lsn ≡ suc base
  pub behind : base ≤ G.position s
  pub known : (k : ℤ) → IsKnown Y h base k (copy k)
  pub walked : (k : ℤ) → Walked st k → copy k ≡ as_of Y h base k

module _ {S : Type 0} (C : SourceConnector S) (H : Host S) (Y : Layout) (h : History) (G : Ghost S)
    (F : IsFaithful C H Y h G) (P : Polars) where
  tail_step :
      (s u : S) (st kept : RunState) (copy : Copy) (window : Option Frame)
      → (now : IsCurrent Y h G s st copy) → st.dump_done ≡ true
      → Advanced G h st s now.base window kept u
      → IsCurrent Y h G u kept (apply_frame Y copy window)
  tail_step s u st kept copy window now done moved = record {
    keyed = rw moved.rest now.keyed;
    lsn = moved.lsn;
    base = now.base + moved.count;
    opens = moved.opens;
    behind = moved.behind;
    known = λ k. inl (level k);
    walked = λ k _. level k;
  }
    where
      level : (k : ℤ) → apply_frame Y copy window k ≡ as_of Y h (now.base + moved.count) k
      level k =
          ap (after Y k (copy k)) moved.rows
          ∙ rw (now.walked k (inl done)) (sym (as_of-events_from Y h k now.base moved.count))

  pub tail_batch-IsCurrent :
      (s : S) (st : RunState) (copy : Copy)
      → IsCurrent Y h G s st copy
      → st.dump_done ≡ true
      → Ensures
          (λ r u. IsCurrent Y h G u r.state (apply_frame Y copy r.frame))
          (tail_batch C P st s)
  unfolding tail_batch
  tail_batch-IsCurrent s st copy now done =
      Ensures-bind (λ r u. Advanced G h st s now.base r.0 r.1 u)
        (λ (r : BatchResult) u. IsCurrent Y h G u r.state (apply_frame Y copy r.frame))
        (read_window C st) _ s
        (read_window-Advanced C H Y h G F st now.base now.keyed now.lsn now.opens s now.behind)
        (λ (window, kept) u e moved. tail_step s u st kept copy window now done moved)
