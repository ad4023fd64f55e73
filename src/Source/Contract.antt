-- ===== src/Source/Contract.antt =====
-- What each primitive of a source may answer, beside the source's position: the last commit that it
-- has made. The primitives may move that position on, since other sessions write all the time.
use pydblog.Prelude.{
  ℕ, suc, ◌+◌, ◌≤◌, ◌<◌, ◌≡◌, ap, ◌⊎◌, String, false, Option, none, some, List, [], ◌∷◌, map,
}
use pydblog.Prelude.Int.{ℤ, pos, ◌≤ℤ◌, ◌<ℤ◌}
use pydblog.Exec.{Result, ok}
use pydblog.Builtins.{last}
use pydblog.Types.{TableSpec}
use pydblog.Arrow.{ArrowType, Field, dtype_of}
use pydblog.Lsn.{Lsn, int_from_bytes, IsLsn}
use pydblog.Frame.{int, Row, cell, cells, Frame, joins, height}
use pydblog.Connector.{SourceConnector, Host, Warning}
use pydblog.Source.{Layout, op_delete, History, as_of, events_from, page_image}

-- The rows of what a call may hand back as None.
abbrev pub rows_of : Option Frame → List Row
rows_of none = []
rows_of (some f) = f.rows

-- An inclusive lower bound, or none.
abbrev pub AtLeast : Option ℤ → ℤ → Type 0
AtLeast none k = Unit
AtLeast (some low) k = low ≤ℤ k

-- Rows by ascending integer keys from a bound on.
abbrev pub IsPage : String → Option ℤ → List Row → Type 0
IsPage leading low [] = Unit
IsPage leading low (row ∷ rows) =
    (n : ℤ) × (cell leading row ≡ int n) × AtLeast low n × IsPage leading (some n) rows

-- Rows as events: the same cells, and none is a delete.
abbrev pub AreStamped : Layout → List Row → List Row → Type 0
AreStamped Y [] [] = Unit
AreStamped Y [] (e ∷ es) = ⊥
AreStamped Y (row ∷ rows) [] = ⊥
AreStamped Y (row ∷ rows) (e ∷ es) =
    (cell Y.leading e ≡ cell Y.leading row)
    × (cells Y.kept e ≡ cells Y.kept row)
    × (joins op_delete (cell "operation" e) ≡ false)
    × AreStamped Y rows es

-- What the contract speaks of beside the answers.
pub record Ghost (S : Type 0) : Type 0 where
  -- the last commit
  pub position : S → ℕ
  -- how far the log consumer has read
  pub captured : S → ℕ
  -- the last commit by a time of the source's clock
  pub committed_by : ℕ → ℕ
  -- the schemas of a table read and of a log read
  pub row_fields : TableSpec → List Field
  pub event_fields : TableSpec → List Field

module _ {S : Type 0} (Y : Layout) (G : Ghost S) where
  -- A spec that `inspect` describes the table by: keyed on the one leading column, which both reads
  -- project at one type.
  pub record IsKeyed (spec : TableSpec) : Type 0 where
    pub keyed : spec.pk_columns ≡ Y.leading ∷ []
    pub key_type : ArrowType
    pub in_rows : dtype_of Y.leading (G.row_fields spec) ≡ some key_type
    pub in_events : dtype_of Y.leading (G.event_fields spec) ≡ some key_type

  -- A page covers a key if the page is short, or reaches up to the key.
  abbrev pub Covers : Frame → ℤ → ℤ → Type 0
  Covers f limit k =
      (pos (height f) <ℤ limit)
      ⊎ ((n : ℤ) × (last (map (cell Y.leading) f.rows) ≡ ok (int n)) × (k ≤ℤ n))

-- The contract. Nothing is promised of a call that raises, but that the position does not go back.
pub record IsFaithful {S : Type 0} (C : SourceConnector S) (H : Host S) (Y : Layout) (h : History)
    (G : Ghost S) : Type 0 where
  -- Commits are not undone.
  pub later_max : (s : S) → G.position s ≤ G.position (C.get_max_lsn s).1
  pub later_min : (name : String) (s : S) → G.position s ≤ G.position (C.get_min_lsn name s).1
  pub later_mark : (s : S) → G.position s ≤ G.position (C.watermark s).1
  pub later_await : (m : ℕ) (s : S) → G.position s ≤ G.position (C.await_watermark m s).1
  pub later_inspect :
      (schema table : String) (s : S) → G.position s ≤ G.position (C.inspect schema table s).1
  pub later_log :
      (spec : TableSpec) (low high : Lsn) (s : S)
      → G.position s ≤ G.position (C.read_event_log spec low high s).1
  pub later_table :
      (spec : TableSpec) (low high : Option ℤ) (limit : ℤ) (s : S)
      → G.position s ≤ G.position (C.read_table spec low high limit s).1
  pub later_now : (s : S) → G.position s ≤ G.position (H.utc_now s).1
  pub later_warn : (w : Warning) (s : S) → G.position s ≤ G.position (H.warn w s)
  -- The maximum LSN lies between what was captured before the call and what is committed after it.
  pub max_lsn :
      (s u : S) (high : Lsn)
      → C.get_max_lsn s ≡ (ok high, u)
      → IsLsn high × (G.captured s ≤ int_from_bytes high) × (int_from_bytes high ≤ G.position u)
  -- The floor is a position that the log has issued.
  pub min_lsn :
      (name : String) (s u : S) (floor : Lsn)
      → C.get_min_lsn name s ≡ (ok floor, u)
      → IsLsn floor × (0 < int_from_bytes floor) × (int_from_bytes floor ≤ G.position u)
  -- A watermark's time is not before the commits made when it was taken.
  pub mark : (s u : S) (m : ℕ) → C.watermark s ≡ (ok m, u) → G.position s ≤ G.committed_by m
  -- The barrier: the log consumer has read all that was committed by the watermark.
  pub awaited :
      (m : ℕ) (s u : S) → C.await_watermark m s ≡ (ok tt, u) → G.committed_by m ≤ G.captured u
  pub inspected :
      (schema table : String) (s u : S) (spec : TableSpec)
      → C.inspect schema table s ≡ (ok spec, u)
      → IsKeyed Y G spec
  -- A page is in key order, and shows each key that it covers as the table had it at some moment
  -- of the read, which may be another moment for another key.
  pub table_rows :
      (spec : TableSpec) (low : Option ℤ) (limit : ℤ) (s u : S) (f : Frame)
      → IsKeyed Y G spec
      → pos 1 ≤ℤ limit
      → C.read_table spec low none limit s ≡ (ok f, u)
      → (f.schema ≡ G.row_fields spec)
        × IsPage Y.leading low f.rows
        × ((k : ℤ)
            → AtLeast low k
            → Covers Y G f limit k
            → (t : ℕ) × (G.position s ≤ t)
              × (t ≤ G.position u)
              × (page_image Y k f.rows ≡ as_of Y h t k))
  -- A log read holds all events between its bounds, both included, in the log's order.
  pub log_rows :
      (spec : TableSpec) (low high : Lsn) (base count : ℕ) (s u : S) (events : Option Frame)
      → IsKeyed Y G spec
      → int_from_bytes low ≡ suc base
      → int_from_bytes high ≡ base + count
      → C.read_event_log spec low high s ≡ (ok events, u)
      → (rows_of events ≡ events_from h (suc base) count)
        × ((f : Frame) → events ≡ some f → f.schema ≡ G.event_fields spec)
  -- Stamping turns rows into events of the event schema, one for one.
  pub stamped :
      (f g : Frame) (spec : TableSpec) (low : ℕ)
      → f.schema ≡ G.row_fields spec
      → C.to_events f spec low ≡ ok g
      → (g.schema ≡ G.event_fields spec) × AreStamped Y f.rows g.rows
  -- The next LSN is that of the next position.
  pub incremented :
      (a c : Lsn)
      → IsLsn a
      → C.increment_lsn a ≡ ok c
      → IsLsn c × (int_from_bytes c ≡ suc (int_from_bytes a))

-- What a call leaves is not before where it started.
pub position_mono :
    {S A : Type 0} (G : Ghost S) (s t : S) (a : A) (p : Result A × S)
    → p ≡ (ok a, t)
    → G.position s ≤ G.position p.1
    → G.position s ≤ G.position t
position_mono G s t a p e h = rw (ap (λ q. q.1) e) at h
