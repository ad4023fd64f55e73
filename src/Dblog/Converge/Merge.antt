-- ===== src/Dblog/Converge/Merge.antt =====
-- `_merge_chunk` over a faithful source: the window's events, then the rows of the chunk that none of
-- them stands in for, stamped.
use pydblog.Prelude.{
  ℕ, ◌≡◌, refl, sym, ap, ◌∙◌, inl, inr, Option, none, some, List, [], ◌∷◌, ◌++◌, Bool-cases,
}
use pydblog.Exec.{ok, and_then-eq-ok}
use pydblog.Types.{TableSpec}
use pydblog.Frame.{Row, Frame, Polars, IsLawful, Joinable, is_empty}
use pydblog.Connector.{SourceConnector, Host}
use pydblog.Source.{Layout, History}
use pydblog.Source.Contract.{Ghost, IsFaithful, IsKeyed, AreStamped, rows_of}
use pydblog.Dblog.Merge.{supersede, stack, merge_chunk}
use pydblog.Dblog.Merge.Survivors.{survivors, survivors-of_empty, supersede-survivors}
use pydblog.Dblog.Converge.Page.{nil_of_length}

module _ {S : Type 0} (C : SourceConnector S) (H : Host S) (Y : Layout) (h : History) (G : Ghost S)
    (F : IsFaithful C H Y h G) (P : Polars) (L : IsLawful P) (spec : TableSpec)
    (keyed : IsKeyed Y G spec) (chunk : Frame) (rows_typed : chunk.schema ≡ G.row_fields spec) where
  Joinable-reads :
      (window : Frame) → window.schema ≡ G.event_fields spec → Joinable spec.pk_columns chunk window
  Joinable-reads window events_typed = rw keyed.keyed (record {
    some_key = λ e. cc;
    once = refl;
    typed = ((keyed.key_type, rw rows_typed keyed.in_rows, rw events_typed keyed.in_events), tt);
  })

  -- What `_supersede` leaves, on every path.
  supersede-rows :
      (window : Option Frame) (g : Frame)
      → ((f : Frame) → window ≡ some f → f.schema ≡ G.event_fields spec)
      → supersede P chunk window spec ≡ ok g
      → (g.schema ≡ G.row_fields spec)
        × (g.rows ≡ survivors (Y.leading ∷ []) (rows_of window) chunk.rows)
  unfolding supersede
  supersede-rows none g typed e =
      let same : chunk ≡ g = cc in
      rw (← same) (rows_typed, sym (survivors-of_empty (Y.leading ∷ []) [] chunk.rows refl))
  supersede-rows (some window) g typed e =
      let (made, run, schema, rows) =
        supersede-survivors P L chunk (some window) spec
          (Joinable-reads window (typed window refl)) in
      let same : made ≡ g = cc (run, e) in rw (← same) (schema ∙ rows_typed, rw keyed.keyed at rows)

  stack-rows :
      (window : Option Frame) (events g : Frame)
      → ((f : Frame) → window ≡ some f → f.schema ≡ G.event_fields spec)
      → events.schema ≡ G.event_fields spec
      → stack P window events ≡ ok g
      → g.rows ≡ rows_of window ++ events.rows
  unfolding stack
  stack-rows none events g typed same e =
      let whole : events ≡ g = cc in ap (λ f. f.rows) (sym whole)
  stack-rows (some window) events g typed same e = elim (Bool-cases (is_empty window)) [
    | inl empty ↦
        let alone : ok events ≡ ok g = rw empty at e in
        let whole : events ≡ g = cc in
        rw (nil_of_length window.rows empty) (ap (λ f. f.rows) (sym whole))
    | inr filled ↦
        let both : P.concat window events ≡ ok g = rw filled at e in
        let stacked = L.concat-rows window events (typed window refl ∙ sym same) in
        let whole : record { schema = window.schema; rows = window.rows ++ events.rows } ≡ g =
          cc (stacked, both) in
        ap (λ f. f.rows) (sym whole)
  ]

  -- Over a source that meets the contract and frames that meet polars' laws, for a chunk and a window
  -- with the schemas of the two reads: the frame that `_merge_chunk` returns is the window's events
  -- and then one stamped event, with the cells of the row and no delete, for each row of the chunk,
  -- in its order, whose key no event of the window has.
  pub merge_chunk-rows :
      (window : Option Frame) (low : ℕ) (g : Frame)
      → ((f : Frame) → window ≡ some f → f.schema ≡ G.event_fields spec)
      → merge_chunk P C chunk window low spec ≡ ok g
      → (stamped : List Row) × (g.rows ≡ rows_of window ++ stamped)
        × AreStamped Y (survivors (Y.leading ∷ []) (rows_of window) chunk.rows) stamped
  unfolding merge_chunk
  merge_chunk-rows window low g typed e =
      let (rest, left, after_rest) = and_then-eq-ok (supersede P chunk window spec) _ g e in
      let (events, stamped, stacked) = and_then-eq-ok (C.to_events rest spec low) _ g after_rest in
      let (rest_typed, rest_rows) = supersede-rows window rest typed left in
      let (events_typed, same_rows) = F.stamped rest events spec low rest_typed stamped in
      (
        events.rows,
        stack-rows window events g typed events_typed stacked,
        rw (← rest_rows) same_rows,
      )
