-- ===== src/Dblog/Converge/Dump.antt =====
-- A batch of a chunk and the window that brackets it, at the moments of the two watermarks.
use native.Mathlib.Nat.{le_trans}
use pydblog.Prelude.{
  ℕ, suc, ◌+◌, ◌≤◌, ◌≡◌, refl, sym, ap, ◌∙◌, inl, inr, Option, none, some, List, [], ◌∷◌, ◌++◌, any,
  Bool-cases, if◌then◌else◌,
}
use mathlib.Core.List.{append-nil}
use pydblog.Prelude.Int.{ℤ, pos, ◌≤ℤ◌}
use pydblog.Exec.{ok, pure, ◌>>=◌, lift}
use pydblog.Exec.Ensures.{Ensures, Ensures-bind, Ensures-then, lift-eq-ok}
use pydblog.State.{RunState, BatchResult}
use pydblog.Types.{TableSpec}
use pydblog.Frame.{Row, Frame, Polars, IsLawful}
use pydblog.Connector.{SourceConnector, Host}
use pydblog.Source.{Layout, Image, has_key, after, History, as_of, events_from, page_image}
use pydblog.Source.Contract.{
  Ghost, IsFaithful, IsKeyed, AreStamped, AtLeast, rows_of, position_mono,
}
use pydblog.Dblog.{dump_batch, dump_frame}
use pydblog.Dblog.Merge.{merge_chunk}
use pydblog.Dblog.Merge.Survivors.{survivors}
use pydblog.Dblog.Page.{next_chunk}
use pydblog.Dblog.Window.{read_window}
use pydblog.Dblog.Converge.Rows.{after-survivors}
use pydblog.Dblog.Converge.Batch.{IsKnown, batch-seen, batch-walked, batch-IsKnown}
use pydblog.Dblog.Converge.Window.{Advanced, read_window-Advanced}
use pydblog.Dblog.Converge.Page.{Walked, Walked-or_ahead, Paged, next_chunk-Paged}
use pydblog.Dblog.Converge.Merge.{merge_chunk-rows}
use pydblog.Dblog.Converge.Tail.{Copy, apply_frame, IsCurrent}

module _ {S : Type 0} (C : SourceConnector S) (H : Host S) (Y : Layout) (h : History) (G : Ghost S)
    (F : IsFaithful C H Y h G) (P : Polars) (L : IsLawful P) where
  -- What a dump batch hands out: the window, then rows that stand for the chunk's survivors.
  record IsMerged (chunk window frame : Option Frame) : Type 0 where
    stamped : List Row
    rows : rows_of frame ≡ rows_of window ++ stamped
    upserts : AreStamped Y (survivors (Y.leading ∷ []) (rows_of window) (rows_of chunk)) stamped

  dump_frame-IsMerged :
      (chunk window : Option Frame) (low : ℕ) (spec : TableSpec) (s : S)
      → IsKeyed Y G spec
      → ((f : Frame) → chunk ≡ some f → f.schema ≡ G.row_fields spec)
      → ((f : Frame) → window ≡ some f → f.schema ≡ G.event_fields spec)
      → Ensures
          (λ frame u. IsMerged chunk window frame × (s ≡ u))
          (dump_frame C P chunk window low spec s)
  unfolding dump_frame
  dump_frame-IsMerged none window low spec s keyed ct wt =
      (record { stamped = []; rows = sym (append-nil (rows_of window)); upserts = tt }, refl)
  dump_frame-IsMerged (some chunk) window low spec s keyed ct wt =
      Ensures-then (λ frame u. IsMerged (some chunk) window frame × (s ≡ u))
        (lift (merge_chunk P C chunk window low spec)) _ s
        λ g u e.
          let (made, same) = lift-eq-ok _ s u g e in
          let (stamped, rows, upserts) =
            merge_chunk-rows C H Y h G F P L spec keyed chunk (ct chunk refl) window low g wt
              made in
          (record { stamped = stamped; rows = rows; upserts = upserts }, same)

module _ {S : Type 0} (C : SourceConnector S) (H : Host S) (Y : Layout) (h : History) (G : Ghost S)
    (F : IsFaithful C H Y h G) (P : Polars) (L : IsLawful P) (given paged kept : RunState)
    (copy : Copy) (chunk window frame : Option Frame) (s s₁ s₂ s₄ u : S)
    (now : IsCurrent Y h G s given copy) (page : Paged Y h G given s₁ chunk paged s₂)
    (moved : Advanced G h paged s₄ now.base window kept u)
    (merged : IsMerged C H Y h G F P L chunk window frame) (low : now.base ≤ G.position s₁)
    (high : G.position s₂ ≤ now.base + moved.count) where
  stays :
      (k : ℤ) (old : Image)
      → after Y k old merged.stamped ≡ (
          if any (has_key Y k) (events_from h (suc now.base) moved.count)
          then old
          else if any (has_key Y k) (rows_of chunk)
          then page_image Y k (rows_of chunk)
          else old)
  stays k old = rw (← moved.rows) (
      after-survivors Y k (rows_of chunk) merged.stamped (rows_of window) old given.chunk_key
        page.ordered page.once merged.upserts)

  -- The frame is the window's events and then the stamped rows.
  split :
      (k : ℤ)
      → apply_frame Y copy frame k
        ≡ after Y k (copy k) (events_from h (suc now.base) moved.count ++ merged.stamped)
  split k = ap (after Y k (copy k)) (merged.rows ∙ ap (λ rows. rows ++ merged.stamped) moved.rows)

  shown :
      (k : ℤ)
      → AtLeast given.chunk_key k
      → Walked paged k
      → apply_frame Y copy frame k ≡ as_of Y h (now.base + moved.count) k
  shown k ahead walked =
      let (moment, after_low, before_high, image) = page.seen k ahead walked in
      split k
      ∙ batch-seen Y h k now.base moved.count (rows_of chunk) merged.stamped (stays k) (copy k)
          (record {
            moment = moment;
            not_before = le_trans low after_low;
            not_after = le_trans before_high high;
            shown = image;
          })
          (now.known k)

  Walked-level :
      (k : ℤ) → Walked paged k → apply_frame Y copy frame k ≡ as_of Y h (now.base + moved.count) k
  Walked-level k walked = elim (Bool-cases (any (has_key Y k) (rows_of chunk))) [
    | inl there ↦ let (ahead, same) = page.inside k there in shown k ahead walked
    | inr absent ↦ elim (Walked-or_ahead given k) [
      | inl before ↦
          split k
          ∙ batch-walked Y h k now.base moved.count (rows_of chunk) merged.stamped (stays k)
              (copy k) (now.walked k before) absent
      | inr ahead ↦ shown k ahead walked
    ]
  ]

  IsKnown-level : (k : ℤ) → IsKnown Y h (now.base + moved.count) k (apply_frame Y copy frame k)
  IsKnown-level k = elim (Bool-cases (any (has_key Y k) (rows_of chunk))) [
    | inl there ↦ let (ahead, walked) = page.inside k there in inl (shown k ahead walked)
    | inr absent ↦ rw (split k) (
        batch-IsKnown Y h k now.base moved.count (rows_of chunk) merged.stamped (stays k) (copy k)
          (now.known k) absent)
  ]

  dump_step : IsCurrent Y h G u kept (apply_frame Y copy frame)
  dump_step = record {
    keyed = rw (moved.rest, page.rest) now.keyed;
    lsn = moved.lsn;
    base = now.base + moved.count;
    opens = moved.opens;
    behind = moved.behind;
    known = IsKnown-level;
    walked = λ k walked. Walked-level k (rw moved.rest at walked);
  }

module _ {S : Type 0} (C : SourceConnector S) (H : Host S) (Y : Layout) (h : History) (G : Ghost S)
    (F : IsFaithful C H Y h G) (P : Polars) (L : IsLawful P) where
  abbrev Current : Copy → BatchResult → S → Type 0
  Current copy r u = IsCurrent Y h G u r.state (apply_frame Y copy r.frame)

  -- The end of a dump batch, once the barrier has let it through.
  close_batch :
      (st paged : RunState) (copy : Copy) (chunk : Option Frame) (low mark : ℕ) (s s₁ s₂ s₃ s₄ : S)
      → (now : IsCurrent Y h G s st copy) → G.position s ≤ G.position s₁
      → Paged Y h G st s₁ chunk paged s₂
      → C.watermark s₂ ≡ (ok mark, s₃)
      → C.await_watermark mark s₃ ≡ (ok tt, s₄)
      → Ensures (Current copy) (
          (do
            (window, kept) ← read_window C paged
            frame ← dump_frame C P chunk window low kept.spec
            pure (record { frame = frame; state = kept }))
            s₄)
  close_batch st paged copy chunk low mark s s₁ s₂ s₃ s₄ now to₁ page e₃ e₄ =
      let to₃ = position_mono G s₂ s₃ mark (C.watermark s₂) e₃ (F.later_mark s₂) in
      let to₄ = position_mono G s₃ s₄ tt (C.await_watermark mark s₃) e₄ (F.later_await mark s₃) in
      let passed = le_trans (F.mark s₂ s₃ mark e₃) (F.awaited mark s₃ s₄ e₄) in
      let start = le_trans now.behind to₁ in
      Ensures-bind (λ r t. Advanced G h paged s₄ now.base r.0 r.1 t) (Current copy)
        (read_window C paged) _ s₄
        (read_window-Advanced C H Y h G F paged now.base (rw page.rest now.keyed)
          (rw page.rest now.lsn) (rw page.rest now.opens) s₄
          (le_trans start (le_trans page.later (le_trans to₃ to₄))))
        λ (window, kept) u e moved.
          let same_spec : kept.spec ≡ st.spec =
            ap (λ r. r.spec) moved.rest ∙ ap (λ r. r.spec) page.rest in
          Ensures-bind (λ frame v. IsMerged C H Y h G F P L chunk window frame × (u ≡ v))
            (Current copy) (dump_frame C P chunk window low kept.spec) _ u
            (dump_frame-IsMerged C H Y h G F P L chunk window low kept.spec u
              (rw same_spec now.keyed)
              (λ f here. page.schema f here ∙ ap G.row_fields (sym same_spec))
              (λ f here.
                moved.schema f here ∙ ap G.event_fields (sym (ap (λ r. r.spec) moved.rest))))
            λ frame v e' (merged, same). rw (← same) (
              dump_step C H Y h G F P L st paged kept copy chunk window frame s s₁ s₂ s₄ u now page
                moved merged start (le_trans passed moved.reached))

  pub dump_batch-IsCurrent :
      (s : S) (st : RunState) (copy : Copy) (size : ℤ)
      → IsCurrent Y h G s st copy
      → pos 1 ≤ℤ size
      → Ensures
          (λ r u. IsCurrent Y h G u r.state (apply_frame Y copy r.frame))
          (dump_batch C P size st s)
  unfolding dump_batch
  dump_batch-IsCurrent s st copy size now positive =
      Ensures-then (Current copy) C.watermark _ s λ low s₁ e₁.
        let to₁ = position_mono G s s₁ low (C.watermark s) e₁ (F.later_mark s) in
        Ensures-bind (λ r t. Paged Y h G st s₁ r.0 r.1 t) (Current copy) (next_chunk P C st size) _
          s₁ (next_chunk-Paged C H Y h G F P L st size now.keyed positive s₁)
          λ (chunk, paged) s₂ e₂ page. Ensures-then (Current copy) C.watermark _ s₂ λ mark s₃ e₃.
            Ensures-then (Current copy) (C.await_watermark mark) _ s₃
              λ _ s₄ e₄. close_batch st paged copy chunk low mark s s₁ s₂ s₃ s₄ now to₁ page e₃ e₄
