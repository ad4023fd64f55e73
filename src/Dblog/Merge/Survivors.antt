-- ===== src/Dblog/Merge/Survivors.antt =====
-- `_supersede` against its description: the rows of the chunk whose key no event of the window has.
use pydblog.Prelude.{
  Option, none, String, ◌≡◌, refl, ap, sym, ◌∙◌, true, false, not, some, List, [], ◌∷◌, keep, any,
  All, All-map, All-zip, map, arith, Bool-cases, length, ◌==◌, inl, inr,
}
use pydblog.Exec.{Result, ok}
use pydblog.Types.{TableSpec}
use pydblog.Arrow.{dtype_of}
use pydblog.Frame.{
  Row, cells, matches, matched, Frame, Polars, IsLawful, Joinable, Selectable, is_empty,
}
use pydblog.Frame.Rows.{
  keep-not-any, matched-cells_right, any-matched-cells_left, any_congr, any-false, keep_congr,
}
use pydblog.Dblog.Merge.{supersede, supersede_events}

-- The rows that no event of the window stands in for.
abbrev pub survivors : List String → List Row → List Row → List Row
survivors keys events rows = keep (λ row. not (matched keys events row)) rows

-- Two frames have the keys at the same types.
abbrev SameTypes : List String → Frame → Frame → Type 0
SameTypes keys f g = All (λ n. dtype_of n f.schema ≡ dtype_of n g.schema) keys

SameTypes-refl : (keys : List String) (f : Frame) → SameTypes keys f f
SameTypes-refl [] f = tt
SameTypes-refl (k ∷ keys) f = (refl, SameTypes-refl keys f)

module _ {keys : List String} {l r : Frame} (j : Joinable keys l r) where
  Joinable-left : Selectable keys l
  Joinable-left = record {
    once = j.once;
    present = All-map _ _ (λ k (t, at_left, at_right). (t, at_left)) keys j.typed;
  }

  Joinable-right : Selectable keys r
  Joinable-right = record {
    once = j.once;
    present = All-map _ _ (λ k (t, at_left, at_right). (t, at_right)) keys j.typed;
  }

  Joinable-same : {l' r' : Frame} → SameTypes keys l' l → SameTypes keys r' r → Joinable keys l' r'
  Joinable-same left right = record {
    some_key = j.some_key;
    once = j.once;
    typed =
        All-map _ _ (λ k ((t, p, q), (el, er)). (t, el ∙ p, er ∙ q)) keys
          (All-zip _ _ keys j.typed (All-zip _ _ keys left right));
  }

module _ (P : Polars) (L : IsLawful P) (keys : List String) where
  -- Without its duplicates, a projection of the window matches what the window matches.
  matched-unique :
      (changed window : Frame)
      → map (cells keys) changed.rows ≡ map (cells keys) window.rows
      → (row : Row) → matched keys (P.unique changed).rows row ≡ matched keys window.rows row
  matched-unique changed window same row =
      L.any-unique (λ r. matches keys row r) changed
      ∙ matched-cells_right keys changed.rows window.rows row same

  unique-SameTypes :
      (changed window : Frame)
      → SameTypes keys changed window
      → SameTypes keys (P.unique changed) window
  unique-SameTypes changed window same = rw (L.schema-unique changed) same

module _ (P : Polars) (L : IsLawful P) (chunk window : Frame) (spec : TableSpec) where
  abbrev Outcome : Result Frame → Type 0
  Outcome r =
      (g : Frame) × (r ≡ ok g)
      × (g.schema ≡ chunk.schema)
      × (g.rows ≡ survivors spec.pk_columns window.rows chunk.rows)

  supersede_events-survivors :
      Joinable spec.pk_columns chunk window → Outcome (supersede_events P chunk window spec)
  unfolding supersede_events
  supersede_events-survivors j =
      let keys = spec.pk_columns in
      let (changed, picked, cells_w, types_w) = L.select-cells keys window (Joinable-right j) in
      let (mine, picked_c, cells_c, types_c) = L.select-cells keys chunk (Joinable-left j) in
      let superseded = P.unique changed in
      let types_u = unique-SameTypes P L keys changed window types_w in
      let same_match = matched-unique P L keys changed window cells_w in
      let (overlap, joined, empty) =
        L.semi_join-is_empty keys mine superseded (Joinable-same j types_c types_u) in
      let (rest, kept, schema, rows) =
        L.anti_join-rows keys chunk superseded
          (Joinable-same j (SameTypes-refl keys chunk) types_u) in
      elim (Bool-cases (is_empty overlap)) [
        | inl none_hit ↦
            let quiet : any (matched keys window.rows) chunk.rows ≡ false = ground (
              arith,
              any_congr _ _ same_match mine.rows,
              any-matched-cells_left keys window.rows mine.rows chunk.rows cells_c,
              empty,
            ) in
            (
              chunk,
              rw (picked, picked_c, joined, none_hit),
              refl,
              sym (keep-not-any (matched keys window.rows) chunk.rows quiet),
            )
        | inr hit ↦ (
          rest,
          rw (picked, picked_c, joined, hit) kept,
          schema,
          rows ∙ keep_congr _ _ (λ row. ap not (same_match row)) chunk.rows,
        )
      ]

-- A window without events stands in for nothing.
pub survivors-of_empty :
    (keys : List String) (events rows : List Row)
    → (length events == 0) ≡ true
    → survivors keys events rows ≡ rows
survivors-of_empty keys [] rows e =
    keep-not-any (λ row. false) rows (any-false _ (λ row. refl) rows)
survivors-of_empty keys (event ∷ events) rows e = absurd (ground arith)

-- The rows of a window, which is None where the log holds no event.
abbrev pub window_rows : Option Frame → List Row
window_rows none = []
window_rows (some window) = window.rows

-- The chunk can be joined on the key with the window, if there is one.
abbrev pub JoinableWindow : List String → Frame → Option Frame → Type 0
JoinableWindow keys chunk none = Unit
JoinableWindow keys chunk (some window) = Joinable keys chunk window

-- With frames that meet polars' laws, on a chunk that can be joined on the key with the window, if
-- there is one, `_supersede` returns the chunk's schema and exactly the rows of the chunk whose key no
-- event of the window has, in the order of the chunk: without a window, on an empty window, on the path
-- that hands the chunk straight back, and through the anti-join.
pub supersede-survivors :
    (P : Polars)
    → IsLawful P
    → (chunk : Frame) (window : Option Frame) (spec : TableSpec)
    → JoinableWindow spec.pk_columns chunk window
    → (g : Frame) × (supersede P chunk window spec ≡ ok g)
      × (g.schema ≡ chunk.schema)
      × (g.rows ≡ survivors spec.pk_columns (window_rows window) chunk.rows)
unfolding supersede
supersede-survivors P L chunk none spec j =
    (chunk, refl, refl, sym (survivors-of_empty spec.pk_columns [] chunk.rows refl))
supersede-survivors P L chunk (some window) spec j = elim (Bool-cases (is_empty window)) [
  | inl empty ↦
      (chunk, rw empty, refl, sym (survivors-of_empty spec.pk_columns window.rows chunk.rows empty))
  | inr some_event ↦ rw some_event (supersede_events-survivors P L chunk window spec j)
]
