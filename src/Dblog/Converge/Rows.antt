-- ===== src/Dblog/Converge/Rows.antt =====
-- One key of a page: where it stands, what superseding and stamping make of it, and what a consumer
-- then knows of it.
use pydblog.Prelude.{
  String, ◌≡◌, refl, ap, ◌∙◌, inl, inr, Bool, true, false, ◌&&◌, Option, none, some, List, [], ◌∷◌,
  map, any, arith, Bool-cases, if◌then◌else◌, ==_iff,
}
use pydblog.Prelude.Int.{ℤ, pos, negsuc, pos_part, neg_part, ◌≤ℤ◌}
use pydblog.Exec.{ok}
use pydblog.Builtins.{last}
use pydblog.Frame.{int, Row, cell, joins, matched, distinct}
use pydblog.Frame.Rows.{any-map, any_congr}
use pydblog.Source.{Layout, Image, has_key, image, after, page_image}
use pydblog.Source.Contract.{AtLeast, IsPage, AreStamped}
use pydblog.Dblog.Merge.Survivors.{survivors}

pub joins_int_refl : (n : ℤ) → joins (int n) (int n) ≡ true
unfolding joins
joins_int_refl (pos n) = (==_iff n n).1 refl
joins_int_refl (negsuc n) = (==_iff n n).1 refl

pub joins_int-eq : (m n : ℤ) → joins (int m) (int n) ≡ true → m ≡ n
unfolding joins
joins_int-eq (pos m) (pos n) h = ap pos ((==_iff m n).0 h)
joins_int-eq (pos m) (negsuc n) h = cc
joins_int-eq (negsuc m) (pos n) h = cc
joins_int-eq (negsuc m) (negsuc n) h = ap negsuc ((==_iff m n).0 h)

AtLeast-mono : (low : Option ℤ) (m n : ℤ) → AtLeast low m → m ≤ℤ n → AtLeast low n
AtLeast-mono none m n h le = tt
AtLeast-mono (some l) m n h le = omega arith

-- The bound of a page is not above its last key.
page-low-le-last :
    (leading : String) (low : ℤ) (row : Row) (rows : List Row) (n : ℤ)
    → IsPage leading (some low) (row ∷ rows)
    → last (map (cell leading) (row ∷ rows)) ≡ ok (int n)
    → low ≤ℤ n
page-low-le-last leading low row [] n (m, e, above, p) h =
    let same : m ≡ n = cc in rw (← same) above
page-low-le-last leading low row (next ∷ rows) n (m, e, above, p) h =
    let later = page-low-le-last leading m next rows n p h in omega arith

module _ (Y : Layout) (k : ℤ) where
  key-eq : (row : Row) (n : ℤ) → cell Y.leading row ≡ int n → has_key Y k row ≡ true → k ≡ n
  key-eq row n e h = joins_int-eq k n (rw e at h)

  -- A key that a page holds lies in the page's bounds.
  pub page-AtLeast :
      (low : Option ℤ) (rows : List Row)
      → IsPage Y.leading low rows
      → any (has_key Y k) rows ≡ true
      → AtLeast low k
  page-AtLeast low [] p h = cc
  page-AtLeast low (row ∷ rows) (n, e, above, p) h = elim (Bool-cases (has_key Y k row)) [
    | inl hit ↦ rw (key-eq row n e hit) above
    | inr miss ↦ AtLeast-mono low n k above (page-AtLeast (some n) rows p (ground arith))
  ]

  pub page-at_most :
      (low : Option ℤ) (rows : List Row) (n : ℤ)
      → IsPage Y.leading low rows
      → last (map (cell Y.leading) rows) ≡ ok (int n)
      → any (has_key Y k) rows ≡ true
      → k ≤ℤ n
  page-at_most low [] n p e h = cc
  page-at_most low (row ∷ []) n (m, em, above, p) e h =
      let same : m ≡ n = cc in
      let key : k ≡ m = key-eq row m em (ground arith) in
      omega (arith, ap pos_part same, ap neg_part same, ap pos_part key, ap neg_part key)
  page-at_most low (row ∷ next ∷ rows) n (m, em, above, p) e h =
      elim (Bool-cases (has_key Y k row)) [
        | inl hit ↦ rw (key-eq row m em hit) (page-low-le-last Y.leading m next rows n p e)
        | inr miss ↦ page-at_most (some m) (next ∷ rows) n p e (ground arith)
      ]

  pub page_image-absent :
      (rows : List Row) → any (has_key Y k) rows ≡ false → page_image Y k rows ≡ none
  unfolding page_image
  page_image-absent [] h = refl
  page_image-absent (row ∷ rows) h = ground (arith, page_image-absent rows)

  -- The first row of a page with distinct keys is the only one with its key.
  alone :
      (row : Row) (rows : List Row) (n : ℤ)
      → cell Y.leading row ≡ int n
      → k ≡ n
      → any (joins (cell Y.leading row)) (map (cell Y.leading) rows) ≡ false
      → any (has_key Y k) rows ≡ false
  alone row rows n e same h = rw same (rw (e, any-map (joins (int n)) (cell Y.leading) rows) at h)

  and_true : (b : Bool) → (b && true) ≡ b
  and_true true = refl
  and_true false = refl

  matched_key :
      (window : List Row) (row : Row) (n : ℤ)
      → cell Y.leading row ≡ int n
      → k ≡ n
      → matched (Y.leading ∷ []) window row ≡ any (has_key Y k) window
  matched_key window row n e same =
      rw same (
        any_congr _ _ (λ r. and_true (joins (cell Y.leading row) (cell Y.leading r)) ∙ rw e) window)

  abbrev Leaves : List Row → List Row → List Row → Image → Type 0
  Leaves rows events window old = after Y k old events ≡ (
      if any (has_key Y k) window
      then old
      else if any (has_key Y k) rows
      then page_image Y k rows
      else old)

  -- The step at a row that stays, from what the rest of the page leaves.
  kept_row :
      (row : Row) (rows events window : List Row) (old : Image) (n : ℤ)
      → cell Y.leading row ≡ int n
      → any (joins (cell Y.leading row)) (map (cell Y.leading) rows) ≡ false
      → matched (Y.leading ∷ []) window row ≡ false
      → ((events' : List Row) (old' : Image)
          → AreStamped Y (survivors (Y.leading ∷ []) window rows) events'
          → Leaves rows events' window old')
      → AreStamped Y (row ∷ survivors (Y.leading ∷ []) window rows) events
      → Leaves (row ∷ rows) events window old
  unfolding after image page_image
  kept_row row rows [] window old n e d kept rest st = absurd st
  kept_row row rows (event ∷ events) window old n e d kept rest (same_key, same_cells, upsert, st) =
      elim (Bool-cases (has_key Y k row)) [
        | inl hit ↦
            let here : joins (int k) (cell Y.leading event) ≡ true = rw same_key hit in
            let same = key-eq row n e hit in
            ground (
              arith,
              here,
              alone row rows n e same d,
              matched_key window row n e same,
              rest events (image Y event) st,
            )
        | inr miss ↦
            let elsewhere : joins (int k) (cell Y.leading event) ≡ false = rw same_key miss in
            ground (arith, elsewhere, rest events old st)
      ]

  -- What the rows of a page that no event of the window stands in for, made upserts, leave of a key.
  pub after-survivors :
      (rows events window : List Row) (old : Image) (low : Option ℤ)
      → IsPage Y.leading low rows
      → distinct (map (cell Y.leading) rows) ≡ true
      → AreStamped Y (survivors (Y.leading ∷ []) window rows) events
      → Leaves rows events window old
  unfolding after image page_image distinct
  after-survivors [] [] window old low p d st = ground arith
  after-survivors [] (event ∷ events) window old low p d st = absurd st
  after-survivors (row ∷ rows) events window old low (n, e, above, p) d st =
      elim (Bool-cases (matched (Y.leading ∷ []) window row)) [
        | inl dropped ↦
            let rest =
              after-survivors rows events window old (some n) p (ground arith) (rw dropped at st) in
            elim (Bool-cases (has_key Y k row)) [
              | inl hit ↦ ground (arith, rest, matched_key window row n e (key-eq row n e hit))
              | inr miss ↦ ground (arith, rest)
            ]
        | inr kept ↦
            kept_row row rows events window old n e (ground arith) kept
              (λ events' old' st'.
                after-survivors rows events' window old' (some n) p (ground arith) st')
              (rw kept at st)
      ]
