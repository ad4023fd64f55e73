-- ===== src/Dblog/Converge/Progress.antt =====
-- `_next_chunk` over a faithful source: how far a page takes the walk of the table.
use pydblog.Prelude.{
  ◌≡◌, refl, ◌⊎◌, inl, inr, true, false, String, none, some, List, [], ◌∷◌, map, length, arith,
  Bool-cases,
}
use pydblog.Prelude.Int.{ℤ, pos, ◌≤ℤ◌, ◌<ℤ◌, ◌+ℤ◌, ltb_ℤ, leb_ℤ, int_laws, eq_of_parts}
use pydblog.Builtins.{last}
use pydblog.Exec.{ok, err_ne_ok, lift}
use pydblog.Exec.Ensures.{Ensures, Ensures-then, lift-eq-ok}
use pydblog.State.{RunState}
use pydblog.Frame.{
  int, Row, cell, Frame, Polars, IsLawful, HasColumns, distinct, joins, height, is_empty,
}
use pydblog.Connector.{SourceConnector, Host}
use pydblog.Source.{Layout, History}
use pydblog.Source.Contract.{Ghost, IsFaithful, IsKeyed, IsPage}
use pydblog.Dblog.Page.{next_chunk, key_after}
use pydblog.Dblog.Page.Key.{key_after-eq-ok}
use pydblog.Dblog.Converge.Rows.{joins_int_refl}

above_other : (k m : ℤ) → k ≤ℤ m → joins (int k) (int m) ≡ false → k +ℤ pos 1 ≤ℤ m
above_other k m le other = elim (Bool-cases (leb_ℤ m k)) [
  | inl back ↦
      let same : k ≡ m = eq_of_parts k m (ground arith) in
      let twice : joins (int m) (int m) ≡ false = rw same at other in
      absurd (cc (twice, joins_int_refl m))
  | inr past ↦ let below : k <ℤ m = ground arith in omega (int_laws, below)
]

-- A page with no key twice spans at least as many keys as it has rows.
page-length :
    (leading : String) (rows : List Row) (low n : ℤ)
    → IsPage leading (some low) rows
    → distinct (map (cell leading) rows) ≡ true
    → last (map (cell leading) rows) ≡ ok (int n)
    → low +ℤ pos (length rows) ≤ℤ n +ℤ pos 1
unfolding distinct
page-length leading [] low n p d ends = absurd (err_ne_ok _ _ ends)
page-length leading (row ∷ []) low n (k, e, above, p) d ends =
    let same : ok (int k) ≡ ok (int n) = rw e at ends in
    let key : k ≡ n = cc in rw (← key) (omega (int_laws, above))
page-length leading (row ∷ next ∷ rows) low n (k, e, above, (m, e', le, p)) d ends =
    let other : joins (int k) (int m) ≡ false = ground (arith, e, e', d) in
    let rest =
      page-length leading (next ∷ rows) (k +ℤ pos 1) n (m, e', above_other k m le other, p)
        (ground (arith, d)) ends in
    omega (int_laws, rest, above)

module _ {S : Type 0} (C : SourceConnector S) (H : Host S) (Y : Layout) (h : History) (G : Ghost S)
    (F : IsFaithful C H Y h G) (P : Polars) (L : IsLawful P) (given : RunState) (size low : ℤ)
    (keyed : IsKeyed Y G given.spec) (positive : pos 1 ≤ℤ size)
    (opened : given.chunk_key ≡ some low) where
  abbrev Moved : RunState → Type 0
  Moved kept = (kept.dump_done ≡ true) ⊎ ((c : ℤ) × (kept.chunk_key ≡ some c) × (low +ℤ size ≤ℤ c))

  page-Moved :
      (s u : S) (f : Frame) (c : ℤ)
      → C.read_table given.spec given.chunk_key none size s ≡ (ok f, u)
      → key_after P f given.spec ≡ ok c
      → Moved (record given { chunk_key = some c; dump_done = ltb_ℤ (pos (height f)) size })
  page-Moved s u f c e next =
      let (schema, ordered, shows) =
        F.table_rows given.spec given.chunk_key size s u f keyed positive e in
      let has : HasColumns (Y.leading ∷ []) f = ((keyed.key_type, rw schema keyed.in_rows), tt) in
      let (n, ends, past, once) =
        key_after-eq-ok P L f given.spec Y.leading [] c keyed.keyed has next in
      elim (Bool-cases (ltb_ℤ (pos (height f)) size)) [
        | inl short ↦ inl short
        | inr full ↦
            let spans = page-length Y.leading f.rows low n (rw opened at ordered) once ends in
            let enough : size ≤ℤ pos (length f.rows) = ground arith in
            inr (c, refl, rw past (omega (int_laws, spans, enough)))
      ]

  -- Over a source that meets the contract and frames that meet polars' laws, for a chunk size of at
  -- least one and a state that has a chunk key: where `_next_chunk` returns, the dump is done or the
  -- chunk key has moved on by at least the chunk size.
  pub next_chunk-progress : (s : S) → Ensures (λ r _. Moved r.1) (next_chunk P C given size s)
  unfolding next_chunk
  next_chunk-progress s =
      Ensures-then (λ r _. Moved r.1) (C.read_table given.spec given.chunk_key none size) _ s
        λ f u e. elim (Bool-cases (is_empty f)) [
          | inl nothing ↦ rw nothing (inl (ground (arith, nothing)))
          | inr something ↦ rw something (
              Ensures-then (λ r _. Moved r.1) (lift (key_after P f given.spec)) _ u
                λ c v made. let (next, same) = lift-eq-ok _ u v c made in page-Moved s u f c e next)
        ]
