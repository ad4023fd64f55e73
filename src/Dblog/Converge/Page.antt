-- ===== src/Dblog/Converge/Page.antt =====
-- `_next_chunk` over a faithful source: which keys a page settles, and how it showed them.
use pydblog.Prelude.{
  ℕ, ◌≤◌, ◌≡◌, refl, ◌⊎◌, inl, inr, true, Option, none, some, List, [], ◌∷◌, map, any, length, ◌==◌,
  Bool-cases, arith,
}
use pydblog.Prelude.Int.{ℤ, pos, ◌+ℤ◌, ◌≤ℤ◌, ◌<ℤ◌, ltb_ℤ, ltb_ℤ-iff-lt, int_laws}
use pydblog.Exec.{ok, lift}
use pydblog.Exec.Ensures.{Ensures, Ensures-then, lift-eq-ok}
use pydblog.Builtins.{last}
use pydblog.State.{RunState}
use pydblog.Frame.{int, Row, cell, Frame, Polars, IsLawful, HasColumns, distinct, height, is_empty}
use pydblog.Connector.{SourceConnector, Host}
use pydblog.Source.{Layout, has_key, History, as_of, page_image}
use pydblog.Source.Contract.{
  Ghost, IsFaithful, IsKeyed, Covers, AtLeast, IsPage, rows_of, position_mono,
}
use pydblog.Dblog.Page.{key_after, next_chunk}
use pydblog.Dblog.Page.Key.{key_after-eq-ok}
use pydblog.Dblog.Converge.Rows.{page-AtLeast, page-at_most}

-- The keys that the walk of the table has passed.
abbrev pub Walked : RunState → ℤ → Type 0
Walked st k = (st.dump_done ≡ true) ⊎ ((c : ℤ) × (st.chunk_key ≡ some c) × (k <ℤ c))

-- A key was walked, or lies where the next page opens or above.
pub Walked-or_ahead : (st : RunState) (k : ℤ) → Walked st k ⊎ AtLeast st.chunk_key k
Walked-or_ahead st k = go st.chunk_key refl
  where
    go : (key : Option ℤ) → st.chunk_key ≡ key → Walked st k ⊎ AtLeast key k
    go none e = inr tt
    go (some c) e = elim (Bool-cases (ltb_ℤ k c)) [
      | inl below ↦ inl (inr (c, e, (ltb_ℤ-iff-lt k c).0 below))
      | inr above ↦ inr (ground arith)
    ]

below_next : (k n c : ℤ) → k ≤ℤ n → c ≡ n +ℤ pos 1 → k <ℤ c
below_next k n c le past = rw past (omega (int_laws, le))

up_to : (k n c c' : ℤ) → c ≡ n +ℤ pos 1 → c ≡ c' → k <ℤ c' → k ≤ℤ n
up_to k n c c' past same below =
    let h : k <ℤ n +ℤ pos 1 = rw (← past) (rw same below) in omega (int_laws, h)

pub nil_of_length : (rows : List Row) → (length rows == 0) ≡ true → rows ≡ []
nil_of_length [] h = refl
nil_of_length (row ∷ rows) h = absurd (ground arith)

module _ {S : Type 0} (Y : Layout) (h : History) (G : Ghost S) where
  pub record Paged (given : RunState) (s : S) (chunk : Option Frame) (kept : RunState) (u : S)
      : Type 0 where
    pub rest : kept ≡ record given { chunk_key = kept.chunk_key; dump_done = kept.dump_done }
    pub ordered : IsPage Y.leading given.chunk_key (rows_of chunk)
    pub once : distinct (map (cell Y.leading) (rows_of chunk)) ≡ true
    pub schema : (f : Frame) → chunk ≡ some f → f.schema ≡ G.row_fields given.spec
    -- a row of the page has a key that the page walks
    pub inside :
        (k : ℤ)
        → any (has_key Y k) (rows_of chunk) ≡ true
        → AtLeast given.chunk_key k × Walked kept k
    -- a key that the page walks was shown as it was during the read
    pub seen :
        (k : ℤ)
        → AtLeast given.chunk_key k
        → Walked kept k
        → (t : ℕ) × (G.position s ≤ t)
          × (t ≤ G.position u)
          × (page_image Y k (rows_of chunk) ≡ as_of Y h t k)
    pub later : G.position s ≤ G.position u

module _ {S : Type 0} (C : SourceConnector S) (H : Host S) (Y : Layout) (h : History) (G : Ghost S)
    (F : IsFaithful C H Y h G) (P : Polars) (L : IsLawful P) (given : RunState) (size : ℤ)
    (keyed : IsKeyed Y G given.spec) (positive : pos 1 ≤ℤ size) where
  abbrev Turns : S → Option Frame × RunState → S → Type 0
  Turns s r u = Paged Y h G given s r.0 r.1 u

  covered :
      (f : Frame) (k n c : ℤ)
      → last (map (cell Y.leading) f.rows) ≡ ok (int n)
      → c ≡ n +ℤ pos 1
      → Walked (record given { chunk_key = some c; dump_done = ltb_ℤ (pos (height f)) size }) k
      → Covers Y G f size k
  covered f k n c ends past (inl short) = inl ((ltb_ℤ-iff-lt (pos (height f)) size).0 short)
  covered f k n c ends past (inr (c', same, below)) =
      let key : c ≡ c' = cc in inr (n, ends, up_to k n c c' past key below)

  empty_page :
      (s u : S) (f : Frame)
      → C.read_table given.spec given.chunk_key none size s ≡ (ok f, u)
      → is_empty f ≡ true
      → Turns s (none, record given { dump_done = ltb_ℤ (pos (height f)) size }) u
  empty_page s u f e nothing =
      let (schema, ordered, shows) =
        F.table_rows given.spec given.chunk_key size s u f keyed positive e in
      let nil : f.rows ≡ [] = nil_of_length f.rows nothing in
      record {
        rest = refl;
        ordered = tt;
        once = unfold distinct in refl;
        schema = λ g h. cc;
        inside = λ k h. cc;
        seen = λ k ahead _. rw nil at (shows k ahead (inl (ground (arith, nothing))));
        later =
            position_mono G s u f (C.read_table given.spec given.chunk_key none size s) e
              (F.later_table given.spec given.chunk_key none size s);
      }

  full_page :
      (s u : S) (f : Frame) (c : ℤ)
      → C.read_table given.spec given.chunk_key none size s ≡ (ok f, u)
      → key_after P f given.spec ≡ ok c
      → Turns s
          (some f, record given { chunk_key = some c; dump_done = ltb_ℤ (pos (height f)) size })
          u
  full_page s u f c e next =
      let (schema, ordered, shows) =
        F.table_rows given.spec given.chunk_key size s u f keyed positive e in
      let has : HasColumns (Y.leading ∷ []) f = ((keyed.key_type, rw schema keyed.in_rows), tt) in
      let (n, ends, past, once) =
        key_after-eq-ok P L f given.spec Y.leading [] c keyed.keyed has next in
      record {
        rest = refl;
        ordered = ordered;
        once = once;
        schema = λ g same. let page : f ≡ g = cc in rw (← page) schema;
        inside = λ k there. (
          page-AtLeast Y k given.chunk_key f.rows ordered there,
          inr (
            c,
            refl,
            below_next k n c (page-at_most Y k given.chunk_key f.rows n ordered ends there) past,
          ),
        );
        seen = λ k ahead walked. shows k ahead (covered f k n c ends past walked);
        later =
            position_mono G s u f (C.read_table given.spec given.chunk_key none size s) e
              (F.later_table given.spec given.chunk_key none size s);
      }

  -- Over a source that meets the contract and frames that meet polars' laws, for a chunk size of at
  -- least one: where `_next_chunk` returns, it changes nothing of the state but the chunk key and the
  -- mark of the end; the page ascends by key from the old chunk key on with no key twice; each of its
  -- keys is walked by the new state; and each key from the old chunk key on that the new state has
  -- walked is in the page as the table had it at some moment of the call, or was not in the table.
  pub next_chunk-Paged : (s : S) → Ensures (Turns s) (next_chunk P C given size s)
  unfolding next_chunk
  next_chunk-Paged s =
      Ensures-then (Turns s) (C.read_table given.spec given.chunk_key none size) _ s λ f u e.
        elim (Bool-cases (is_empty f)) [
          | inl nothing ↦ rw nothing (empty_page s u f e nothing)
          | inr something ↦ rw something (
              Ensures-then (Turns s) (lift (key_after P f given.spec)) _ u λ c v made.
                let (next, same) = lift-eq-ok _ u v c made in
                rw (← same) (full_page s u f c e next))
        ]
