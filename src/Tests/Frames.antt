-- ===== src/Tests/Frames.antt =====
-- Frames as polars would handle them: the laws of `IsLawful` can be met.
use text.Mathlib.Text.{◌==◌ as str_eq}
use text.Mathlib.TextEquality.{eq_iff}
use pydblog.Prelude.{
  ℕ, suc, ◌≤◌, ◌≡◌, ◌↔◌, refl, String, Bool, true, not, none, some, List, [], ◌∷◌, ◌++◌, map,
  length, keep, any, All, arith, ◌==◌, if◌then◌else◌,
}
use pydblog.Exec.{ok}
use pydblog.Arrow.{Field, dtype_of}
use pydblog.Frame.{Value, null, Row, cell, cells, matched, alike, distinct, Polars, IsLawful}

-- The cells of some columns.
abbrev project : List String → Row → Row
project names row = map (λ n. (n, cell n row)) names

-- The fields of some columns.
abbrev pick : List String → List Field → List Field
pick [] fields = []
pick (n ∷ names) fields =
    let rest = pick names fields in
    elim (dtype_of n fields) [ none ↦ rest | some t ↦ record { name = n; dtype = t } ∷ rest ]

abbrev count_unique : List Value → ℕ
count_unique [] = 0
count_unique (v ∷ vs) = let rest = count_unique vs in if any (alike v) vs then rest else suc rest

abbrev pub polars : Polars
polars = record {
  select =
      λ names f. ok (record { schema = pick names f.schema; rows = map (project names) f.rows });
  unique = λ f. f;
  semi_join = λ keys l r.
      ok (record { schema = l.schema; rows = keep (λ row. matched keys r.rows row) l.rows });
  anti_join = λ keys l r.
      ok (record { schema = l.schema; rows = keep (λ row. not (matched keys r.rows row)) l.rows });
  concat = λ a b. ok (record { schema = a.schema; rows = a.rows ++ b.rows });
  column = λ name f. ok (map (cell name) f.rows);
  n_unique = count_unique;
}

-- Whether a name is one of the names.
abbrev named : List String → String → Bool
named names n = any (λ m. str_eq m n) names

cell-project :
    (names : List String) (row : Row) (n : String)
    → cell n (project names row) ≡ (if named names n then cell n row else null)
unfolding cell
cell-project [] row n = refl
cell-project (m ∷ names) row n = ground (arith, eq_iff m n, cell-project names row n)

dtype_of-pick :
    (names : List String) (fields : List Field) (n : String)
    → dtype_of n (pick names fields) ≡ (if named names n then dtype_of n fields else none)
unfolding dtype_of
dtype_of-pick [] fields n = refl
dtype_of-pick (m ∷ names) fields n = ground (arith, eq_iff m n, dtype_of-pick names fields n)

named_step :
    (m : String) (names some_names : List String)
    → All (λ n. named names n ≡ true) some_names
    → All (λ n. named (m ∷ names) n ≡ true) some_names
named_step m names [] h = tt
named_step m names (n ∷ rest) (here, there) = (ground arith, named_step m names rest there)

named-All : (names : List String) → All (λ n. named names n ≡ true) names
named-All [] = tt
named-All (n ∷ names) = (ground (arith, eq_iff n n), named_step n names names (named-All names))

cells-project :
    (names some_names : List String) (row : Row)
    → All (λ n. named names n ≡ true) some_names
    → cells some_names (project names row) ≡ cells some_names row
cells-project names [] row h = refl
cells-project names (n ∷ rest) row (here, there) =
    ground (arith, cell-project names row n, cells-project names rest row there)

cells-project_rows :
    (names : List String) (rows : List Row)
    → map (cells names) (map (project names) rows) ≡ map (cells names) rows
cells-project_rows names [] = refl
cells-project_rows names (row ∷ rows) =
    ground (arith, cells-project names names row (named-All names), cells-project_rows names rows)

types-pick :
    (names some_names : List String) (fields : List Field)
    → All (λ n. named names n ≡ true) some_names
    → All (λ n. dtype_of n (pick names fields) ≡ dtype_of n fields) some_names
types-pick names [] fields h = tt
types-pick names (n ∷ rest) fields (here, there) =
    (rw here at (dtype_of-pick names fields n), types-pick names rest fields there)

empty-keep : (p : Row → Bool) (rows : List Row) → (length (keep p rows) == 0) ≡ not (any p rows)
empty-keep p [] = refl
empty-keep p (row ∷ rows) = ground (arith, empty-keep p rows)

count_unique-le : (vs : List Value) → count_unique vs ≤ length vs
count_unique-le [] = omega arith
count_unique-le (v ∷ vs) = ground (arith, count_unique-le vs)

count_unique-distinct : (vs : List Value) → (count_unique vs ≡ length vs) ↔ (distinct vs ≡ true)
unfolding distinct
count_unique-distinct [] = (λ _. refl, λ _. refl)
count_unique-distinct (v ∷ vs) = ground (arith, count_unique-le vs, count_unique-distinct vs)

pub polars-IsLawful : IsLawful polars
polars-IsLawful = record {
  select-cells = λ names f _.
      (_, refl, cells-project_rows names f.rows, types-pick names names f.schema (named-All names));
  any-unique = λ p f. refl;
  schema-unique = λ f. refl;
  semi_join-is_empty = λ keys l r _. (_, refl, empty-keep (matched keys r.rows) l.rows);
  anti_join-rows = λ keys l r _. (_, refl, refl, refl);
  concat-rows = λ a b _. refl;
  column-cells = λ name f _. refl;
  n_unique-distinct = count_unique-distinct;
}
