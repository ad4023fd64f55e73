-- ===== src/Frame.antt =====
-- What can be observed of a polars `DataFrame`, its schema and its rows, and the operations of polars
-- that the library calls. polars is not part of the repository: its operations are a parameter, and
-- `IsLawful` says what its documentation promises of them.
pub mod Rows
use pydblog.Prelude.{
  ℕ, String, ◌≡◌, ◌≢◌, ◌↔◌, Bool, true, false, not, ◌&&◌, Option, none, some, List, [], ◌∷◌, ◌++◌,
  map, ◌==◌, length, keep, any, all, All, if◌then◌else◌,
}
use pydblog.Prelude.Int.{ℤ, pos, negsuc}
use pydblog.Exec.{Result, ok}
use pydblog.Arrow.{ArrowType, Field, dtype_of}
use text.Mathlib.Text.{◌==◌ as str_eq}

-- A cell, as Python sees it. `other` is any further type, by its name and its printed value.
pub data Value : Type 0 where
  null : Value
  bool : Bool → Value
  int : ℤ → Value
  str : String → Value
  binary : List ℕ → Value
  moment : ℕ → Value
  other : String → String → Value

abbrev eq_bool : Bool → Bool → Bool
eq_bool true b = b
eq_bool false b = not b

abbrev eq_int : ℤ → ℤ → Bool
eq_int (pos a) (pos b) = a == b
eq_int (negsuc a) (negsuc b) = a == b
eq_int _ _ = false

abbrev pub eq_bytes : List ℕ → List ℕ → Bool
eq_bytes [] [] = true
eq_bytes (x ∷ xs) (y ∷ ys) = x == y && eq_bytes xs ys
eq_bytes _ _ = false

-- Equality of cells in a join: a null equals nothing, not even a null.
unfoldable pub joins : Value → Value → Bool
joins (bool a) (bool b) = eq_bool a b
joins (int a) (int b) = eq_int a b
joins (str a) (str b) = str_eq a b
joins (binary a) (binary b) = eq_bytes a b
joins (moment a) (moment b) = a == b
joins (other t a) (other u b) = str_eq t u && str_eq a b
joins _ _ = false

-- A row by its column names, as `DataFrame.row(i, named=True)` shows it.
abbrev pub Row : Type 0
Row = List (String × Value)

unfoldable pub cell : String → Row → Value
cell name [] = null
cell name ((n, v) ∷ row) = if str_eq n name then v else cell name row

abbrev pub cells : List String → Row → List Value
cells names row = map (λ n. cell n row) names

-- Whether two rows agree on every one of the columns.
abbrev pub matches : List String → Row → Row → Bool
matches keys l r = all (λ k. joins (cell k l) (cell k r)) keys

pub record Frame : Type 0 where
  pub schema : List Field
  pub rows : List Row

abbrev pub height : Frame → ℕ
height f = length f.rows

abbrev pub is_empty : Frame → Bool
is_empty f = height f == 0

-- Whether some row of the list agrees with `row` on the columns.
abbrev pub matched : List String → List Row → Row → Bool
matched keys others row = any (λ r. matches keys row r) others

abbrev pub HasColumns : List String → Frame → Type 0
HasColumns names f = All (λ n. (t : ArrowType) × (dtype_of n f.schema ≡ some t)) names

abbrev pub distinct_names : List String → Bool
distinct_names [] = true
distinct_names (n ∷ names) = not (any (str_eq n) names) && distinct_names names

-- The frame has the columns, and none is asked for twice.
pub record Selectable (names : List String) (f : Frame) : Type 0 where
  pub once : distinct_names names ≡ true
  pub present : HasColumns names f

-- Two frames can be joined on the columns: there is at least one, and both frames have each of
-- them at the same type.
pub record Joinable (keys : List String) (l r : Frame) : Type 0 where
  pub some_key : keys ≢ []
  pub once : distinct_names keys ≡ true
  pub typed :
      All
        (λ k. (t : ArrowType) × (dtype_of k l.schema ≡ some t) × (dtype_of k r.schema ≡ some t))
        keys

-- Equality of values where they are counted: there a null is like a null.
abbrev pub alike : Value → Value → Bool
alike null null = true
alike v w = joins v w

-- No two of the values are alike.
unfoldable pub distinct : List Value → Bool
distinct [] = true
distinct (v ∷ vs) = not (any (alike v) vs) && distinct vs

pub record Polars : Type 0 where
  -- `frame.select(names)`
  pub select : List String → Frame → Result Frame
  -- `frame.unique()`
  pub unique : Frame → Frame
  -- `left.join(right, on=keys, how="semi")`
  pub semi_join : List String → Frame → Frame → Result Frame
  -- `left.join(right, on=keys, how="anti", maintain_order="left")`
  pub anti_join : List String → Frame → Frame → Result Frame
  -- `concat([a, b])`
  pub concat : Frame → Frame → Result Frame
  -- `frame[name]`
  pub column : String → Frame → Result (List Value)
  -- `series.n_unique()`
  pub n_unique : List Value → ℕ

pub record IsLawful (P : Polars) : Type 0 where
  -- A projection keeps the cells of its columns, row by row, and their types.
  pub select-cells :
      (names : List String) (f : Frame)
      → Selectable names f
      → (g : Frame) × (P.select names f ≡ ok g)
        × (map (cells names) g.rows ≡ map (cells names) f.rows)
        × All (λ n. dtype_of n g.schema ≡ dtype_of n f.schema) names
  -- Dropping duplicates keeps the set of rows, in no stated order.
  pub any-unique : (p : Row → Bool) (f : Frame) → any p (P.unique f).rows ≡ any p f.rows
  pub schema-unique : (f : Frame) → (P.unique f).schema ≡ f.schema
  -- A semi join keeps a row of the left frame for each one that has a match on the right.
  pub semi_join-is_empty :
      (keys : List String) (l r : Frame)
      → Joinable keys l r
      → (g : Frame) × (P.semi_join keys l r ≡ ok g)
        × (is_empty g ≡ not (any (matched keys r.rows) l.rows))
  -- An anti join keeps the others, here in the order of the left frame.
  pub anti_join-rows :
      (keys : List String) (l r : Frame)
      → Joinable keys l r
      → (g : Frame) × (P.anti_join keys l r ≡ ok g)
        × (g.schema ≡ l.schema)
        × (g.rows ≡ keep (λ row. not (matched keys r.rows row)) l.rows)
  -- Frames of one schema stack.
  pub concat-rows :
      (a b : Frame)
      → a.schema ≡ b.schema
      → P.concat a b ≡ ok (record { schema = a.schema; rows = a.rows ++ b.rows })
  pub column-cells :
      (name : String) (f : Frame)
      → HasColumns (name ∷ []) f
      → P.column name f ≡ ok (map (cell name) f.rows)
  pub n_unique-distinct : (vs : List Value) → (P.n_unique vs ≡ length vs) ↔ (distinct vs ≡ true)
