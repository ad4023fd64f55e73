-- ===== src/Types/Equality.antt =====
-- `ColumnSpec.__eq__` and equality of lists of columns.
use text.Mathlib.TextEquality.{eq_iff}
use text.Mathlib.TextPositions.{eq_refl}
use pydblog.Prelude.{ℕ, ◌≡◌, refl, true, ◌==◌, ==_iff, List, [], ◌∷◌, map, arith}
use pydblog.Types.{ColumnSpec, signature, eq_column, eq_list}

==_refl : (n : ℕ) → (n == n) ≡ true
==_refl n = (==_iff n n).1 refl

pub eq_column_refl : (c : ColumnSpec) → eq_column c c ≡ true
unfolding eq_column
eq_column_refl c = simp (eq_refl, ==_refl)

pub eq_columns_refl : (cs : List ColumnSpec) → eq_list eq_column cs cs ≡ true
eq_columns_refl [] = refl
eq_columns_refl (c ∷ cs) = rw eq_column_refl (eq_columns_refl cs)

-- Equal columns have one name and one signature, so they read back as the same thing.
pub eq_column-same :
    (a b : ColumnSpec) → eq_column a b ≡ true → (a.name ≡ b.name) × (signature a ≡ signature b)
unfolding eq_column
eq_column-same a b h = ground (
  arith,
  eq_iff a.name b.name,
  eq_iff (signature a).type_name (signature b).type_name,
  ==_iff a.precision b.precision,
  ==_iff a.scale b.scale,
)

pub eq_columns-names :
    (xs ys : List ColumnSpec)
    → eq_list eq_column xs ys ≡ true
    → map (λ c. c.name) xs ≡ map (λ c. c.name) ys
eq_columns-names [] [] h = refl
eq_columns-names [] (b ∷ ys) h = cc
eq_columns-names (a ∷ xs) [] h = cc
eq_columns-names (a ∷ xs) (b ∷ ys) h = ground (arith, eq_column-same a b, eq_columns-names xs ys)
