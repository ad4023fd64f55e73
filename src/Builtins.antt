-- ===== src/Builtins.antt =====
-- Python's indexing of a list at its two ends, which raises on an empty one, and `str.join`.
use Prim.Native.String.{String, ◌++◌ as ◌<>◌}
use pydblog.Prelude.{List, [], ◌∷◌}
use pydblog.Exec.{Result, ok, err, index_out_of_range}

module _ {A : Type 0} where
  -- `items[0]`
  abbrev pub first : List A → Result A
  first [] = err index_out_of_range
  first (x ∷ xs) = ok x

  -- `items[-1]`
  abbrev pub last : List A → Result A
  last [] = err index_out_of_range
  last (x ∷ []) = ok x
  last (x ∷ y ∷ ys) = last (y ∷ ys)

-- `separator.join(names)`
unfoldable pub join : String → List String → String
join separator [] = ""
join separator (n ∷ []) = n
join separator (n ∷ m ∷ ms) = n <> (separator <> join separator (m ∷ ms))
