-- ===== src/Mssql/Query/Statement.antt =====
-- A read of a table as one statement, and the query that `compose_read` makes of it.
use Prim.Native.String.{◌++◌ as ◌<>◌}
use pydblog.Prelude.{
  ◌≡◌, refl, String, Bool, true, false, Option, none, some, List, [], ◌∷◌, ◌++◌, map, ◌∙◌, arith,
  if◌then◌else◌,
}
use pydblog.Prelude.Int.{ℤ}
use pydblog.Builtins.{join}
use pydblog.Types.{ColumnSpec, is_computed}
use pydblog.Mssql.Identifier.Safe.{marks, marks-append}
use pydblog.Mssql.Query.{predicate, bound_to, when, compose_read}
use pydblog.Mssql.Query.Fill.{
  Piece, value, fill, letters, spaced, Filled, fill-append, fill-letters, fill-join,
}
use pydblog.Mssql.Query.Clauses.{placeholders, in_all, concat, Clause, placeholders-join}

-- A name between brackets, and a column as it is selected: NULL where it is computed.
abbrev pub bracketed : String → String
bracketed name = "[" <> (name <> "]")

abbrev pub selected : ColumnSpec → String
selected c = if is_computed c then "NULL AS " <> bracketed c.name else bracketed c.name

-- `leading operator v`
abbrev pub bounded : String → String → ℤ → List Piece
bounded leading operator v = letters leading ++ (letters operator ++ (value v ∷ []))

abbrev pub restriction : String → Option ℤ → Option ℤ → List (List Piece)
restriction leading none none = []
restriction leading (some low) none = (letters "WHERE " ++ bounded leading " >= " low) ∷ []
restriction leading none (some high) = (letters "WHERE " ++ bounded leading " < " high) ∷ []
restriction leading (some low) (some high) =
    (letters "WHERE "
      ++ (bounded leading " >= " low ++ (letters " AND " ++ bounded leading " < " high)))
    ∷ []

abbrev pub selection : Bool → List String → ℤ → List Piece
selection true columns limit =
    (letters "SELECT TOP (" ++ (value limit ∷ letters ") ")) ++ letters (join ", " columns)
selection false columns limit = letters "SELECT " ++ letters (join ", " columns)

abbrev pub fetched : Bool → ℤ → List (List Piece)
fetched true limit =
    (letters "OFFSET 0 ROWS FETCH NEXT " ++ (value limit ∷ letters " ROWS ONLY")) ∷ []
fetched false limit = []

-- The read of a table as one statement, its values written where they belong.
abbrev pub statement :
    Bool
    → Bool
    → String
    → String
    → List String
    → List String
    → String
    → Option ℤ
    → Option ℤ
    → ℤ
    → List Piece
statement top fetch schema table columns order_by leading low high limit = spaced (
    selection top columns limit
    ∷ letters ("FROM " <> (schema <> ("." <> table)))
    ∷ (restriction leading low high
        ++ (letters ("ORDER BY " <> join ", " order_by) ∷ fetched fetch limit)))

abbrev where_part : String → Option ℤ → Option ℤ → List Clause
where_part leading none none = []
where_part leading low high =
    (
      "WHERE " <> join " AND " (predicate leading " >= ?" low ++ predicate leading " < ?" high),
      bound_to low ++ bound_to high,
    )
    ∷ []

abbrev parts :
    Bool
    → Bool
    → String
    → String
    → List String
    → List String
    → String
    → Option ℤ
    → Option ℤ
    → ℤ
    → List Clause
parts top fetch schema table columns order_by leading low high limit =
    ((if top then "SELECT TOP (?) " else "SELECT ") <> join ", " columns, when top limit)
    ∷ ("FROM " <> (schema <> ("." <> table)), [])
    ∷ (where_part leading low high
        ++ (("ORDER BY " <> join ", " order_by, [])
            ∷ when fetch ("OFFSET 0 ROWS FETCH NEXT ? ROWS ONLY", limit ∷ [])))

module _ (top fetch : Bool) (schema table : String) (columns order_by : List String)
    (leading : String) (limit : ℤ) where
  parts-text :
      (low high : Option ℤ)
      → (compose_read top fetch schema table columns order_by leading low high limit).text
        ≡ join " "
            (map (λ c. c.0) (parts top fetch schema table columns order_by leading low high limit))
  unfolding compose_read
  parts-text none none = ground arith
  parts-text none (some high) = ground arith
  parts-text (some low) none = ground arith
  parts-text (some low) (some high) = ground arith

  parts-params :
      (low high : Option ℤ)
      → (compose_read top fetch schema table columns order_by leading low high limit).params
        ≡ concat
            (map (λ c. c.1) (parts top fetch schema table columns order_by leading low high limit))
  unfolding compose_read
  parts-params none none = ground arith
  parts-params none (some high) = ground arith
  parts-params (some low) none = ground arith
  parts-params (some low) (some high) = ground arith

fill-bounded :
    (leading comparison : String) (v : ℤ) (ps : List Piece)
    → placeholders leading ≡ 0
    → fill comparison (v ∷ []) ≡ some ps
    → fill (leading <> comparison) (v ∷ []) ≡ some (letters leading ++ ps)
fill-bounded leading comparison v ps h k =
    fill-append leading comparison [] (v ∷ []) (letters leading) ps (fill-letters leading h) k

fill-after :
    (a b : String) (vs : List ℤ) (ps : List Piece)
    → placeholders a ≡ 0
    → fill b vs ≡ some ps
    → fill (a <> b) vs ≡ some (letters a ++ ps)
fill-after a b vs ps h k = fill-append a b [] vs (letters a) ps (fill-letters a h) k

Filled-append :
    (cs ds : List Clause) (pss qss : List (List Piece))
    → Filled cs pss
    → Filled ds qss
    → Filled (cs ++ ds) (pss ++ qss)
unfolding Filled
Filled-append [] ds [] qss h k = k
Filled-append [] ds (ps ∷ pss) qss h k = absurd h
Filled-append (c ∷ cs) ds [] qss h k = absurd h
Filled-append (c ∷ cs) ds (ps ∷ pss) qss (here, h) k = (here, Filled-append cs ds pss qss h k)

where_part-Filled :
    (leading : String) (low high : Option ℤ)
    → placeholders leading ≡ 0
    → Filled (where_part leading low high) (restriction leading low high)
unfolding Filled fill letters marks join
where_part-Filled leading none none h = tt
where_part-Filled leading none (some high) h = (
  fill-after "WHERE " (leading <> " < ?") (high ∷ []) _ refl
      (fill-after leading " < ?" (high ∷ []) _ h refl),
  tt,
)
where_part-Filled leading (some low) none h = (
  fill-after "WHERE " (leading <> " >= ?") (low ∷ []) _ refl
      (fill-after leading " >= ?" (low ∷ []) _ h refl),
  tt,
)
where_part-Filled leading (some low) (some high) h = (
  fill-after "WHERE " ((leading <> " >= ?") <> (" AND " <> (leading <> " < ?"))) (low ∷ high ∷ []) _
      refl
      (fill-append (leading <> " >= ?") (" AND " <> (leading <> " < ?")) (low ∷ []) (high ∷ [])
        (bounded leading " >= " low) (letters " AND " ++ bounded leading " < " high)
        (fill-after leading " >= ?" (low ∷ []) _ h refl)
        (fill-after " AND " (leading <> " < ?") (high ∷ []) _ refl
          (fill-after leading " < ?" (high ∷ []) _ h refl))),
  tt,
)

select-fill :
    (top : Bool) (columns : List String) (limit : ℤ)
    → in_all columns ≡ 0
    → fill ((if top then "SELECT TOP (?) " else "SELECT ") <> join ", " columns) (when top limit)
      ≡ some (selection top columns limit)
unfolding fill letters marks
select-fill true columns limit h =
    fill-append "SELECT TOP (?) " (join ", " columns) (limit ∷ []) []
      (letters "SELECT TOP (" ++ (value limit ∷ letters ") ")) (letters (join ", " columns)) refl
      (fill-letters (join ", " columns) (placeholders-join ", " columns refl ∙ h))
select-fill false columns limit h =
    fill-after "SELECT " (join ", " columns) [] (letters (join ", " columns)) refl
      (fill-letters (join ", " columns) (placeholders-join ", " columns refl ∙ h))

cap-Filled :
    (fetch : Bool) (limit : ℤ)
    → Filled (when fetch ("OFFSET 0 ROWS FETCH NEXT ? ROWS ONLY", limit ∷ [])) (fetched fetch limit)
unfolding Filled fill letters
cap-Filled true limit = (refl, tt)
cap-Filled false limit = tt

pub compose_read-fill :
    (top fetch : Bool) (schema table : String) (columns order_by : List String) (leading : String)
    (low high : Option ℤ) (limit : ℤ)
    → placeholders schema ≡ 0
    → placeholders table ≡ 0
    → in_all columns ≡ 0
    → in_all order_by ≡ 0
    → placeholders leading ≡ 0
    → let q = compose_read top fetch schema table columns order_by leading low high limit in
      fill q.text q.params
      ≡ some (statement top fetch schema table columns order_by leading low high limit)
unfolding marks Filled
compose_read-fill top fetch schema table columns order_by leading low high limit s t cs os l =
    let source : String = "FROM " <> (schema <> ("." <> table)) in
    let order : String = "ORDER BY " <> join ", " order_by in
    let unmarked : placeholders source ≡ 0 = omega (
      arith,
      s,
      t,
      marks-append b'?' "FROM " (schema <> ("." <> table)),
      marks-append b'?' schema ("." <> table),
      marks-append b'?' "." table,
    ) in
    let unmarked_order : placeholders order ≡ 0 = omega (
      arith,
      os,
      marks-append b'?' "ORDER BY " (join ", " order_by),
      placeholders-join ", " order_by refl,
    ) in
    rw
      (
        parts-text top fetch schema table columns order_by leading limit low high,
        parts-params top fetch schema table columns order_by leading limit low high,
      )
      (fill-join (parts top fetch schema table columns order_by leading low high limit) _ (
        select-fill top columns limit cs,
        (
          fill-letters source unmarked,
          Filled-append (where_part leading low high) _ (restriction leading low high) _
              (where_part-Filled leading low high l)
              (fill-letters order unmarked_order, cap-Filled fetch limit),
        ),
      ))
