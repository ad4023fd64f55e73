-- ===== src/Mssql/Query/Binds.antt =====
-- The query of a read of a table, with the bound values in their places.
use Prim.Native.String.{◌++◌ as ◌<>◌}
use text.Mathlib.Text.{◌==◌ as str_eq}
use pydblog.Prelude.{
  ◌≡◌, refl, String, Bool, Option, some, List, [], ◌∷◌, map, ◌&&◌, ◌∙◌, sym, ap, if◌then◌else◌,
}
use pydblog.Prelude.Int.{ℤ, pos, ltb_ℤ}
use pydblog.Builtins.{first}
use pydblog.Exec.{Result, ok, err_ne_ok, and_then-eq-ok, collect}
use pydblog.Types.{ColumnSpec, TableSpec, is_computed}
use pydblog.Mssql.Identifier.{quote_identifier}
use pydblog.Mssql.Identifier.Safe.{quote_identifier-eq-ok}
use pydblog.Mssql.Query.{
  Query, validate_read_spec, check_limit, check_bounds, project, capped, compose_read,
  build_read_table_query,
}
use pydblog.Mssql.Query.Fill.{fill}
use pydblog.Mssql.Query.Clauses.{
  placeholders, in_all-All, collect-All, placeholders-quote_identifier, placeholders-project,
  first-All,
}
use pydblog.Mssql.Query.Statement.{bracketed, selected, statement, compose_read-fill}

collect-map :
    {A B : Type 0} (f : A → Result B) (g : A → B)
    → ((x : A) (y : B) → f x ≡ ok y → y ≡ g x)
    → (xs : List A) (ys : List B) → collect f xs ≡ ok ys
    → ys ≡ map g xs
collect-map f g h [] ys e = let same : [] ≡ ys = cc in sym same
collect-map f g h (x ∷ xs) ys e =
    let (y, here, rest) = and_then-eq-ok (f x) _ ys e in
    let (more, there, built) = and_then-eq-ok (collect f xs) _ ys rest in
    let same : y ∷ more ≡ ys = cc in rw (← same, h x y here, collect-map f g h xs more there) refl

project-selected : (c : ColumnSpec) (text : String) → project c ≡ ok text → text ≡ selected c
unfolding project
project-selected c text e =
    let (quoted, named, built) =
      and_then-eq-ok (quote_identifier c.name "business column") _ text e in
    let whole : (if is_computed c then "NULL AS " <> quoted else quoted) ≡ text = cc in
    rw (← whole, (quote_identifier-eq-ok c.name "business column" quoted named).1) refl

first-map :
    (keys : List String) (leading : String)
    → first (map bracketed keys) ≡ ok leading
    → (key : String) × (first keys ≡ ok key) × (leading ≡ bracketed key)
first-map [] leading e = absurd (err_ne_ok _ _ e)
first-map (k ∷ keys) leading e = let same : bracketed k ≡ leading = cc in (k, refl, sym same)

statement_congr :
    (top fetch : Bool) (s s' t t' : String) (cs cs' os os' : List String) (l l' : String)
    (low high : Option ℤ) (limit : ℤ)
    → s ≡ s'
    → t ≡ t'
    → cs ≡ cs'
    → os ≡ os'
    → l ≡ l'
    → statement top fetch s t cs os l low high limit
      ≡ statement top fetch s' t' cs' os' l' low high limit
statement_congr top fetch s s' t t' cs cs' os os' l l' low high limit e₁ e₂ e₃ e₄ e₅ =
    rw (e₁, e₂, e₃, e₄, e₅) refl

-- A table query that is built, once its values are put in the places of its placeholders, the first in
-- the first place and so on with none left over, is the statement that the arguments ask for: the
-- captured columns, a computed one as NULL, from the table, of the rows whose leading key is not below
-- `low` and below `high`, where these are given, in the order of the key, and no more than a positive
-- `limit` of them, said by TOP or by FETCH as the pagination has it.
pub build_read_table_query-fill :
    (pagination : String) (spec : TableSpec) (low high : Option ℤ) (limit : ℤ) (q : Query)
    → build_read_table_query pagination spec low high limit ≡ ok q
    → (key : String) × (first spec.pk_columns ≡ ok key)
      × (fill q.text q.params
          ≡ some (
              statement
                (ltb_ℤ (pos 0) limit && str_eq pagination "top")
                (ltb_ℤ (pos 0) limit && str_eq pagination "fetch")
                (bracketed spec.source_schema)
                (bracketed spec.source_table)
                (map selected spec.captured_columns)
                (map bracketed spec.pk_columns)
                (bracketed key)
                low
                high
                limit))
unfolding build_read_table_query
build_read_table_query-fill pagination spec low high limit q e =
    let (_, _, e₁) = and_then-eq-ok (validate_read_spec spec) _ q e in
    let (_, _, e₂) = and_then-eq-ok (check_limit limit) _ q e₁ in
    let (_, _, e₃) = and_then-eq-ok (check_bounds low high) _ q e₂ in
    let (schema, named_s, e₄) =
      and_then-eq-ok (quote_identifier spec.source_schema "schema") _ q e₃ in
    let (table, named_t, e₅) = and_then-eq-ok (quote_identifier spec.source_table "table") _ q e₄ in
    let (columns, named_c, e₆) = and_then-eq-ok (collect project spec.captured_columns) _ q e₅ in
    let (order_by, named_o, e₇) =
      and_then-eq-ok (collect (λ c. quote_identifier c "primary key column") spec.pk_columns) _ q
        e₆ in
    let (leading, here, built) = and_then-eq-ok (first order_by) _ q e₇ in
    let keys =
      collect-All (λ s. placeholders s ≡ 0) (λ c. quote_identifier c "primary key column")
        (λ c s. placeholders-quote_identifier c "primary key column" s) spec.pk_columns order_by
        named_o in
    let cols =
      collect-All (λ s. placeholders s ≡ 0) project placeholders-project spec.captured_columns
        columns named_c in
    let top = capped pagination limit "top" in
    let fetch = capped pagination limit "fetch" in
    let whole : compose_read top fetch schema table columns order_by leading low high limit ≡ q =
      cc in
    let ordered =
      collect-map (λ c. quote_identifier c "primary key column") bracketed
        (λ c s e'. (quote_identifier-eq-ok c "primary key column" s e').1) spec.pk_columns order_by
        named_o in
    let (key, leads, quoted) = first-map spec.pk_columns leading (rw ordered at here) in
    let read =
      compose_read-fill top fetch schema table columns order_by leading low high limit
        (placeholders-quote_identifier spec.source_schema "schema" schema named_s)
        (placeholders-quote_identifier spec.source_table "table" table named_t)
        (in_all-All columns cols) (in_all-All order_by keys)
        (first-All order_by leading keys here) in
    (
      key,
      leads,
      ap (λ p. fill p.text p.params) (sym whole)
          ∙ (read
              ∙ ap some (
                  statement_congr top fetch schema (bracketed spec.source_schema) table
                    (bracketed spec.source_table) columns (map selected spec.captured_columns)
                    order_by (map bracketed spec.pk_columns) leading (bracketed key) low high limit
                    (quote_identifier-eq-ok spec.source_schema "schema" schema named_s).1
                    (quote_identifier-eq-ok spec.source_table "table" table named_t).1
                    (collect-map project selected project-selected spec.captured_columns columns
                      named_c)
                    ordered quoted)),
    )
