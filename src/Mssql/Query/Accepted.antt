-- ===== src/Mssql/Query/Accepted.antt =====
-- Which reads of a table the connector builds a query for.
use Prim.Native.String.{◌++◌ as ◌<>◌}
use pydblog.Prelude.{
  String, ◌≡◌, ◌≢◌, ◌↔◌, refl, true, Option, none, some, List, [], ◌∷◌, All, All-map, arith,
  if◌then◌else◌,
}
use pydblog.Prelude.Int.{ℤ, pos, ◌<ℤ◌, ◌≤ℤ◌}
use pydblog.Builtins.{first}
use pydblog.Exec.{Result, ok, err_ne_ok, and_then-eq-ok, collect}
use pydblog.Types.{ColumnSpec, TableSpec, is_computed, business_columns, qualified_name}
use pydblog.Mssql.Identifier.{is_identifier, validate_identifier, quote_identifier}
use pydblog.Mssql.Identifier.Safe.{quote_identifier-eq-ok}
use pydblog.Mssql.Query.{
  Query, check_read, capped, compose_read, validate_read_spec, check_limit, check_bounds, project,
  build_read_table_query,
}

abbrev pub AreOrdered : Option ℤ → Option ℤ → Type 0
AreOrdered (some low) (some high) = low <ℤ high
AreOrdered low high = Unit

-- A table that can be read, and a cap and bounds that make sense.
pub record IsReadable (spec : TableSpec) (low high : Option ℤ) (limit : ℤ) : Type 0 where
  pub keyed : spec.pk_columns ≢ []
  pub filled : business_columns spec ≢ []
  pub schema_safe : is_identifier spec.source_schema ≡ true
  pub table_safe : is_identifier spec.source_table ≡ true
  pub columns_safe : All (λ c. is_identifier c.name ≡ true) spec.captured_columns
  pub keys_safe : All (λ k. is_identifier k ≡ true) spec.pk_columns
  pub capped : pos 0 ≤ℤ limit
  pub ordered : AreOrdered low high

quote_identifier-ok :
    (name kind : String)
    → is_identifier name ≡ true
    → (q : String) × (quote_identifier name kind ≡ ok q)
unfolding quote_identifier validate_identifier
quote_identifier-ok name kind safe = ("[" <> (name <> "]"), rw safe refl)

project-ok : (c : ColumnSpec) → is_identifier c.name ≡ true → (q : String) × (project c ≡ ok q)
unfolding project
project-ok c safe =
    let (q, made) = quote_identifier-ok c.name "business column" safe in
    (if is_computed c then "NULL AS " <> q else q, rw made refl)

-- A comprehension whose items all return.
collect-ok :
    {A B : Type 0} (f : A → Result B) (xs : List A)
    → All (λ x. (y : B) × (f x ≡ ok y)) xs
    → (ys : List B) × (collect f xs ≡ ok ys)
collect-ok f [] h = ([], refl)
collect-ok f (x ∷ xs) ((y, here), rest) =
    let (ys, there) = collect-ok f xs rest in (y ∷ ys, rw (here, there) refl)

first-ok :
    {A B : Type 0} (f : A → Result B) (xs : List A) (ys : List B)
    → xs ≢ []
    → collect f xs ≡ ok ys
    → (y : B) × (first ys ≡ ok y)
first-ok f [] ys h e = absurd (h refl)
first-ok f (x ∷ xs) ys h e =
    let (y, here, rest) = and_then-eq-ok (f x) _ ys e in
    let (more, there, built) = and_then-eq-ok (collect f xs) _ ys rest in
    let same : y ∷ more ≡ ys = cc in rw (← same) (y, refl)

check_limit-ok : (limit : ℤ) → (check_limit limit ≡ ok tt) ↔ (pos 0 ≤ℤ limit)
unfolding check_limit
check_limit-ok limit = ground arith

check_bounds-ok : (low high : Option ℤ) → (check_bounds low high ≡ ok tt) ↔ AreOrdered low high
unfolding check_bounds
check_bounds-ok none high = (λ _. tt, λ _. refl)
check_bounds-ok (some low) none = (λ _. tt, λ _. refl)
check_bounds-ok (some low) (some high) = ground arith

check_read-ok :
    (name : String) (keys columns : List String)
    → (check_read name keys columns ≡ ok tt) ↔ ((keys ≢ []) × (columns ≢ []))
unfolding check_read
check_read-ok name [] columns = (λ e. absurd (err_ne_ok _ _ e), λ h. absurd (h.0 refl))
check_read-ok name (k ∷ keys) [] = (λ e. absurd (err_ne_ok _ _ e), λ h. absurd (h.1 refl))
check_read-ok name (k ∷ keys) (c ∷ columns) = (λ _. (λ e. cc, λ e. cc), λ _. refl)

module _ (pagination : String) (spec : TableSpec) (low high : Option ℤ) (limit : ℤ) where
  accepted :
      IsReadable spec low high limit
      → (q : Query) × (build_read_table_query pagination spec low high limit ≡ ok q)
  unfolding build_read_table_query validate_read_spec
  accepted R =
      let read =
        (check_read-ok (qualified_name spec) spec.pk_columns (business_columns spec)).1
          (R.keyed, R.filled) in
      let (schema, named_s) = quote_identifier-ok spec.source_schema "schema" R.schema_safe in
      let (table, named_t) = quote_identifier-ok spec.source_table "table" R.table_safe in
      let (columns, named_c) =
        collect-ok project spec.captured_columns
          (All-map _ _ (λ c safe. project-ok c safe) spec.captured_columns R.columns_safe) in
      let (order_by, named_k) =
        collect-ok (λ c. quote_identifier c "primary key column") spec.pk_columns
          (All-map _ _ (λ k safe. quote_identifier-ok k "primary key column" safe) spec.pk_columns
            R.keys_safe) in
      let (leading, named_l) = first-ok _ spec.pk_columns order_by R.keyed named_k in
      (
        compose_read (capped pagination limit "top") (capped pagination limit "fetch") schema table
            columns order_by leading low high limit,
        rw
            (
              read,
              (check_limit-ok limit).1 R.capped,
              (check_bounds-ok low high).1 R.ordered,
              named_s,
              named_t,
              named_c,
              named_k,
              named_l,
            )
            refl,
      )

  collect-safe :
      {A : Type 0} (f : A → Result String) (name : A → String)
      → ((x : A) (q : String) → f x ≡ ok q → is_identifier (name x) ≡ true)
      → (xs : List A) (ys : List String) → collect f xs ≡ ok ys
      → All (λ x. is_identifier (name x) ≡ true) xs
  collect-safe f name h [] ys e = tt
  collect-safe f name h (x ∷ xs) ys e =
      let (y, here, rest) = and_then-eq-ok (f x) _ ys e in
      let (more, there, built) = and_then-eq-ok (collect f xs) _ ys rest in
      (h x y here, collect-safe f name h xs more there)

  project-safe : (c : ColumnSpec) (q : String) → project c ≡ ok q → is_identifier c.name ≡ true
  unfolding project
  project-safe c q e =
      let (quoted, named, built) =
        and_then-eq-ok (quote_identifier c.name "business column") _ q e in
      (quote_identifier-eq-ok c.name "business column" quoted named).0

  readable :
      (q : Query)
      → build_read_table_query pagination spec low high limit ≡ ok q
      → IsReadable spec low high limit
  unfolding build_read_table_query validate_read_spec
  readable q e =
      let (_, read, e₁) = and_then-eq-ok (validate_read_spec spec) _ q e in
      let (_, capped, e₂) = and_then-eq-ok (check_limit limit) _ q e₁ in
      let (_, ordered, e₃) = and_then-eq-ok (check_bounds low high) _ q e₂ in
      let (schema, named_s, e₄) =
        and_then-eq-ok (quote_identifier spec.source_schema "schema") _ q e₃ in
      let (table, named_t, e₅) =
        and_then-eq-ok (quote_identifier spec.source_table "table") _ q e₄ in
      let (columns, named_c, e₆) = and_then-eq-ok (collect project spec.captured_columns) _ q e₅ in
      let (order_by, named_k, e₇) =
        and_then-eq-ok (collect (λ c. quote_identifier c "primary key column") spec.pk_columns) _ q
          e₆ in
      let (keyed, filled) =
        (check_read-ok (qualified_name spec) spec.pk_columns (business_columns spec)).0 read in
      record {
        keyed = keyed;
        filled = filled;
        schema_safe = (quote_identifier-eq-ok spec.source_schema "schema" schema named_s).0;
        table_safe = (quote_identifier-eq-ok spec.source_table "table" table named_t).0;
        columns_safe =
            collect-safe project (λ c. c.name) project-safe spec.captured_columns columns named_c;
        keys_safe =
            collect-safe (λ k. quote_identifier k "primary key column") (λ k. k)
              (λ k q named. (quote_identifier-eq-ok k "primary key column" q named).0)
              spec.pk_columns order_by named_k;
        capped = (check_limit-ok limit).0 capped;
        ordered = (check_bounds-ok low high).0 ordered;
      }

-- The connector builds a query for a table exactly where the table has a key and columns, all names
-- that go into the query are safe, the cap is not negative, and the bounds, where both are given, leave
-- a range; otherwise it raises.
pub build_read_table_query-iff-IsReadable :
    (pagination : String) (spec : TableSpec) (low high : Option ℤ) (limit : ℤ)
    → IsReadable spec low high limit
      ↔ ((q : Query) × (build_read_table_query pagination spec low high limit ≡ ok q))
build_read_table_query-iff-IsReadable pagination spec low high limit =
    (accepted pagination spec low high limit, λ (q, e). readable pagination spec low high limit q e)
