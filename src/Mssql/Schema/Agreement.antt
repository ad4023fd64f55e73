-- ===== src/Mssql/Schema/Agreement.antt =====
-- `validate` and the schemas of the two reads of a table, and the schemas of two specs.
use text.Mathlib.Text.{◌==◌ as str_eq}
use text.Mathlib.TextEquality.{eq_iff}
use pydblog.Prelude.{
  String, ◌≡◌, refl, sym, ap, ◌∙◌, true, false, Option, none, some, List, [], ◌∷◌, ◌++◌, map, keep,
  All, All-map, arith, Bool-cases, inl, inr,
}
use pydblog.Exec.{Result, ok, err_ne_ok, and_then-eq-ok}
use pydblog.Types.{ColumnSpec, TableSpec, is_computed, lower, business_columns, eq_list, eq_column}
use pydblog.Types.Equality.{eq_column-same}
use pydblog.Arrow.{ArrowType, Field, dtype_of, eq_type, eq_type_sound}
use pydblog.Mssql.Schema.{
  metadata_fields, metadata_columns, contains, type_by_name, or_raise, arrow_type, each, last_named,
  check_origin, check_captured, check_key, check_name, validate, fields, row_schema, event_schema,
}

each-All :
    {A : Type 0} (body : A → Result (Unit {0})) (xs : List A)
    → each body xs ≡ ok tt
    → All (λ x. body x ≡ ok tt) xs
each-All body [] e = tt
each-All body (x ∷ xs) e =
    let (_, here, there) = and_then-eq-ok (body x) (λ _. each body xs) tt e in
    (here, each-All body xs there)

-- What the loops of `validate` have seen of a captured column, a key and a name.
abbrev pub HasOrigin : TableSpec → ColumnSpec → Type 0
HasOrigin spec c =
    (origin : ColumnSpec) × (last_named spec.columns c.name ≡ some origin)
    × (t : ArrowType) × (arrow_type origin ≡ ok t)
    × (arrow_type c ≡ ok t)

abbrev pub IsStored : TableSpec → String → Type 0
IsStored spec key =
    (contains (business_columns spec) key ≡ true)
    × (contains (map (λ c. c.name) (keep is_computed spec.captured_columns)) key ≡ false)

check_captured-HasOrigin :
    (spec : TableSpec) (c : ColumnSpec) → check_captured spec c ≡ ok tt → HasOrigin spec c
unfolding check_captured check_origin
check_captured-HasOrigin spec c e = go (last_named spec.columns c.name) refl e
  where
    go :
        (o : Option ColumnSpec)
        → last_named spec.columns c.name ≡ o
        → check_origin spec c o ≡ ok tt
        → HasOrigin spec c
    go none same e = absurd (err_ne_ok _ _ e)
    go (some origin) same e =
        let (now, typed, rest) = and_then-eq-ok (arrow_type origin) _ tt e in
        let (recorded, kept, test) = and_then-eq-ok (arrow_type c) _ tt rest in
        elim (Bool-cases (eq_type now recorded)) [
          | inl alike ↦ (origin, same, now, typed, rw (eq_type_sound now recorded alike) kept)
          | inr drifted ↦ absurd (err_ne_ok _ _ (rw drifted at test))
        ]

check_key-IsStored :
    (spec : TableSpec) (key : String) → check_key spec key ≡ ok tt → IsStored spec key
unfolding check_key
check_key-IsStored spec key e = elim (Bool-cases (contains (business_columns spec) key)) [
  | inr missing ↦ absurd (err_ne_ok _ _ (rw missing at e))
  | inl there ↦
      elim (Bool-cases
        (contains (map (λ c. c.name) (keep is_computed spec.captured_columns)) key)) [
          | inl computed ↦ absurd (err_ne_ok _ _ (rw (there, computed) at e))
          | inr stored ↦ (there, stored)
        ]
]

check_name-free :
    (spec : TableSpec) (n : String)
    → check_name spec n ≡ ok tt
    → contains metadata_columns n ≡ false
unfolding check_name
check_name-free spec n e = elim (Bool-cases (contains metadata_columns n)) [
  | inl taken ↦ absurd (err_ne_ok _ _ (rw taken at e))
  | inr free ↦ free
]

-- Where `validate` returns: every captured column has a column of its name in the source that reads
-- as the same Arrow type, every primary key column is captured and not computed, and no captured
-- column has the name of one of the log's own.
pub validate-eq-ok :
    (spec : TableSpec)
    → validate spec ≡ ok tt
    → All (HasOrigin spec) spec.captured_columns
      × All (IsStored spec) spec.pk_columns
      × All (λ n. contains metadata_columns n ≡ false) (business_columns spec)
unfolding validate
validate-eq-ok spec e =
    let (_, captured, after_captured) =
      and_then-eq-ok (each (check_captured spec) spec.captured_columns) _ tt e in
    let (_, keys, after_keys) =
      and_then-eq-ok (each (check_key spec) spec.pk_columns) _ tt after_captured in
    let (_, names, _) =
      and_then-eq-ok (each (check_name spec) (business_columns spec)) _ tt after_keys in
    (
      All-map _ _ (check_captured-HasOrigin spec) spec.captured_columns
          (each-All (check_captured spec) spec.captured_columns captured),
      All-map _ _ (check_key-IsStored spec) spec.pk_columns
          (each-All (check_key spec) spec.pk_columns keys),
      All-map _ _ (check_name-free spec) (business_columns spec)
          (each-All (check_name spec) (business_columns spec) names),
    )

fields_total :
    (cs : List ColumnSpec)
    → All (λ c. (t : ArrowType) × (arrow_type c ≡ ok t)) cs
    → (f : List Field) × (fields cs ≡ ok f)
unfolding fields
fields_total [] h = ([], refl)
fields_total (c ∷ cs) ((t, typed), rest) =
    let (f, made) = fields_total cs rest in
    (record { name = c.name; dtype = t } ∷ f, rw (typed, made) refl)

-- A name that one of the columns has gets a type in their schema.
fields-dtype_of :
    (cs : List ColumnSpec) (f : List Field) (k : String)
    → fields cs ≡ ok f
    → contains (map (λ c. c.name) cs) k ≡ true
    → (t : ArrowType) × (dtype_of k f ≡ some t)
unfolding fields dtype_of
fields-dtype_of [] f k e there = absurd (cc)
fields-dtype_of (c ∷ cs) f k e there =
    let (t, typed, rest) = and_then-eq-ok (arrow_type c) _ f e in
    let (more, made, built) = and_then-eq-ok (fields cs) _ f rest in
    let same : record { name = c.name; dtype = t } ∷ more ≡ f = cc in
    rw (← same) (elim (Bool-cases (str_eq c.name k)) [
      | inl hit ↦ (t, rw hit refl)
      | inr miss ↦
          let (u, found) =
            fields-dtype_of cs more k made (ground (arith, eq_iff c.name k, eq_iff k c.name)) in
          (u, rw miss found)
    ])

dtype_of-append :
    (fs gs : List Field) (k : String)
    → contains (map (λ f. f.name) fs) k ≡ false
    → dtype_of k (fs ++ gs) ≡ dtype_of k gs
unfolding dtype_of
dtype_of-append [] gs k h = refl
dtype_of-append (f ∷ fs) gs k h =
    ground (arith, eq_iff k f.name, eq_iff f.name k, dtype_of-append fs gs k)

All-contains :
    (P : String → Type 0) (names : List String) (k : String)
    → All P names
    → contains names k ≡ true
    → P k
All-contains P [] k h there = absurd (cc)
All-contains P (n ∷ names) k (here, rest) there = elim (Bool-cases (str_eq k n)) [
  | inl same ↦ let key : k ≡ n = (eq_iff k n).0 same in rw key here
  | inr other ↦ All-contains P names k rest (rw other at there)
]

-- A table that `validate` accepts has a schema for each of its reads: that of the log is that of the
-- table behind the log's own columns, and each primary key column has one type in both.
pub validate-schemas :
    (spec : TableSpec)
    → validate spec ≡ ok tt
    → (rows : List Field) × (row_schema spec ≡ ok rows)
      × (event_schema spec ≡ ok (metadata_fields ++ rows))
      × All
          (λ key.
            (t : ArrowType) × (dtype_of key rows ≡ some t)
            × (dtype_of key (metadata_fields ++ rows) ≡ some t))
          spec.pk_columns
unfolding row_schema event_schema
validate-schemas spec e =
    let (origins, keys, names) = validate-eq-ok spec e in
    let (rows, made) = fields_total spec.captured_columns (
      All-map _ _ (λ c (origin, found, t, now, recorded). (t, recorded)) spec.captured_columns
        origins) in
    (
      rows,
      made,
      rw made refl,
      All-map (IsStored spec) _
          (λ key (there, stored).
            let (t, typed) = fields-dtype_of spec.captured_columns rows key made there in
            let free = All-contains _ (business_columns spec) key names there in
            (t, typed, dtype_of-append metadata_fields rows key free ∙ typed))
          spec.pk_columns keys,
    )

or_raise_other :
    (a b : ColumnSpec) (o : Option ArrowType) (t : ArrowType)
    → or_raise a o ≡ ok t
    → or_raise b o ≡ ok t
or_raise_other a b (some u) t e = e
or_raise_other a b none t e = absurd (err_ne_ok _ _ e)

arrow_type_congr :
    (a b : ColumnSpec) (t : ArrowType)
    → eq_column a b ≡ true
    → arrow_type a ≡ ok t
    → arrow_type b ≡ ok t
unfolding arrow_type
arrow_type_congr a b t same e =
    let (_, alike) = eq_column-same a b same in
    let one : type_by_name (lower b.type_name) b.precision b.scale
        ≡ type_by_name (lower a.type_name) a.precision a.scale =
      ap (λ s. type_by_name s.type_name s.precision s.scale) (sym alike) in
    rw one (or_raise_other a b (type_by_name (lower a.type_name) a.precision a.scale) t e)

fields_congr :
    (xs ys : List ColumnSpec) (f : List Field)
    → eq_list eq_column xs ys ≡ true
    → fields xs ≡ ok f
    → fields ys ≡ ok f
unfolding fields
fields_congr [] [] f same e = e
fields_congr [] (y ∷ ys) f same e = cc
fields_congr (x ∷ xs) [] f same e = cc
fields_congr (x ∷ xs) (y ∷ ys) f same e =
    let (t, typed, rest) = and_then-eq-ok (arrow_type x) _ f e in
    let (more, made, built) = and_then-eq-ok (fields xs) _ f rest in
    let here : eq_column x y ≡ true = ground arith in
    let (one_name, _) = eq_column-same x y here in
    rw (arrow_type_congr x y t here typed, fields_congr xs ys more (ground arith) made, ← one_name)
      built

-- Specs whose captured columns are equal one by one give equal schemas to both reads.
pub schemas_congr :
    (a b : TableSpec) (rows events : List Field)
    → eq_list eq_column a.captured_columns b.captured_columns ≡ true
    → row_schema a ≡ ok rows
    → event_schema a ≡ ok events
    → (row_schema b ≡ ok rows) × (event_schema b ≡ ok events)
unfolding row_schema event_schema
schemas_congr a b rows events same e e' =
    let (more, made, built) = and_then-eq-ok (fields a.captured_columns) _ events e' in
    let other = fields_congr a.captured_columns b.captured_columns more same made in
    (fields_congr a.captured_columns b.captured_columns rows same e, rw other built)
