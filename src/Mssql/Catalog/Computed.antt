-- ===== src/Mssql/Catalog/Computed.antt =====
-- `_mark_computed`: which columns come out as computed, and what stays of them.
use text.Mathlib.Text.{◌==◌ as str_eq}
use text.Mathlib.TextEquality.{eq_iff}
use pydblog.Prelude.{
  String, ◌≡◌, refl, sym, ap, Bool, true, false, ◌&&◌, ◌||◌, Option, none, some, List, [], ◌∷◌, map,
  keep, All, arith, inl, inr, Bool-cases, if◌then◌else◌,
}
use pydblog.Types.{ColumnSpec, is_computed, eq_column, eq_list}
use pydblog.Types.Equality.{eq_column_refl}
use pydblog.Mssql.Schema.{contains}
use pydblog.Mssql.Catalog.{formula_of, with_formula, mark_computed}

abbrev is_some : {A : Type 0} → Option A → Bool
is_some none = false
is_some (some a) = true

abbrev pub names_of : List ColumnSpec → List String
names_of columns = map (λ c. c.name) columns

abbrev pub computed_names : List ColumnSpec → List String
computed_names columns = names_of (keep is_computed columns)

-- A formula is found for a name exactly if a computed column has the name.
formula_found :
    (source : List ColumnSpec) (name : String)
    → is_some (formula_of source name) ≡ contains (computed_names source) name
unfolding formula_of
formula_found [] name = refl
formula_found (c ∷ source) name =
    found c.computed_definition refl (formula_of source name) (formula_found source name)
  where
    found :
        (o : Option String)
        → c.computed_definition ≡ o
        → (later : Option String) → is_some later ≡ contains (computed_names source) name
        → is_some (
            (elim later as (λ _. Option String) [
              | some l ↦ some l
              | none ↦ if str_eq c.name name then o else none
            ]))
          ≡ contains
              (names_of
                (if is_some o then c ∷ keep is_computed source else keep is_computed source))
              name
    found none same none h = ground (arith, h)
    found none same (some l) h = h
    found (some f) same none h = ground (arith, h, eq_iff name c.name, eq_iff c.name name)
    found (some f) same (some l) h = ground (arith, h)

eq_column-with_formula :
    (c : ColumnSpec) (o : Option String) → eq_column (with_formula c o) c ≡ true
unfolding eq_column
eq_column-with_formula c none = eq_column_refl c
eq_column-with_formula c (some formula) = eq_column_refl c

same_columns :
    (captured source : List ColumnSpec)
    → eq_list eq_column (mark_computed captured source) captured ≡ true
unfolding mark_computed
same_columns [] source = refl
same_columns (c ∷ captured) source =
    rw (eq_column-with_formula c (formula_of source c.name)) (same_columns captured source)

computed_names_plain :
    (c : ColumnSpec) (columns : List ColumnSpec)
    → c.computed_definition ≡ none
    → computed_names (c ∷ columns) ≡ computed_names columns
computed_names_plain c columns h =
    ap
      (λ o. names_of (if is_some o then c ∷ keep is_computed columns else keep is_computed columns))
      h

marked :
    (captured source : List ColumnSpec)
    → All (λ c. c.computed_definition ≡ none) captured
    → (name : String)
    → contains (computed_names (mark_computed captured source)) name
      ≡ (contains (names_of captured) name && contains (computed_names source) name)
unfolding mark_computed
marked [] source plain name = refl
marked (c ∷ captured) source (here, rest) name =
    one (formula_of source c.name) refl (formula_found source c.name)
      (marked captured source rest name)
  where
    one :
        (o : Option String)
        → formula_of source c.name ≡ o
        → is_some o ≡ contains (computed_names source) c.name
        → contains (computed_names (mark_computed captured source)) name
          ≡ (contains (names_of captured) name && contains (computed_names source) name)
        → contains (computed_names (with_formula c o ∷ mark_computed captured source)) name ≡ (
            (str_eq name c.name || contains (names_of captured) name)
            && contains (computed_names source) name)
    one none same h more = elim (Bool-cases (str_eq name c.name)) [
      | inl hit ↦
          let key : name ≡ c.name = (eq_iff name c.name).0 hit in
          let gone : contains (computed_names source) name ≡ false = rw key (sym h) in
          rw (computed_names_plain c (mark_computed captured source) here, more, gone)
            (ground arith)
      | inr miss ↦ rw (computed_names_plain c (mark_computed captured source) here, more, miss) refl
    ]
    one (some formula) same h more = elim (Bool-cases (str_eq name c.name)) [
      | inl hit ↦
          let key : name ≡ c.name = (eq_iff name c.name).0 hit in
          let there : contains (computed_names source) name ≡ true = rw key (sym h) in
          rw (hit, there) refl
      | inr miss ↦ rw miss more
    ]

-- Marking computed columns keeps every captured column's name and type. Where the change log shows all
-- columns as plain ones, those that come out as computed are the captured columns that have the name of
-- a computed column of the table.
pub mark_computed-eq_list :
    (captured source : List ColumnSpec)
    → All (λ c. c.computed_definition ≡ none) captured
    → (eq_list eq_column (mark_computed captured source) captured ≡ true)
      × ((name : String)
          → contains (computed_names (mark_computed captured source)) name
            ≡ (contains (names_of captured) name && contains (computed_names source) name))
mark_computed-eq_list captured source plain =
    (same_columns captured source, marked captured source plain)
