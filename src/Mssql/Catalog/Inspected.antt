-- ===== src/Mssql/Catalog/Inspected.antt =====
-- What a spec that `inspect` returns is made of.
use pydblog.Prelude.{
  ℕ, String, ◌≡◌, ◌≢◌, refl, true, Option, none, some, List, [], ◌∷◌, keep, All, inl, inr,
  Bool-cases,
}
use pydblog.Exec.{ok, err_ne_ok, and_then-eq-ok, collect, lift}
use pydblog.Exec.Ensures.{
  Ensures, Ensures-elim, Ensures-then, Ensures-bind, Ensures-intro, lift-eq-ok,
}
use pydblog.Types.{ColumnSpec, TableSpec}
use pydblog.Mssql.Identifier.{is_identifier, validate_identifier}
use pydblog.Mssql.Identifier.Safe.{validate_identifier-eq-ok}
use pydblog.Mssql.Driver.{Driver}
use pydblog.Mssql.Session.{Settings, Session, call, with_cursor}
use pydblog.Mssql.Session.Returns.{with_cursor-Ensures}
use pydblog.Mssql.Schema.{validate}
use pydblog.Mssql.Catalog.{
  name_of, some_key, with_formula, formula_of, mark_computed, is_business, spec_of, validated_by,
  validated, read_pk_columns, read_columns, read_capture_instance, read_captured_columns, reconcile,
  read_catalog, inspect,
}

-- The captured columns of a table that is captured, and of one that is not.
abbrev pub HasCaptured : TableSpec → Option String → Type 0
HasCaptured spec none = spec.captured_columns ≡ spec.columns
HasCaptured spec (some name) =
    (is_identifier name ≡ true)
    × All (λ c. is_business c ≡ true) spec.captured_columns
    × (validate spec ≡ ok tt)

pub record IsInspected (schema table : String) (spec : TableSpec) : Type 0 where
  pub schema_name : spec.source_schema ≡ schema
  pub table_name : spec.source_table ≡ table
  pub keyed : spec.pk_columns ≢ []
  pub captured : HasCaptured spec spec.capture_instance

some_key_ne :
    (object_name : String) (names keys : List String)
    → some_key object_name names ≡ ok keys
    → keys ≢ []
unfolding some_key
some_key_ne object_name [] keys e = absurd (err_ne_ok _ _ e)
some_key_ne object_name (k ∷ ks) keys e = λ h. cc

keep-All : (columns : List ColumnSpec) → All (λ c. is_business c ≡ true) (keep is_business columns)
keep-All [] = tt
keep-All (c ∷ columns) = elim (Bool-cases (is_business c)) [
  | inl mine ↦ rw mine (mine, keep-All columns)
  | inr theirs ↦ rw theirs (keep-All columns)
]

with_formula-is_business :
    (c : ColumnSpec) (o : Option String)
    → is_business c ≡ true
    → is_business (with_formula c o) ≡ true
unfolding is_business
with_formula-is_business c none h = h
with_formula-is_business c (some formula) h = h

mark_computed-All :
    (columns source : List ColumnSpec)
    → All (λ c. is_business c ≡ true) columns
    → All (λ c. is_business c ≡ true) (mark_computed columns source)
unfolding mark_computed
mark_computed-All [] source h = tt
mark_computed-All (c ∷ columns) source (here, rest) = (
  with_formula-is_business c (formula_of source c.name) here,
  mark_computed-All columns source rest,
)

-- Before `validate`.
Reconciled : List ColumnSpec → Option String → List ColumnSpec → Type 0
Reconciled columns none captured = captured ≡ columns
Reconciled columns (some name) captured =
    (is_identifier name ≡ true) × All (λ c. is_business c ≡ true) captured

Read : String → String → TableSpec → Type 0
Read schema table spec =
    (spec.source_schema ≡ schema)
    × (spec.source_table ≡ table)
    × (spec.pk_columns ≢ [])
    × Reconciled spec.columns spec.capture_instance spec.captured_columns

module _ {W : Type 0} (D : Driver W) where
  reconcile-Reconciled :
      (cur : ℕ) (columns : List ColumnSpec) (capture_instance : Option String) (captures : String)
      (s : Session W)
      → Ensures
          (λ captured _. Reconciled columns capture_instance captured)
          (reconcile D cur columns capture_instance captures s)
  unfolding reconcile read_captured_columns Reconciled
  reconcile-Reconciled cur columns none captures s = refl
  reconcile-Reconciled cur columns (some name) captures s =
      Ensures-bind
        (λ captured _. (is_identifier name ≡ true) × All (λ c. is_business c ≡ true) captured) _ _ _
        s
        (Ensures-then _ (lift (validate_identifier name "capture instance")) _ s λ safe t e.
          Ensures-then _ (read_columns D cur _) _ t λ found u _. (
            (validate_identifier-eq-ok name "capture instance" safe
                (lift-eq-ok (validate_identifier name "capture instance") s t safe e).0).0,
            keep-All found,
          ))
        λ captured t _ (safe, mine). (safe, mark_computed-All captured columns mine)

  read_pk_columns-ne :
      (cur : ℕ) (object_name : String) (s : Session W)
      → Ensures (λ keys _. keys ≢ []) (read_pk_columns D cur object_name s)
  unfolding read_pk_columns
  read_pk_columns-ne cur object_name s = Ensures-then _ (call (D.execute cur _ _)) _ s λ _ t _.
      Ensures-then _ (call (D.fetchall cur)) _ t λ rows u _.
        Ensures-then _ (lift (collect name_of rows)) _ u λ names v _. Ensures-intro _ _ λ keys w e.
          some_key_ne object_name names keys (lift-eq-ok (some_key object_name names) v w keys e).0

  read_catalog-Read :
      (cur : ℕ) (schema table captures : String) (s : Session W)
      → Ensures (λ spec _. Read schema table spec) (read_catalog D cur schema table captures s)
  unfolding read_catalog spec_of Read
  read_catalog-Read cur schema table captures s =
      Ensures-bind _ _ (read_pk_columns D cur _) _ s (read_pk_columns-ne cur _ s) λ keys t _ some.
        Ensures-then _ (read_capture_instance D cur _ captures) _ t λ capture_instance u _.
          Ensures-then _ (read_columns D cur _) _ u λ columns v _.
            Ensures-bind _ _ (reconcile D cur columns capture_instance captures) _ v
              (reconcile-Reconciled cur columns capture_instance captures v)
              λ captured w _ agreed. (refl, refl, some, agreed)

-- `validated` returns the spec that it is given, and of a captured table only one that is valid.
validated_by-HasCaptured :
    (spec found : TableSpec) (capture_instance : Option String)
    → Reconciled spec.columns capture_instance spec.captured_columns
    → validated_by spec capture_instance ≡ ok found
    → (spec ≡ found) × HasCaptured spec capture_instance
unfolding validated_by Reconciled
validated_by-HasCaptured spec found none h e = (cc, h)
validated_by-HasCaptured spec found (some name) (safe, mine) e =
    let (_, valid, same) = and_then-eq-ok (validate spec) _ found e in (cc, (safe, mine, valid))

checked :
    (schema table : String) (spec found : TableSpec)
    → Read schema table spec
    → validated spec ≡ ok found
    → IsInspected schema table found
unfolding validated Read
checked schema table spec found (schema_name, table_name, keyed, agreed) e =
    let (same, captured) = validated_by-HasCaptured spec found spec.capture_instance agreed e in
    rw (← same) (record {
      schema_name = schema_name;
      table_name = table_name;
      keyed = keyed;
      captured = captured;
    })

-- A spec that `inspect` returns is of the table that was asked for and has a primary key. Where the
-- table is captured, the capture instance is a safe name, none of the log's own columns is among the
-- captured ones, and the spec is valid; otherwise the captured columns are the table's own.
pub inspect-IsInspected :
    {W : Type 0} (D : Driver W) (M : Settings) (schema table captures : String) (s u : Session W)
    (spec : TableSpec)
    → inspect D M schema table captures s ≡ (ok spec, u)
    → IsInspected schema table spec
unfolding inspect
inspect-IsInspected D M schema table captures s u spec e =
    Ensures-elim (λ found _. IsInspected schema table found) _ spec u e
      (Ensures-bind (λ found _. Read schema table found) _ (with_cursor D M _) _ s
        (with_cursor-Ensures D M (λ found _. Read schema table found) _ s (λ _ _ _ h. h)
          (λ cur t. read_catalog-Read D cur schema table captures t))
        λ read t _ h. Ensures-intro _ _ λ found v e'.
          checked schema table read found h (lift-eq-ok (validated read) t v found e').0)
