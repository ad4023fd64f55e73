-- ===== src/Types.antt =====
-- connectors/types.py: what a source says of a table and its columns.
mod Text
pub mod Equality
use Prim.Native.String.{◌++◌ as ◌<>◌}
use text.Mathlib.Text.{◌==◌ as str_eq}
use pydblog.Prelude.{
  ℕ, String, Bool, true, false, ◌&&◌, Option, none, some, List, [], ◌∷◌, map, ◌==◌,
}
unfoldable pub use Text.{lower}

pub data SourceType : Type 0 where
  mssql postgres : SourceType

pub record ColumnSpec : Type 0 where
  pub name : String
  pub type_name : String
  pub precision : ℕ
  pub scale : ℕ
  pub computed_definition : Option String

-- What decides the type that a column reads back as.
pub record Signature : Type 0 where
  pub type_name : String
  pub precision : ℕ
  pub scale : ℕ

abbrev pub signature : ColumnSpec → Signature
signature c = record { type_name = lower c.type_name; precision = c.precision; scale = c.scale }

abbrev pub is_computed : ColumnSpec → Bool
is_computed c = elim c.computed_definition [ none ↦ false | some _ ↦ true ]

abbrev pub eq_signature : Signature → Signature → Bool
eq_signature a b =
    str_eq a.type_name b.type_name && (a.precision == b.precision && a.scale == b.scale)

-- `ColumnSpec.__eq__`: the formula is left out.
unfoldable pub eq_column : ColumnSpec → ColumnSpec → Bool
eq_column a b = str_eq a.name b.name && eq_signature (signature a) (signature b)

-- Python's `==` on lists, item by item.
abbrev pub eq_list {ℓ} : {A : Type ℓ} → (A → A → Bool) → List A → List A → Bool
eq_list eq [] [] = true
eq_list eq [] (y ∷ ys) = false
eq_list eq (x ∷ xs) [] = false
eq_list eq (x ∷ xs) (y ∷ ys) = eq x y && eq_list eq xs ys

pub record TableSpec : Type 0 where
  pub source_schema : String
  pub source_table : String
  pub pk_columns : List String
  pub columns : List ColumnSpec
  pub captured_columns : List ColumnSpec
  pub capture_instance : Option String

-- `f"{schema}.{table}"`
abbrev pub dotted : String → String → String
dotted schema table = schema <> ("." <> table)

abbrev pub qualified_name : TableSpec → String
qualified_name s = dotted s.source_schema s.source_table

abbrev pub business_columns : TableSpec → List String
business_columns s = map (λ c. c.name) s.captured_columns
