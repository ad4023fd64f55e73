-- ===== src/Mssql/Schema/Conform/Pinned.antt =====
-- What a result set that `conform` lets through looks like.
use text.Mathlib.Text.{◌==◌ as str_eq}
use text.Mathlib.TextEquality.{eq_iff}
use pydblog.Prelude.{String, ◌≡◌, refl, sym, Bool, true, false, List, [], ◌∷◌, Bool-cases, inl, inr}
use pydblog.Exec.{ok, err_ne_ok, and_then-eq-ok, collect}
use pydblog.Arrow.{Field}
use pydblog.Dblog.Drift.{member}
use pydblog.Mssql.Driver.{ArrowTable, Columnar, IsColumnar, column_names}
use pydblog.Mssql.Schema.Conform.{absent, check_repeats, check_names, conform, nothing}

-- Nothing of the first list is absent from the second one.
absent-member :
    (wanted names : List String)
    → nothing (absent wanted names) ≡ true
    → (n : String) → member wanted n ≡ true
    → member names n ≡ true
absent-member [] names h n there = cc
absent-member (m ∷ wanted) names h n there = elim (Bool-cases (member names m)) [
  | inr gone ↦ absurd (let same : false ≡ true = (rw gone at h) in cc)
  | inl kept ↦ elim (Bool-cases (str_eq n m)) [
    | inl same ↦ let key : n ≡ m = (eq_iff n m).0 same in rw key kept
    | inr other ↦ absent-member wanted names (rw kept at h) n (rw other at there)
  ]
]

both : (a b : Bool) → (a ≡ true → b ≡ true) → (b ≡ true → a ≡ true) → a ≡ b
both true b h k = sym (h refl)
both false true h k = k refl
both false false h k = refl

same_member :
    (declared names : List String) (context : String)
    → check_names context declared names ≡ ok tt
    → (n : String) → member declared n ≡ member names n
unfolding check_names
same_member declared names context e n = elim (Bool-cases (nothing (absent declared names))) [
  | inr lacks ↦ absurd (err_ne_ok _ _ (rw lacks at e))
  | inl has ↦ elim (Bool-cases (nothing (absent names declared))) [
    | inr extra ↦ absurd (err_ne_ok _ _ (rw (has, extra) at e))
    | inl all_known ↦
        both (member declared n) (member names n) (absent-member declared names has n)
          (absent-member names declared all_known n)
  ]
]

-- A result set that `conform` lets through comes back with exactly the declared schema, for the
-- pyarrow that is documented, and it had the declared columns and no others.
pub conform-eq-ok :
    (K : Columnar)
    → IsColumnar K
    → (table t : ArrowTable) (schema : List Field) (context : String)
    → conform K table schema context ≡ ok t
    → (t.fields ≡ schema)
      × ((n : String) → member (column_names schema) n ≡ member (column_names table.fields) n)
unfolding conform
conform-eq-ok K L table t schema context e =
    let (_, once, rest) =
      and_then-eq-ok (check_repeats context (column_names table.fields)) _ t e in
    let (_, named, rest') =
      and_then-eq-ok (check_names context (column_names schema) (column_names table.fields)) _ t
        rest in
    let (ordered, selected, rest'') =
      and_then-eq-ok (K.select (column_names schema) table) _ t rest' in
    let (columns, cast, built) = and_then-eq-ok (collect _ schema) _ t rest'' in
    (
      L.fields-table columns schema t built,
      same_member (column_names schema) (column_names table.fields) context named,
    )
