-- ===== src/Mssql/Query/Clauses.antt =====
-- The placeholders of the texts that a query is made of.
use Prim.Native.String.{◌++◌ as ◌<>◌}
use pydblog.Prelude.{
  ℕ, ◌+◌, ◌≡◌, refl, String, List, [], ◌∷◌, ◌++◌, All, inl, inr, arith, Bool-cases, if◌then◌else◌,
}
use pydblog.Prelude.Int.{ℤ}
use pydblog.Builtins.{first, join}
use pydblog.Exec.{Result, ok, err_ne_ok, and_then-eq-ok, collect}
use pydblog.Types.{ColumnSpec, is_computed}
use pydblog.Mssql.Identifier.{is_word, quote_identifier}
use pydblog.Mssql.Identifier.Safe.{marks, marks-append, quote_identifier-eq-ok}
use pydblog.Mssql.Query.{project}

-- How many placeholders stand in a text, and in some texts.
abbrev pub placeholders : String → ℕ
placeholders s = marks b'?' s

abbrev pub in_all : List String → ℕ
in_all [] = 0
in_all (s ∷ ss) = placeholders s + in_all ss

abbrev pub concat {ℓ} : {A : Type ℓ} → List (List A) → List A
concat [] = []
concat (xs ∷ xss) = xs ++ concat xss

pub placeholders-join :
    (separator : String) (ss : List String)
    → placeholders separator ≡ 0
    → placeholders (join separator ss) ≡ in_all ss
unfolding join marks
placeholders-join separator [] h = refl
placeholders-join separator (s ∷ []) h = omega arith
placeholders-join separator (s ∷ t ∷ ss) h = omega (
  arith,
  h,
  marks-append b'?' s (separator <> join separator (t ∷ ss)),
  marks-append b'?' separator (join separator (t ∷ ss)),
  placeholders-join separator (t ∷ ss) h,
)

pub in_all-All : (ss : List String) → All (λ s. placeholders s ≡ 0) ss → in_all ss ≡ 0
in_all-All [] h = refl
in_all-All (s ∷ ss) (here, rest) = omega (arith, in_all-All ss rest)

pub collect-All :
    {A B : Type 0} (P : B → Type 0) (f : A → Result B)
    → ((x : A) (y : B) → f x ≡ ok y → P y)
    → (xs : List A) (ys : List B) → collect f xs ≡ ok ys
    → All P ys
collect-All P f h [] ys e = let same : [] ≡ ys = cc in rw (← same) tt
collect-All P f h (x ∷ xs) ys e =
    let (y, here, rest) = and_then-eq-ok (f x) _ ys e in
    let (more, there, built) = and_then-eq-ok (collect f xs) _ ys rest in
    let same : y ∷ more ≡ ys = cc in rw (← same) (h x y here, collect-All P f h xs more there)

pub placeholders-quote_identifier :
    (name kind quoted : String) → quote_identifier name kind ≡ ok quoted → placeholders quoted ≡ 0
unfolding is_word marks
placeholders-quote_identifier name kind quoted e =
    (quote_identifier-eq-ok name kind quoted e).2 b'?' refl

pub placeholders-project :
    (column : ColumnSpec) (text : String) → project column ≡ ok text → placeholders text ≡ 0
unfolding project marks
placeholders-project column text e =
    let (quoted, named, built) =
      and_then-eq-ok (quote_identifier column.name "business column") _ text e in
    let none_in = placeholders-quote_identifier column.name "business column" quoted named in
    let whole : (if is_computed column then "NULL AS " <> quoted else quoted) ≡ text = cc in
    rw (← whole) (elim (Bool-cases (is_computed column)) [
      | inl computed ↦ rw computed (omega (arith, marks-append b'?' "NULL AS " quoted, none_in))
      | inr stored ↦ rw stored none_in
    ])

pub first-All :
    (ss : List String) (s : String)
    → All (λ t. placeholders t ≡ 0) ss
    → first ss ≡ ok s
    → placeholders s ≡ 0
first-All [] s h e = absurd (err_ne_ok _ _ e)
first-All (t ∷ ss) s (here, h) e = let same : t ≡ s = cc in rw (← same) here

-- One clause of a query, and the values that its placeholders stand for.
abbrev pub Clause : Type 0
Clause = String × List ℤ
