-- ===== src/Mssql/Identifier/Safe.antt =====
-- What a validated name cannot hold: the characters that SQL reads as more than a name.
use Prim.Native.Char.{code}
use Prim.Native.String.{[], ◌∷◌, ◌++◌ as ◌<>◌}
use text.Mathlib.TextLemmas.{cons-append, nil-append}
use pydblog.Prelude.{
  ℕ, suc, ◌+◌, ◌≡◌, refl, ap, String, true, false, inl, inr, arith, Bool-cases, ◌==◌, if◌then◌else◌,
}
use pydblog.Exec.{ok, err_ne_ok, and_then-eq-ok}
use pydblog.Mssql.Identifier.{
  is_word, all_words, is_identifier, validate_identifier, quote_identifier,
}

-- How often a character stands in a text.
unfoldable pub marks : ℕ → String → ℕ
marks c [] = 0
marks c (d ∷ s) = let rest = marks c s in if c == code d then suc rest else rest

pub marks-append : (c : ℕ) (s t : String) → marks c (s <> t) ≡ marks c s + marks c t
unfolding marks
marks-append c [] t = rw (nil-append t) (omega arith)
marks-append c (d ∷ s) t = rw (cons-append d s t) (ground (arith, marks-append c s t))

pub marks-all_words : (c : ℕ) (s : String) → is_word c ≡ false → all_words s ≡ true → marks c s ≡ 0
unfolding marks
marks-all_words c [] other h = refl
marks-all_words c (d ∷ s) other h = elim (Bool-cases (c == code d)) [
  | inl same ↦ let key : c ≡ code d = ground arith in absurd (ground (arith, ap is_word key))
  | inr apart ↦ rw apart (marks-all_words c s other (ground arith))
]

pub all_words_of_identifier : (name : String) → is_identifier name ≡ true → all_words name ≡ true
unfolding is_identifier
all_words_of_identifier [] h = refl
all_words_of_identifier (c ∷ s) h = h

pub validate_identifier-eq-ok :
    (name kind r : String)
    → validate_identifier name kind ≡ ok r
    → (is_identifier name ≡ true) × (r ≡ name)
unfolding validate_identifier
validate_identifier-eq-ok name kind r e = elim (Bool-cases (is_identifier name)) [
  | inl word ↦ let same : ok name ≡ ok r = rw word at e in (word, cc)
  | inr other ↦ absurd (err_ne_ok _ _ (rw other at e))
]

-- A quoted name is the name between one bracket on each side, and holds no character outside
-- `[A-Za-z0-9_]` but these: no bracket inside, no quote, no space, no `?`.
pub quote_identifier-eq-ok :
    (name kind quoted : String)
    → quote_identifier name kind ≡ ok quoted
    → (is_identifier name ≡ true)
      × (quoted ≡ "[" <> (name <> "]"))
      × ((c : ℕ) → is_word c ≡ false → marks c quoted ≡ marks c "[" + marks c "]")
unfolding quote_identifier
quote_identifier-eq-ok name kind quoted e =
    let (valid, checked, built) = and_then-eq-ok (validate_identifier name kind) _ quoted e in
    let (word, same) = validate_identifier-eq-ok name kind valid checked in
    let whole : "[" <> (valid <> "]") ≡ quoted = cc in
    let whole' : "[" <> (name <> "]") ≡ quoted = rw same at whole in
    (
      word,
      cc,
      λ c other.
          let inner = marks-all_words c name other (all_words_of_identifier name word) in
          rw (← whole')
            (omega (arith, marks-append c "[" (name <> "]"), marks-append c name "]", inner)),
    )
