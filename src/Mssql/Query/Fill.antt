-- ===== src/Mssql/Query/Fill.antt =====
-- A query's text with its values put in the places of its placeholders, the first value in the first
-- place and so on.
use Prim.Native.Char.{Char, code}
use Prim.Native.String.{[], ◌∷◌, ◌++◌ as ◌<>◌}
use text.Mathlib.TextLemmas.{cons-append, nil-append}
use mathlib.Core.List.{List, [], ◌∷◌, ◌++◌, map}
use pydblog.Prelude.{
  ℕ, suc, ◌≡◌, refl, sym, ap, ◌∙◌, String, true, false, Option, none, some, inl, inr, arith,
  Bool-cases, ◌==◌,
}
use pydblog.Prelude.Int.{ℤ}
use pydblog.Builtins.{join}
use pydblog.Mssql.Identifier.Safe.{marks}
use pydblog.Mssql.Query.Clauses.{placeholders, concat, Clause}

-- A character of the text, by its code, or a value.
pub data Piece : Type 0 where
  letter : ℕ → Piece
  value : ℤ → Piece

abbrev pub behind : Piece → Option (List Piece) → Option (List Piece)
behind p none = none
behind p (some ps) = some (p ∷ ps)

abbrev pub placed : List ℤ → (List ℤ → Option (List Piece)) → Option (List Piece)
placed [] rest = none
placed (v ∷ vs) rest = behind (value v) (rest vs)

-- Nothing where there are more placeholders than values, or fewer.
unfoldable pub fill : String → List ℤ → Option (List Piece)
fill [] [] = some []
fill [] (v ∷ vs) = none
fill (c ∷ s) vs = elim (b'?' == code c) [
  | true ↦ placed vs λ others. fill s others
  | false ↦ behind (letter (code c)) (fill s vs)
]

fill_nothing : fill [] [] ≡ some []
unfolding fill
fill_nothing = refl

-- A text as it stands.
unfoldable pub letters : String → List Piece
letters [] = []
letters (c ∷ s) = letter (code c) ∷ letters s

behind-append :
    (p : Piece) (o : Option (List Piece)) (ps qs : List Piece) (r : Option (List Piece))
    → behind p o ≡ some ps
    → ((rest : List Piece) → o ≡ some rest → r ≡ some (rest ++ qs))
    → behind p r ≡ some (ps ++ qs)
behind-append p none ps qs r e h = absurd cc
behind-append p (some rest) ps qs r e h =
    let same : p ∷ rest ≡ ps = cc in rw (← same, h rest refl) refl

fill-plain :
    (c : Char) (s : String) (vs : List ℤ)
    → (b'?' == code c) ≡ false
    → fill (c ∷ s) vs ≡ behind (letter (code c)) (fill s vs)
unfolding fill
fill-plain c s vs plain = rw (plain, fill) refl

fill-place :
    (c : Char) (s : String) (vs : List ℤ)
    → (b'?' == code c) ≡ true
    → fill (c ∷ s) vs ≡ placed vs λ others. fill s others
unfolding fill
fill-place c s vs place = rw (place, fill) refl

placed-append :
    (f g : List ℤ → Option (List Piece)) (vs ws : List ℤ) (ps qs : List Piece)
    → placed vs f ≡ some ps
    → ((others : List ℤ) (rest : List Piece)
        → f others ≡ some rest
        → g (others ++ ws) ≡ some (rest ++ qs))
    → placed (vs ++ ws) g ≡ some (ps ++ qs)
placed-append f g [] ws ps qs e h = absurd cc
placed-append f g (v ∷ others) ws ps qs e h =
    behind-append (value v) (f others) ps qs _ e (h others)

pub fill-append :
    (s t : String) (vs ws : List ℤ) (ps qs : List Piece)
    → fill s vs ≡ some ps
    → fill t ws ≡ some qs
    → fill (s <> t) (vs ++ ws) ≡ some (ps ++ qs)
unfolding fill
fill-append [] t [] ws ps qs h k = let same : [] ≡ ps = cc in rw (nil-append t, ← same) k
fill-append [] t (v ∷ vs) ws ps qs h k = absurd cc
fill-append (c ∷ s) t vs ws ps qs h k = elim (Bool-cases (b'?' == code c)) [
  | inr plain ↦
      let rest =
        behind-append (letter (code c)) (fill s vs) ps qs (fill (s <> t) (vs ++ ws))
          (sym (fill-plain c s vs plain) ∙ h) λ rest e. fill-append s t vs ws rest qs e k in
      ap (λ u. fill u (vs ++ ws)) (cons-append c s t)
      ∙ (fill-plain c (s <> t) (vs ++ ws) plain ∙ rest)
  | inl place ↦
      let rest =
        placed-append (λ others. fill s others) (λ others. fill (s <> t) others) vs ws ps qs
          (sym (fill-place c s vs place) ∙ h)
          λ others rest e. fill-append s t others ws rest qs e k in
      ap (λ u. fill u (vs ++ ws)) (cons-append c s t)
      ∙ (fill-place c (s <> t) (vs ++ ws) place ∙ rest)
]

pub fill-letters : (s : String) → placeholders s ≡ 0 → fill s [] ≡ some (letters s)
unfolding letters marks
fill-letters [] h = fill_nothing
fill-letters (c ∷ s) h = elim (Bool-cases (b'?' == code c)) [
  | inl place ↦
      absurd (let clash : suc (placeholders s) ≡ 0 = rw place at h in omega (arith, clash))
  | inr plain ↦
      let fewer : placeholders s ≡ 0 = rw plain at h in
      fill-plain c s [] plain ∙ ap (behind (letter (code c))) (fill-letters s fewer)
]

pub letters-append : (s t : String) → letters (s <> t) ≡ letters s ++ letters t
unfolding letters
letters-append [] t = rw (nil-append t) refl
letters-append (c ∷ s) t = rw (cons-append c s t, letters-append s t) refl

unfoldable pub spaced : List (List Piece) → List Piece
spaced [] = []
spaced (ps ∷ []) = ps
spaced (ps ∷ qs ∷ pss) = ps ++ (letters " " ++ spaced (qs ∷ pss))

-- The clauses of a query, filled one by one.
unfoldable pub Filled : List Clause → List (List Piece) → Type 0
Filled [] [] = Unit
Filled [] (ps ∷ pss) = ⊥
Filled (c ∷ cs) [] = ⊥
Filled (c ∷ cs) (ps ∷ pss) = (fill c.0 c.1 ≡ some ps) × Filled cs pss

append_nil : {A : Type 0} (xs : List A) → xs ++ [] ≡ xs
append_nil [] = refl
append_nil (x ∷ xs) = rw (append_nil xs) refl

pub fill-join :
    (cs : List Clause) (pss : List (List Piece))
    → Filled cs pss
    → fill (join " " (map (λ c. c.0) cs)) (concat (map (λ c. c.1) cs)) ≡ some (spaced pss)
unfolding join Filled spaced marks
fill-join [] [] h = fill_nothing
fill-join [] (ps ∷ pss) h = absurd h
fill-join (c ∷ cs) [] h = absurd h
fill-join (c ∷ []) (ps ∷ []) h = rw (append_nil c.1) h.0
fill-join (c ∷ []) (ps ∷ qs ∷ pss) h = absurd h.1
fill-join (c ∷ d ∷ cs) (ps ∷ []) h = absurd h.1
fill-join (c ∷ d ∷ cs) (ps ∷ qs ∷ pss) (here, rest) =
    fill-append c.0 (" " <> join " " (map (λ c. c.0) (d ∷ cs))) c.1
      (concat (map (λ c. c.1) (d ∷ cs))) ps (letters " " ++ spaced (qs ∷ pss)) here
      (fill-append " " (join " " (map (λ c. c.0) (d ∷ cs))) [] (concat (map (λ c. c.1) (d ∷ cs)))
        (letters " ") (spaced (qs ∷ pss)) (fill-letters " " refl)
        (fill-join (d ∷ cs) (qs ∷ pss) rest))
