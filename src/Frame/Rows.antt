-- ===== src/Frame/Rows.antt =====
-- Rows under `keep`, `any` and a match on columns: what the laws of polars are combined by.
use pydblog.Prelude.{
  String, ◌≡◌, refl, ap, sym, ◌∙◌, Bool, true, false, not, ◌&&◌, ◌||◌, List, [], ◌∷◌, map, keep,
  any, arith,
}
use pydblog.Frame.{Value, joins, Row, cells, matches, matched}

-- Pairwise joins of two lists of cells.
abbrev joins_all : List Value → List Value → Bool
joins_all [] vs = true
joins_all (u ∷ us) [] = false
joins_all (u ∷ us) (v ∷ vs) = joins u v && joins_all us vs

-- A match reads nothing of a row but the cells of its columns.
matches-cells :
    (keys : List String) (l r : Row) → matches keys l r ≡ joins_all (cells keys l) (cells keys r)
matches-cells [] l r = refl
matches-cells (k ∷ keys) l r = ground (arith, matches-cells keys l r)

module _ {A B : Type 0} where
  pub any-map : (p : B → Bool) (f : A → B) (xs : List A) → any p (map f xs) ≡ any (λ x. p (f x)) xs
  any-map p f [] = refl
  any-map p f (x ∷ xs) = ap (λ b. p (f x) || b) (any-map p f xs)

module _ {A : Type 0} where
  pub any_congr : (p q : A → Bool) → ((x : A) → p x ≡ q x) → (xs : List A) → any p xs ≡ any q xs
  any_congr p q h [] = refl
  any_congr p q h (x ∷ xs) = ground (arith, h x, any_congr p q h xs)

  pub keep_congr : (p q : A → Bool) → ((x : A) → p x ≡ q x) → (xs : List A) → keep p xs ≡ keep q xs
  keep_congr p q h [] = refl
  keep_congr p q h (x ∷ xs) = ground (arith, h x, keep_congr p q h xs)

  -- Where nothing is matched, everything is kept.
  pub keep-not-any : (p : A → Bool) (xs : List A) → any p xs ≡ false → keep (λ x. not (p x)) xs ≡ xs
  keep-not-any p [] h = refl
  keep-not-any p (x ∷ xs) h = ground (arith, keep-not-any p xs)

  pub any-false : (p : A → Bool) → ((x : A) → p x ≡ false) → (xs : List A) → any p xs ≡ false
  any-false p h [] = refl
  any-false p h (x ∷ xs) = ground (arith, h x, any-false p h xs)

-- Rows with the same cells in the columns are matched alike, whichever side they stand on.
pub matched-cells_right :
    (keys : List String) (rs rs' : List Row) (l : Row)
    → map (cells keys) rs ≡ map (cells keys) rs'
    → matched keys rs l ≡ matched keys rs' l
matched-cells_right keys rs rs' l e =
    let test : List Value → Bool = joins_all (cells keys l) in
    any_congr _ _ (matches-cells keys l) rs
    ∙ sym (any-map test (cells keys) rs)
    ∙ ap (any test) e
    ∙ any-map test (cells keys) rs'
    ∙ sym (any_congr _ _ (matches-cells keys l) rs')

pub any-matched-cells_left :
    (keys : List String) (others ls ls' : List Row)
    → map (cells keys) ls ≡ map (cells keys) ls'
    → any (matched keys others) ls ≡ any (matched keys others) ls'
any-matched-cells_left keys others ls ls' e =
    any_congr _ _ reads ls
    ∙ sym (any-map test (cells keys) ls)
    ∙ ap (any test) e
    ∙ any-map test (cells keys) ls'
    ∙ sym (any_congr _ _ reads ls')
  where
    test : List Value → Bool
    test vs = any (λ r. joins_all vs (cells keys r)) others

    reads : (l : Row) → matched keys others l ≡ test (cells keys l)
    reads l = any_congr _ _ (matches-cells keys l) others
