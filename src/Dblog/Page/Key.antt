-- ===== src/Dblog/Page/Key.antt =====
-- `_key_after`: what a page is like whose next key it returns.
use native.Mathlib.Omega.{arith}
use pydblog.Prelude.{
  String, ◌≡◌, refl, sym, ap, ◌∙◌, inl, inr, true, List, [], ◌∷◌, map, length, ◌==◌, ==_iff,
  Bool-cases,
}
use pydblog.Prelude.Int.{ℤ, pos, ◌+ℤ◌}
use pydblog.Exec.{Result, ok, and_then, and_then-eq-ok, err_ne_ok, leading_key_repeats}
use pydblog.Builtins.{last}
use pydblog.Types.{TableSpec, qualified_name}
use pydblog.Frame.{Value, int, cell, Frame, Polars, IsLawful, HasColumns, distinct, height}
use pydblog.Dblog.Page.{one_past, key_after}

pub length-map {ℓ κ} :
    {A : Type ℓ} {B : Type κ} (f : A → B) (xs : List A) → length (map f xs) ≡ length xs
length-map f [] = refl
length-map f (x ∷ xs) = omega (arith, length-map f xs)

one_past-eq-ok :
    (spec : TableSpec) (v : Value) (c : ℤ)
    → one_past spec v ≡ ok c
    → (n : ℤ) × (v ≡ int n) × (c ≡ n +ℤ pos 1)
unfolding one_past
one_past-eq-ok spec (int n) c h = (n, refl, cc)
one_past-eq-ok spec Value.null c h = cc
one_past-eq-ok spec (Value.bool b) c h = cc
one_past-eq-ok spec (Value.str t) c h = cc
one_past-eq-ok spec (Value.binary b) c h = cc
one_past-eq-ok spec (Value.moment m) c h = cc
one_past-eq-ok spec (Value.other t r) c h = cc

-- With frames that meet polars' laws, on a page that has the first primary key column: where
-- `_key_after` returns, the page ends in an integer key, what is returned is one past it, and no two
-- of the page's leading keys are alike.
pub key_after-eq-ok :
    (P : Polars)
    → IsLawful P
    → (f : Frame) (spec : TableSpec) (leading : String) (keys : List String) (c : ℤ)
    → spec.pk_columns ≡ leading ∷ keys
    → HasColumns (leading ∷ []) f
    → key_after P f spec ≡ ok c
    → (n : ℤ) × (last (map (cell leading) f.rows) ≡ ok (int n))
      × (c ≡ n +ℤ pos 1)
      × (distinct (map (cell leading) f.rows) ≡ true)
unfolding key_after
key_after-eq-ok P L f spec leading keys c keyed has h =
    let values : List Value = map (cell leading) f.rows in
    elim (Bool-cases (P.n_unique values == height f)) [
      | inl once ↦
          let run : and_then (last values) (one_past spec) ≡ ok c =
            rw (keyed, L.column-cells leading f has, once) at h in
          let (v, ends, past) = and_then-eq-ok (last values) (one_past spec) c run in
          let (n, whole, next) = one_past-eq-ok spec v c past in
          let count : P.n_unique values ≡ length values =
            (==_iff (P.n_unique values) (height f)).0 once
            ∙ sym (length-map (cell leading) f.rows) in
          (n, ends ∙ ap ok whole, next, (L.n_unique-distinct values).0 count)
      | inr twice ↦
          let run : Result.err (leading_key_repeats (qualified_name spec)) ≡ ok c =
            rw (keyed, L.column-cells leading f has, twice) at h in
          absurd (err_ne_ok _ _ run)
    ]
