-- ===== src/Source/Events.antt =====
-- The algebra of events: applying rows in parts, rows that do not concern a key, and windows that
-- follow one another.
use pydblog.Prelude.{
  ℕ, zero, suc, ◌+◌, ◌≤◌, ◌≡◌, inl, inr, refl, sym, ◌∙◌, Bool, true, false, List, [], ◌∷◌, ◌++◌,
  any, ◌||◌, arith, Bool-cases, if◌then◌else◌,
}
use pydblog.Prelude.Int.{ℤ}
use pydblog.Frame.{Row}
use pydblog.Source.{Layout, Image, has_key, image, after, History, as_of, events_from}

module _ (Y : Layout) (k : ℤ) where
  pub after-append :
      (old : Image) (xs ys : List Row) → after Y k old (xs ++ ys) ≡ after Y k (after Y k old xs) ys
  unfolding after
  after-append old [] ys = refl
  after-append old (x ∷ xs) ys = after-append (if has_key Y k x then image Y x else old) xs ys

  -- Rows without the key leave its image.
  pub after-untouched :
      (old : Image) (rows : List Row) → any (has_key Y k) rows ≡ false → after Y k old rows ≡ old
  unfolding after
  after-untouched old [] h = refl
  after-untouched old (x ∷ xs) h = elim (Bool-cases (has_key Y k x)) [
    | inl hit ↦ absurd (ground arith)
    | inr miss ↦ rw miss (after-untouched old xs (ground arith))
  ]

  -- Rows with the key settle its image, whatever it was before.
  pub after-touched :
      (old old' : Image) (rows : List Row)
      → any (has_key Y k) rows ≡ true
      → after Y k old rows ≡ after Y k old' rows
  unfolding after
  after-touched old old' [] h = cc
  after-touched old old' (x ∷ xs) h = elim (Bool-cases (has_key Y k x)) [
    | inl hit ↦ rw hit
    | inr miss ↦ rw miss (after-touched old old' xs (ground arith))
  ]

any-append {ℓ} :
    {A : Type ℓ} (p : A → Bool) (xs ys : List A) → any p (xs ++ ys) ≡ (any p xs || any p ys)
any-append p [] ys = refl
any-append p (x ∷ xs) ys = ground (arith, any-append p xs ys)

module _ (Y : Layout) (h : History) (k : ℤ) where
  -- The table as of the end of a window is the table before it with the window's events applied.
  pub as_of-events_from :
      (base count : ℕ)
      → as_of Y h (base + count) k ≡ after Y k (as_of Y h base k) (events_from h (suc base) count)
  unfolding as_of events_from after
  as_of-events_from base zero = let e : base + 0 ≡ base = omega arith in rw e
  as_of-events_from base (suc count) =
      let e : base + suc count ≡ suc base + count = omega arith in
      rw e (
        as_of-events_from (suc base) count
        ∙ sym (after-append Y k (as_of Y h base k) (h.events_at (suc base)) _))

  -- Through a window that does not touch the key, the table keeps its image.
  pub as_of-untouched :
      (base count j : ℕ)
      → any (has_key Y k) (events_from h (suc base) count) ≡ false
      → j ≤ count
      → as_of Y h (base + j) k ≡ as_of Y h base k
  unfolding as_of events_from
  as_of-untouched base count zero u le = let e : base + 0 ≡ base = omega arith in rw e
  as_of-untouched base zero (suc j) u le = absurd (omega arith)
  as_of-untouched base (suc count) (suc j) u le =
      let split : any (has_key Y k) (h.events_at (suc base) ++ events_from h (suc (suc base)) count)
          ≡ _ =
        any-append (has_key Y k) (h.events_at (suc base)) (events_from h (suc (suc base)) count) in
      let e : base + suc j ≡ suc base + j = omega arith in
      rw e (
        as_of-untouched (suc base) count j (ground (arith, split)) (omega arith)
        ∙ after-untouched Y k (as_of Y h base k) (h.events_at (suc base)) (ground (arith, split)))
