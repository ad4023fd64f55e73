-- ===== src/Exec/Ensures.antt =====
-- What holds of a call wherever it returns, with a rule for each way to build one.
use pydblog.Prelude.{Option, none, some, ◌≡◌, ap, Bool, true, false, refl, if◌then◌else◌}
use pydblog.Exec.{Result, ok, err, Exec, lift, continue, ◌>>=◌}

module _ {S A : Type 0} where
  -- `Q` of the value and of the source that the call leaves, if it returned.
  abbrev pub Ensures : (A → S → Type 0) → Result A × S → Type 0
  Ensures Q (ok a, s) = Q a s
  Ensures Q (err e, s) = Unit

  pub Ensures-elim :
      (Q : A → S → Type 0) (p : Result A × S) (a : A) (s : S) → p ≡ (ok a, s) → Ensures Q p → Q a s
  Ensures-elim Q p a s e h = rw e at h

  pub Ensures-if :
      (Q : A → S → Type 0) (b : Bool) (m n : Exec S A) (s : S)
      → (b ≡ true → Ensures Q (m s))
      → (b ≡ false → Ensures Q (n s))
      → Ensures Q ((if b then m else n) s)
  Ensures-if Q true m n s hm hn = hm refl
  Ensures-if Q false m n s hm hn = hn refl

  -- A step that asks whether there is a value.
  pub Ensures-option :
      {B : Type 0} (Q : A → S → Type 0) (o : Option B) (m : Exec S A) (f : B → Exec S A) (s : S)
      → (o ≡ none → Ensures Q (m s))
      → ((b : B) → o ≡ some b → Ensures Q (f b s))
      → Ensures Q ((elim o as (λ _. Exec S A) [ none ↦ m | some b ↦ f b ]) s)
  Ensures-option Q none m f s h k = h refl
  Ensures-option Q (some b) m f s h k = k b refl

  pub Ensures-map :
      (Q R : A → S → Type 0) (p : Result A × S)
      → Ensures Q p
      → ((a : A) (s : S) → Q a s → R a s)
      → Ensures R p
  Ensures-map Q R (ok a, s) h f = f a s h
  Ensures-map Q R (err e, s) h f = tt

module _ {S A B : Type 0} where
  through :
      (R : A → S → Type 0) (Q : B → S → Type 0) (f : A → Exec S B) (p : Result A × S)
      → Ensures R p
      → ((a : A) (t : S) → p ≡ (ok a, t) → R a t → Ensures Q (f a t))
      → Ensures Q (continue p.0 f p.1)
  through R Q f (ok a, t) h k = k a t refl h
  through R Q f (err e, t) h k = tt

  -- The rest of a block may use what the first call ensures, and that it returned.
  pub Ensures-bind :
      (R : A → S → Type 0) (Q : B → S → Type 0) (m : Exec S A) (f : A → Exec S B) (s : S)
      → Ensures R (m s)
      → ((a : A) (t : S) → m s ≡ (ok a, t) → R a t → Ensures Q (f a t))
      → Ensures Q ((m >>= f) s)
  unfolding ◌>>=◌
  Ensures-bind R Q m f s h k = through R Q f (m s) h k

  -- The same where nothing but the call's own answer is needed.
  pub Ensures-then :
      (Q : B → S → Type 0) (m : Exec S A) (f : A → Exec S B) (s : S)
      → ((a : A) (t : S) → m s ≡ (ok a, t) → Ensures Q (f a t))
      → Ensures Q ((m >>= f) s)
  unfolding ◌>>=◌
  Ensures-then Q m f s k = through (λ _ _. Unit {0}) Q f (m s) (trivial (m s)) (λ a t e _. k a t e)
    where
      trivial : (p : Result A × S) → Ensures (λ _ _. Unit {0}) p
      trivial (ok a, t) = tt
      trivial (err e, t) = tt

module _ {S A : Type 0} where
  pub Ensures-intro :
      (Q : A → S → Type 0) (p : Result A × S)
      → ((a : A) (u : S) → p ≡ (ok a, u) → Q a u)
      → Ensures Q p
  Ensures-intro Q (ok a, u) k = k a u refl
  Ensures-intro Q (err e, u) k = tt

  -- A pure step of a block.
  pub lift-eq-ok : (r : Result A) (s u : S) (a : A) → lift r s ≡ (ok a, u) → (r ≡ ok a) × (s ≡ u)
  lift-eq-ok r s u a e = (ap (λ p. p.0) e, ap (λ p. p.1) e)
