-- ===== src/Exec/Outcome.antt =====
-- What holds of a call however it ends, and of the errors that it raises.
use pydblog.Prelude.{String, ◌≡◌, refl}
use pydblog.Exec.{Class, Error, Result, ok, err, Exec, continue, ◌>>=◌, source_failure}

-- Errors of code outside the repository only.
abbrev pub IsForeign : Error → Type 0
IsForeign e = (c : Class) × (text : String) × (e ≡ source_failure c text)

abbrev pub Foreign : {A : Type 0} → Result A → Type 0
Foreign (ok a) = Unit
Foreign (err e) = IsForeign e

module _ {S A B : Type 0} where
  ended :
      (P : Result A → S → Type 0) (Q : Result B → S → Type 0) (f : A → Exec S B) (p : Result A × S)
      → P p.0 p.1
      → ((e : Error) (t : S) → P (err e) t → Q (err e) t)
      → ((a : A) (t : S) → p ≡ (ok a, t) → P (ok a) t → Q (f a t).0 (f a t).1)
      → Q (continue p.0 f p.1).0 (continue p.0 f p.1).1
  ended P Q f (ok a, t) h raised returned = returned a t refl h
  ended P Q f (err e, t) h raised returned = raised e t h

  -- A block: what its first part raised, or what the rest made of its value.
  pub Outcome-bind :
      (P : Result A → S → Type 0) (Q : Result B → S → Type 0) (m : Exec S A) (f : A → Exec S B)
      (s : S)
      → P (m s).0 (m s).1
      → ((e : Error) (t : S) → P (err e) t → Q (err e) t)
      → ((a : A) (t : S) → m s ≡ (ok a, t) → P (ok a) t → Q (f a t).0 (f a t).1)
      → Q ((m >>= f) s).0 ((m >>= f) s).1
  unfolding ◌>>=◌
  Outcome-bind P Q m f s h raised returned = ended P Q f (m s) h raised returned
