-- ===== src/Exec.antt =====
-- The exceptions that the library raises, and calls that may raise and that move the source on.
-- A message is kept as its error's arguments; its wording is not modelled.
pub mod Ensures
pub mod Outcome
use mathlib.Core.Path.{◌≡◌, refl, ap}
use pydblog.Prelude.{ℕ, String, List, [], ◌∷◌}
use pydblog.Prelude.Int.{ℤ}

-- Python's exception classes, as far as a caller of the library can tell them apart.
pub data Class : Type 0 where
  value_error type_error index_error overflow_error timeout_error runtime_error : Class
  cdc_retention_expired_error schema_changed_error other_error : Class

-- One constructor for each place that raises.
pub data Error : Type 0 where
  no_capture_instance : String → Error
  foreign_state : String → String → Error
  chunk_size_below_one : ℤ → Error
  leading_key_repeats : String → Error
  leading_key_not_integer : String → Error
  index_out_of_range : Error
  naive_and_aware : Error
  retention_expired : String → List ℕ → List ℕ → Error
  rekeyed : String → Error
  recaptured : String → String → Error
  lsn_width : ℕ → Error
  lsn_maximum : List ℕ → Error
  hex_text : Error
  no_arrow_type : String → String → Error
  column_gone : String → String → Error
  column_drifted : String → String → Error
  key_not_captured : String → String → Error
  key_computed : String → String → Error
  name_reserved : String → String → Error
  invalid_identifier : String → String → Error
  bad_pagination : String → Error
  connection_missing : Error
  no_min_lsn : String → Error
  no_max_lsn : Error
  no_primary_key : String → Error
  not_captured : String → Error
  no_watermark : Error
  capture_timeout : ℕ → Error
  no_key_columns : String → Error
  no_business_columns : String → Error
  negative_limit : ℤ → Error
  inverted_bounds : ℤ → ℤ → Error
  non_integer_key : String → Error
  names_repeat : String → List String → Error
  names_differ : String → List String → List String → Error
  cast_failed : String → String → Error
  unknown_source_type : String → Error
  source_undefined : Error
  argument_twice : Error
  -- a cell of another type than the column that was asked for, which the driver never hands out
  ill_typed_answer : Error
  -- the model's bound on the polls of the capture barrier; the code has no such error
  out_of_rounds : Error
  source_failure : Class → String → Error

abbrev pub class_of : Error → Class
class_of (no_capture_instance _) = value_error
class_of (foreign_state _ _) = value_error
class_of (chunk_size_below_one _) = value_error
class_of (leading_key_repeats _) = value_error
class_of (leading_key_not_integer _) = type_error
class_of index_out_of_range = index_error
class_of naive_and_aware = type_error
class_of (retention_expired _ _ _) = cdc_retention_expired_error
class_of (rekeyed _) = schema_changed_error
class_of (recaptured _ _) = schema_changed_error
class_of (lsn_width _) = value_error
class_of (lsn_maximum _) = value_error
class_of hex_text = value_error
class_of (no_arrow_type _ _) = value_error
class_of (column_gone _ _) = value_error
class_of (column_drifted _ _) = value_error
class_of (key_not_captured _ _) = value_error
class_of (key_computed _ _) = value_error
class_of (name_reserved _ _) = value_error
class_of (invalid_identifier _ _) = value_error
class_of (bad_pagination _) = value_error
class_of connection_missing = runtime_error
class_of (no_min_lsn _) = value_error
class_of no_max_lsn = value_error
class_of (no_primary_key _) = value_error
class_of (not_captured _) = value_error
class_of no_watermark = runtime_error
class_of (capture_timeout _) = timeout_error
class_of (no_key_columns _) = value_error
class_of (no_business_columns _) = value_error
class_of (negative_limit _) = value_error
class_of (inverted_bounds _ _) = value_error
class_of (non_integer_key _) = value_error
class_of (names_repeat _ _) = value_error
class_of (names_differ _ _ _) = value_error
class_of (cast_failed _ _) = value_error
class_of (unknown_source_type _) = value_error
class_of source_undefined = other_error
class_of argument_twice = type_error
class_of ill_typed_answer = type_error
class_of out_of_rounds = other_error
class_of (source_failure c _) = c

pub data Result {ℓ} (A : Type ℓ) : Type ℓ where
  ok : A → Result A
  err : Error → Result A

pub err_ne_ok {ℓ} : {A : Type ℓ} (e : Error) (a : A) → Result.err e ≡ ok a → ⊥
err_ne_ok e a h = cc

-- The rest of a pure computation, where the first part returned.
abbrev pub and_then : {A B : Type 0} → Result A → (A → Result B) → Result B
and_then (ok a) f = f a
and_then (err e) f = err e

-- The same where the first part returns nothing of interest.
abbrev pub and_also : {A B : Type 0} → Result A → Result B → Result B
and_also r q = and_then r λ _. q

pub and_then-eq-ok :
    {A B : Type 0} (r : Result A) (f : A → Result B) (b : B)
    → and_then r f ≡ ok b
    → (a : A) × (r ≡ ok a) × (f a ≡ ok b)
and_then-eq-ok (ok a) f b h = (a, refl, h)
and_then-eq-ok (err e) f b h = cc

-- A list comprehension whose items may raise.
abbrev pub collect : {A B : Type 0} → (A → Result B) → List A → Result (List B)
collect f [] = ok []
collect f (x ∷ xs) = let rest = collect f xs in and_then (f x) λ y. and_then rest λ ys. ok (y ∷ ys)

-- A call: what it returns or raises, and the source as it then stands. What was done before a
-- raise stays done.
abbrev pub Exec : Type 0 → Type 0 → Type 0
Exec S A = S → Result A × S

module _ {S A : Type 0} where
  abbrev pub pure : A → Exec S A
  pure a s = (ok a, s)

  abbrev pub raise : Error → Exec S A
  raise e s = (err e, s)

  abbrev pub lift : Result A → Exec S A
  lift r s = (r, s)

module _ {S A B : Type 0} where
  abbrev pub continue : Result A → (A → Exec S B) → Exec S B
  continue (ok a) f s = f a s
  continue (err e) f s = (err e, s)

  infixl 5 ◌>>=◌ ◌>>◌
  unfoldable pub ◌>>=◌ : Exec S A → (A → Exec S B) → Exec S B
  ◌>>=◌ m f s = let (r, s') = m s in continue r f s'

  abbrev pub ◌>>◌ : Exec S A → Exec S B → Exec S B
  m >> n = m >>= λ _. n

  -- A call that returned: its first part returned, and the rest returned from where that left.
  pub bind-eq-ok :
      (m : Exec S A) (f : A → Exec S B) {s u : S} {b : B}
      → (m >>= f) s ≡ (ok b, u)
      → (a : A) × (t : S) × (m s ≡ (ok a, t)) × (f a t ≡ (ok b, u))
  unfolding ◌>>=◌
  bind-eq-ok m f {s} {u} {b} h = split (m s) refl h
    where
      split :
          (p : Result A × S)
          → m s ≡ p
          → continue p.0 f p.1 ≡ (ok b, u)
          → (a : A) × (t : S) × (m s ≡ (ok a, t)) × (f a t ≡ (ok b, u))
      split (ok a, t) e g = (a, t, e, g)
      split (err x, t) e g = absurd (err_ne_ok x b (ap (λ p. p.0) g))
