-- ===== src/Dblog/Guards/Schema.antt =====
-- `_refresh_spec`: the state that it returns beside the one that it is given.
use text.Mathlib.Text.{◌==◌ as str_eq}
use text.Mathlib.TextEquality.{eq_iff}
use pydblog.Prelude.{String, ◌≡◌, refl, sym, true, Option, none, some, List, [], ◌∷◌, arith}
use pydblog.Prelude.Int.{ℤ}
use pydblog.Exec.{ok, ◌>>=◌}
use pydblog.Types.{TableSpec, eq_list, eq_column, business_columns}
use pydblog.Types.Equality.{eq_columns_refl, eq_columns-names}
use pydblog.State.{Datetime, RunState}
use pydblog.Exec.Ensures.{Ensures, Ensures-elim}
use pydblog.Connector.{SourceConnector, Host}
use pydblog.Dblog.Guards.{adopt_spec, refresh_spec}

eq_names_sound : (a b : List String) → eq_list str_eq a b ≡ true → a ≡ b
eq_names_sound [] [] h = refl
eq_names_sound [] (y ∷ ys) h = cc
eq_names_sound (x ∷ xs) [] h = cc
eq_names_sound (x ∷ xs) (y ∷ ys) h = ground (arith, eq_iff x y, eq_names_sound xs ys)

-- What makes the frames of two specs stack: the same keys, and columns that read back alike.
pub record SameFrames (a b : TableSpec) : Type 0 where
  pub keys : a.pk_columns ≡ b.pk_columns
  pub captured : eq_list eq_column a.captured_columns b.captured_columns ≡ true

-- `_refresh_spec` leaves the position and the walk of the state alone, and its spec at most
-- replaced by one of the same frames.
pub record Refreshed (given kept : RunState) : Type 0 where
  pub frames : SameFrames given.spec kept.spec
  pub last_lsn : kept.last_lsn ≡ given.last_lsn
  pub chunk_key : kept.chunk_key ≡ given.chunk_key
  pub dump_done : kept.dump_done ≡ given.dump_done

pub Refreshed-refl : (state : RunState) → Refreshed state state
Refreshed-refl state = record {
  frames = record { keys = refl; captured = eq_columns_refl state.spec.captured_columns };
  last_lsn = refl;
  chunk_key = refl;
  dump_done = refl;
}

module _ {S : Type 0} (C : SourceConnector S) (H : Host S) where
  adopt_spec-Refreshed :
      (state : RunState) (fresh : TableSpec) (t : Datetime) (s : S)
      → Ensures (λ kept _. Refreshed state kept) (adopt_spec C H state fresh t s)
  unfolding adopt_spec ◌>>=◌
  adopt_spec-Refreshed state fresh t s =
      ground (arith, eq_names_sound state.spec.pk_columns fresh.pk_columns)

  pub refresh_spec-Refreshed :
      (state : RunState) (inspect_every : Option ℤ) (s : S)
      → Ensures (λ kept _. Refreshed state kept) (refresh_spec C H state inspect_every s)
  unfolding refresh_spec ◌>>=◌
  refresh_spec-Refreshed state none s = Refreshed-refl state
  refresh_spec-Refreshed state (some every) s = grind (arith, Refreshed-refl state, eq_names_sound)

-- Whatever the source answers, a state that `_refresh_spec` returns has the position, the chunk key
-- and the walk of the state it was given, the same primary key columns, and captured columns that
-- are equal one by one, so that their names are the same in the same order.
pub refresh_spec-frames :
    {S : Type 0} (C : SourceConnector S) (H : Host S) (state kept : RunState)
    (inspect_every : Option ℤ) (s u : S)
    → refresh_spec C H state inspect_every s ≡ (ok kept, u)
    → Refreshed state kept × (business_columns kept.spec ≡ business_columns state.spec)
refresh_spec-frames C H state kept every s u e =
    let r = Ensures-elim _ _ kept u e (refresh_spec-Refreshed C H state every s) in
    (r, sym (eq_columns-names _ _ r.frames.captured))
