-- ===== src/Dblog/Calls.antt =====
-- What a call of `dblog()` and of `state_at_lsn()` refuses, and what it leaves alone.
use pydblog.Prelude.{
  ℕ, ◌≡◌, refl, sym, ap, ◌∙◌, inl, inr, String, Bool, true, false, Option, none, some, Bool-cases,
  if◌then◌else◌,
}
use pydblog.Prelude.Int.{ℤ, pos, ltb_ℤ}
use pydblog.Exec.{Result, ok, err, err_ne_ok, Exec, continue, lift, ◌>>=◌, bind-eq-ok}
use pydblog.Exec.Ensures.{
  Ensures, Ensures-bind, Ensures-then, Ensures-map, Ensures-elim, lift-eq-ok,
}
use pydblog.Types.{TableSpec}
use pydblog.Lsn.{Lsn, lt_bytes}
use pydblog.State.{aware, RunState, run_state, BatchResult}
use pydblog.Frame.{Frame, Polars}
use pydblog.Connector.{SourceConnector, Host, now}
use pydblog.Dblog.{opening_state, tail_batch, dump_batch, dblog, state_at_lsn}
use pydblog.Dblog.Guards.{require_capture_instance, check_table, refresh_spec, check_retention}
use pydblog.Dblog.Guards.Schema.{Refreshed, refresh_spec-Refreshed}
use pydblog.Dblog.Window.{read_window}

module _ {S A : Type 0} where
  if_true : (b : Bool) (m n : Exec S A) (s : S) → b ≡ true → (if b then m else n) s ≡ m s
  if_true b m n s e = rw e refl

module _ {S A B : Type 0} where
  continue_congr :
      (f g : A → Exec S B) (p : Result A × S)
      → Ensures (λ a t. f a t ≡ g a t) p
      → continue p.0 f p.1 ≡ continue p.0 g p.1
  continue_congr f g (ok a, t) h = h
  continue_congr f g (err e, t) h = refl

  -- Two ways to go on that agree wherever the first part can lead.
  bind_congr :
      (m : Exec S A) (f g : A → Exec S B) (s : S)
      → Ensures (λ a t. f a t ≡ g a t) (m s)
      → (m >>= f) s ≡ (m >>= g) s
  unfolding ◌>>=◌
  bind_congr m f g s h = continue_congr f g (m s) h

module _ {S : Type 0} (C : SourceConnector S) (H : Host S) where
  -- The log still holds what the position asks for: asked in `asked` for the floor of the capture
  -- instance of the spec, the source answered with one that the position is not before.
  pub record IsRetained (spec : TableSpec) (lsn : Lsn) (asked left : S) : Type 0 where
    pub capture_instance : String
    pub captured : require_capture_instance spec ≡ ok capture_instance
    pub floor : Lsn
    pub answered : C.get_min_lsn capture_instance asked ≡ (ok floor, left)
    pub held : lt_bytes lsn floor ≡ false

  check_retention-IsRetained :
      (st : RunState) (name : String) (s : S)
      → require_capture_instance st.spec ≡ ok name
      → Ensures (λ _ u. IsRetained st.spec st.last_lsn s u) (check_retention C st name s)
  unfolding check_retention
  check_retention-IsRetained st name s named =
      Ensures-then (λ _ u. IsRetained st.spec st.last_lsn s u) (C.get_min_lsn name) _ s
        λ floor u e. elim (Bool-cases (lt_bytes st.last_lsn floor)) [
          | inl expired ↦ rw expired tt
          | inr held ↦
              let kept : IsRetained st.spec st.last_lsn s u = record {
                capture_instance = name;
                captured = named;
                floor = floor;
                answered = e;
                held = held;
              } in
              rw held kept
        ]

  -- What a given state is once the checks let it through, in the state that they leave the source in:
  -- the spec is read again, and then the log is asked for its floor.
  pub record IsChecked (given : RunState) (every : Option ℤ) (s : S) (kept : RunState) (left : S)
      : Type 0 where
    pub asked : S
    pub refresh : refresh_spec C H given every s ≡ (ok kept, asked)
    pub refreshed : Refreshed given kept
    pub retained : IsRetained kept.spec given.last_lsn asked left

  opening_state-IsChecked :
      (schema table : String) (given : RunState) (every : Option ℤ) (s : S)
      → Ensures
          (λ kept left. IsChecked given every s kept left)
          (opening_state C H schema table (some given) every s)
  unfolding opening_state
  opening_state-IsChecked schema table given every s =
      let Q : RunState → S → Type 0 = λ kept left. IsChecked given every s kept left in
      Ensures-then Q (lift (check_table given schema table)) _ s λ _ s₁ e₁.
        Ensures-bind (λ kept _. Refreshed given kept) Q (refresh_spec C H given every) _ s₁
          (refresh_spec-Refreshed C H given every s₁)
          λ st s₂ e₂ refreshed.
            Ensures-then Q (lift (require_capture_instance st.spec)) _ s₂ λ name s₃ e₃.
              let (_, unmoved) = lift-eq-ok (check_table given schema table) s s₁ _ e₁ in
              let (named, still) = lift-eq-ok (require_capture_instance st.spec) s₂ s₃ name e₃ in
              Ensures-bind (λ _ u. IsRetained st.spec st.last_lsn s₃ u) Q
                (check_retention C st name) _ s₃ (check_retention-IsRetained st name s₃ named)
                λ _ u e retained. record {
                  asked = s₃;
                  refresh = rw (unmoved, ← still) e₂;
                  refreshed = refreshed;
                  retained = rw (← refreshed.last_lsn) retained;
                }

module _ {S : Type 0} (C : SourceConnector S) (H : Host S) (P : Polars) where
  -- Where a call from a given state returns, it first read the spec again as it had to, then asked the
  -- source for the floor of the capture instance of that spec and got one that the position of the given
  -- state is not before, and what it hands back is the batch that is read from there.
  pub dblog-IsRetained :
      (schema table : String) (given : RunState) (size : ℤ) (every : Option ℤ) (s u : S)
      (r : BatchResult)
      → dblog C H P schema table (some given) size every s ≡ (ok r, u)
      → (kept : RunState) × (asked left : S) × (refresh_spec C H given every s ≡ (ok kept, asked))
        × IsRetained C H kept.spec given.last_lsn asked left
        × ((if kept.dump_done then tail_batch C P kept else dump_batch C P size kept) left
            ≡ (ok r, u))
  unfolding dblog
  dblog-IsRetained schema table given size every s u r e = elim (Bool-cases (ltb_ℤ size (pos 1))) [
    | inl small ↦ absurd (err_ne_ok _ r (ap (λ p. p.0) (rw small at e)))
    | inr enough ↦
        let (kept, t, opened, rest) =
          bind-eq-ok (opening_state C H schema table (some given) every) _ (rw enough at e) in
        let checked =
          Ensures-elim (λ kept left. IsChecked C H given every s kept left) _ kept t opened
            (opening_state-IsChecked C H schema table given every s) in
        (kept, checked.asked, t, checked.refresh, checked.retained, rest)
  ]

  -- From a state whose dump is done, `dblog` reads no table, stamps nothing and takes no watermark:
  -- with any other answers to those calls it returns or raises the same and leaves the same source.
  pub dblog-table_unread :
      (read_table : TableSpec → Option ℤ → Option ℤ → ℤ → Exec S Frame) (watermark : Exec S ℕ)
      (await_watermark : ℕ → Exec S (Unit {0})) (to_events : Frame → TableSpec → ℕ → Result Frame)
      (schema table : String) (given : RunState) (size : ℤ) (every : Option ℤ) (s : S)
      → given.dump_done ≡ true
      → dblog
          (record C {
            read_table = read_table;
            watermark = watermark;
            await_watermark = await_watermark;
            to_events = to_events;
          })
          H
          P
          schema
          table
          (some given)
          size
          every
          s
        ≡ dblog C H P schema table (some given) size every s
  unfolding dblog tail_batch read_window opening_state refresh_spec check_retention
  dblog-table_unread read_table watermark await_watermark to_events schema table given size every s
        done =
      elim (Bool-cases (ltb_ℤ size (pos 1))) [
        | inl small ↦ rw small refl
        | inr enough ↦ rw enough (
            bind_congr (opening_state C H schema table (some given) every) _ _ s (
              Ensures-map (λ kept t. IsChecked C H given every s kept t) _ _
                (opening_state-IsChecked C H schema table given every s)
                λ kept t checked.
                  let tailing = checked.refreshed.dump_done ∙ done in
                  if_true kept.dump_done _ _ t tailing
                  ∙ sym (if_true kept.dump_done _ _ t tailing)))
      ]

  -- Where `state_at_lsn` returns, it described the table, read the clock, and then asked the source for
  -- the floor of the capture instance of that description and got one that the position is not before;
  -- the state has that position, that spec, that time in UTC, no chunk key and the mark of the dump that
  -- was asked for.
  pub state_at_lsn-eq-ok :
      (schema table : String) (from_lsn : Lsn) (done : Bool) (s u : S) (st : RunState)
      → state_at_lsn C H schema table from_lsn done s ≡ (ok st, u)
      → (moment : ℕ) × (described asked : S) × (C.inspect schema table s ≡ (ok st.spec, described))
        × (H.utc_now described ≡ (moment, asked))
        × IsRetained C H st.spec from_lsn asked u
        × (st ≡ run_state st.spec from_lsn (aware moment) none done)
  unfolding state_at_lsn run_state
  state_at_lsn-eq-ok schema table from_lsn done s u st e = Ensures-elim Built _ st u e (
      Ensures-then Built (C.inspect schema table) _ s λ spec s₁ e₁.
        Ensures-then Built (lift (require_capture_instance spec)) _ s₁ λ name s₂ e₂.
          Ensures-then Built (now H) _ s₂ λ moment s₃ e₃.
            let (named, still) = lift-eq-ok (require_capture_instance spec) s₁ s₂ name e₂ in
            let time : (H.utc_now s₂).0 ≡ moment = cc in
            let left : (H.utc_now s₂).1 ≡ s₃ = ap (λ p. p.1) e₃ in
            let read : H.utc_now s₂ ≡ (moment, s₃) = cc in
            Ensures-bind (λ _ v. IsRetained C H spec from_lsn s₃ v) Built
              (check_retention C (run_state spec from_lsn (aware moment) none done) name) _ s₃
              (check_retention-IsRetained C H (run_state spec from_lsn (aware moment) none done)
                name s₃ named)
              λ _ t e₄ retained. (moment, s₁, s₃, e₁, rw still read, retained, refl))
    where
      Built : RunState → S → Type 0
      Built kept v =
          (moment : ℕ) × (described asked : S) × (C.inspect schema table s
            ≡ (ok kept.spec, described))
          × (H.utc_now described ≡ (moment, asked))
          × IsRetained C H kept.spec from_lsn asked v
          × (kept ≡ run_state kept.spec from_lsn (aware moment) none done)
