-- ===== src/Dblog/Converge/Opening.antt =====
-- The state that a call works on: a fresh one, or the given one with its spec perhaps read again.
use native.Mathlib.Nat.{le_trans, le_refl}
use pydblog.Prelude.{
  ℕ, ◌-◌, ◌≤◌, ◌<◌, ◌≡◌, refl, inl, inr, false, Option, none, some, String, Bool-cases, arith,
}
use text.Mathlib.Text.{◌==◌ as str_eq}
use pydblog.Prelude.Int.{ℤ, ltb_ℤ}
use pydblog.Exec.{◌>>=◌, ◌>>◌, lift}
use pydblog.Exec.Ensures.{Ensures, Ensures-bind, Ensures-then, Ensures-map, lift-eq-ok}
use pydblog.Types.{TableSpec, eq_list, eq_column, qualified_name}
use pydblog.Lsn.{Lsn, lt_bytes, max_bytes, int_from_bytes, IsLsn}
use pydblog.Lsn.Order.{max_bytes-IsLarger}
use mathlib.Core.Bool.{false≢true}
use pydblog.State.{Datetime, aware, sub_datetime, RunState, run_state}
use pydblog.Connector.{SourceConnector, Host, now, warning, full_dump}
use pydblog.Source.{Layout, History, as_of}
use pydblog.Source.Contract.{Ghost, IsFaithful, IsKeyed, position_mono}
use pydblog.Dblog.{seed, opening_state}
use pydblog.Dblog.Guards.{
  require_capture_instance, check_table, adopt_spec, refresh_spec, check_retention,
}
use pydblog.Dblog.Converge.Page.{Walked}
use pydblog.Dblog.Converge.Tail.{Copy, IsCurrent}

module _ {S : Type 0} (C : SourceConnector S) (H : Host S) (Y : Layout) (h : History) (G : Ghost S)
    (F : IsFaithful C H Y h G) where
  -- The position and the walk of the state are the same, and its spec is one of the table's.
  record IsRenewed (given : RunState) (s : S) (kept : RunState) (u : S) : Type 0 where
    rest : kept ≡ record given { spec = kept.spec; last_inspect = kept.last_inspect }
    keyed : IsKeyed Y G kept.spec
    later : G.position s ≤ G.position u

  adopt_spec-IsRenewed :
      (given : RunState) (fresh : TableSpec) (t : Datetime) (s : S)
      → IsKeyed Y G fresh
      → Ensures (IsRenewed given s) (adopt_spec C H given fresh t s)
  unfolding adopt_spec ◌>>=◌
  adopt_spec-IsRenewed given fresh t s keyed =
      elim (Bool-cases (eq_list str_eq given.spec.pk_columns fresh.pk_columns)) [
        | inr other ↦ rw other tt
        | inl same ↦
            rw same
              (elim (Bool-cases
                (eq_list eq_column given.spec.captured_columns fresh.captured_columns)) [
                  | inr other ↦ rw other tt
                  | inl alike ↦
                      rw alike
                        (elim (Bool-cases (eq_list eq_column given.spec.columns fresh.columns)) [
                          | inr drifted ↦
                              rw drifted
                                (record { rest = refl; keyed = keyed; later = F.later_warn _ s })
                          | inl steady ↦ rw steady (record {
                            rest = refl;
                            keyed = keyed;
                            later = le_refl (G.position s);
                          })
                        ])
                ])
      ]

  refresh_spec-IsRenewed :
      (given : RunState) (every : Option ℤ) (s : S)
      → IsKeyed Y G given.spec
      → Ensures (IsRenewed given s) (refresh_spec C H given every s)
  unfolding refresh_spec
  refresh_spec-IsRenewed given none s keyed = record {
    rest = refl;
    keyed = keyed;
    later = le_refl (G.position s);
  }
  refresh_spec-IsRenewed given (some every) s keyed =
      Ensures-then (IsRenewed given s) (now H) _ s λ moment s₁ e₁.
        let to₁ = position_mono G s s₁ moment (now H s) e₁ (F.later_now s) in
        Ensures-then (IsRenewed given s) (lift (sub_datetime (aware moment) given.last_inspect)) _
          s₁
          λ age s₂ e₂.
            let (made, same) = lift-eq-ok _ s₁ s₂ age e₂ in
            rw (← same) (elim (Bool-cases (ltb_ℤ age every)) [
              | inl young ↦ rw young (record { rest = refl; keyed = keyed; later = to₁ })
              | inr stale ↦ rw stale (reread moment s₁ to₁)
            ])
    where
      reread :
          (moment : ℕ) (t : S)
          → G.position s ≤ G.position t
          → Ensures (IsRenewed given s) (
              (do
                fresh ← C.inspect given.spec.source_schema given.spec.source_table
                lift (require_capture_instance fresh)
                adopt_spec C H given fresh (aware moment))
                t)
      reread moment t to =
          Ensures-then (IsRenewed given s)
            (C.inspect given.spec.source_schema given.spec.source_table) _ t
            λ fresh u e.
              let later =
                position_mono G t u fresh _ e
                  (F.later_inspect given.spec.source_schema given.spec.source_table t) in
              Ensures-then (IsRenewed given s) (lift (require_capture_instance fresh)) _ u λ _ v e'.
                let (_, same) = lift-eq-ok _ u v _ e' in
                rw (← same) (
                  Ensures-map (IsRenewed given u) (IsRenewed given s) _
                    (adopt_spec-IsRenewed given fresh (aware moment) u
                      (F.inspected given.spec.source_schema given.spec.source_table t u fresh e))
                    λ kept w renewed. record {
                      rest = renewed.rest;
                      keyed = renewed.keyed;
                      later = le_trans to (le_trans later renewed.later);
                    })

  check_retention-later :
      (st : RunState) (name : String) (s : S)
      → Ensures (λ _ u. G.position s ≤ G.position u) (check_retention C st name s)
  unfolding check_retention
  check_retention-later st name s =
      Ensures-then (λ _ u. G.position s ≤ G.position u) (C.get_min_lsn name) _ s
        λ floor u e. elim (Bool-cases (lt_bytes st.last_lsn floor)) [
          | inl expired ↦ rw expired tt
          | inr retained ↦
              rw retained (position_mono G s u floor (C.get_min_lsn name s) e (F.later_min name s))
        ]

  renewed-IsCurrent :
      (given kept : RunState) (copy : Copy) (s u : S)
      → IsCurrent Y h G s given copy
      → IsRenewed given s kept u
      → IsCurrent Y h G u kept copy
  renewed-IsCurrent given kept copy s u now renewed = record {
    keyed = renewed.keyed;
    lsn = rw renewed.rest now.lsn;
    base = now.base;
    opens = rw renewed.rest now.opens;
    behind = le_trans now.behind renewed.later;
    known = now.known;
    walked = λ k walked. now.walked k (rw renewed.rest at walked);
  }

  pub later-IsCurrent :
      (st : RunState) (copy : Copy) (s u : S)
      → IsCurrent Y h G s st copy
      → G.position s ≤ G.position u
      → IsCurrent Y h G u st copy
  later-IsCurrent st copy s u now later = record {
    keyed = now.keyed;
    lsn = now.lsn;
    base = now.base;
    opens = now.opens;
    behind = le_trans now.behind later;
    known = now.known;
    walked = now.walked;
  }

  pub given_state-IsCurrent :
      (schema table : String) (given : RunState) (every : Option ℤ) (copy : Copy) (s : S)
      → IsCurrent Y h G s given copy
      → Ensures
          (λ st u. IsCurrent Y h G u st copy)
          (opening_state C H schema table (some given) every s)
  unfolding opening_state
  given_state-IsCurrent schema table given every copy s now =
      let Q : RunState → S → Type 0 = λ st u. IsCurrent Y h G u st copy in
      Ensures-then Q (lift (check_table given schema table)) _ s λ _ s₁ e₁.
        let (_, same₁) = lift-eq-ok _ s s₁ _ e₁ in
        rw (← same₁) (
          Ensures-bind (IsRenewed given s) Q (refresh_spec C H given every) _ s
            (refresh_spec-IsRenewed given every s now.keyed)
            λ st s₂ e₂ renewed.
              Ensures-then Q (lift (require_capture_instance st.spec)) _ s₂ λ name s₃ e₃.
                let (_, same₃) = lift-eq-ok _ s₂ s₃ name e₃ in
                rw (← same₃) (
                  Ensures-bind (λ _ u. G.position s₂ ≤ G.position u) Q (check_retention C st name) _
                    s₂ (check_retention-later st name s₂)
                    λ _ u e later.
                      later-IsCurrent st copy s₂ u
                        (renewed-IsCurrent given st copy s s₂ now renewed) later))

  -- A fresh run opens at a position that the source has issued, and a consumer knows nothing yet.
  seed_state :
      (spec : TableSpec) (reached floor : Lsn) (moment : ℕ) (s : S)
      → IsKeyed Y G spec
      → IsLsn reached
      → IsLsn floor
      → 0 < int_from_bytes floor
      → int_from_bytes floor ≤ G.position s
      → int_from_bytes reached ≤ G.position s
      → IsCurrent Y h G s
          (run_state spec (max_bytes reached floor) (aware moment) none false)
          (λ _. none)
  unfolding run_state
  seed_state spec reached floor moment s keyed rl fl positive fp rp =
      let larger = max_bytes-IsLarger reached floor rl fl in
      let opening : ℕ = int_from_bytes (max_bytes reached floor) in
      record {
        keyed = keyed;
        lsn = larger.is_lsn;
        base = opening - 1;
        opens = omega (arith, larger.second_le, positive);
        behind = omega (arith, larger.one_of, fp, rp);
        known = λ k. inr refl;
        walked = λ k walked. nothing_walked k walked;
      }
    where
      nothing_walked :
          (k : ℤ)
          → Walked (run_state spec (max_bytes reached floor) (aware moment) none false) k
          → none ≡ as_of Y h (int_from_bytes (max_bytes reached floor) - 1) k
      nothing_walked k (inl done) = absurd (false≢true done)
      nothing_walked k (inr (c, e, below)) = cc

  pub seed-IsCurrent :
      (schema table : String) (s : S)
      → Ensures (λ st u. IsCurrent Y h G u st (λ _. none)) (seed C H schema table s)
  unfolding seed
  seed-IsCurrent schema table s =
      let Q : RunState → S → Type 0 = λ st u. IsCurrent Y h G u st (λ _. none) in
      Ensures-then Q (C.inspect schema table) _ s λ spec s₁ e₁.
        Ensures-then Q (lift (require_capture_instance spec)) _ s₁ λ name s₂ e₂.
          Ensures-then Q (C.get_min_lsn name) _ s₂ λ floor s₃ e₃.
            Ensures-then Q C.get_max_lsn _ s₃ λ reached s₄ e₄.
              Ensures-then Q (warning H (full_dump (qualified_name spec) (max_bytes reached floor)))
                _ s₄
                λ _ s₅ e₅. Ensures-then Q (now H) _ s₅ λ moment s₆ e₆.
                  let (floor_lsn, positive, floor_at) = F.min_lsn name s₂ s₃ floor e₃ in
                  let (reached_lsn, _, reached_at) = F.max_lsn s₃ s₄ reached e₄ in
                  let to₄ = position_mono G s₃ s₄ reached (C.get_max_lsn s₃) e₄ (F.later_max s₃) in
                  let to₅ =
                    position_mono G s₄ s₅ tt
                      (warning H (full_dump (qualified_name spec) (max_bytes reached floor)) s₄) e₅
                      (F.later_warn _ s₄) in
                  let to₆ = position_mono G s₅ s₆ moment (now H s₅) e₆ (F.later_now s₅) in
                  seed_state spec reached floor moment s₆ (F.inspected schema table s s₁ spec e₁)
                    reached_lsn floor_lsn positive
                    (le_trans floor_at (le_trans to₄ (le_trans to₅ to₆)))
                    (le_trans reached_at (le_trans to₅ to₆))
