-- ===== src/Mssql/Barrier/Rounds.antt =====
-- The deadline of the capture barrier, the clock, and how many polls that allows.
use pydblog.Prelude.{
  ℕ, zero, suc, ◌+◌, ◌≤◌, ◌<◌, ◌≡◌, refl, ap, String, Option, none, some, List, [], ◌∷◌, ltb,
  ltb→lt, ◌⊎◌, inl, inr, arith, Bool-cases,
}
use pydblog.Exec.{Result, ok, err, Exec, ◌>>=◌, capture_timeout}
use pydblog.Exec.Ensures.{Ensures-elim}
use pydblog.Exec.Outcome.{IsForeign, Foreign, Outcome-bind}
use pydblog.Frame.{Value, moment}
use pydblog.Mssql.Driver.{Driver}
use pydblog.Mssql.Session.{
  Settings, Session, call, get_conn, after_close, connect, cursor, with_cursor, connection_string,
}
use pydblog.Mssql.Session.Returns.{connect_some}
use pydblog.Mssql.Barrier.{capture_passed, capture_query, monotonic, sleep, poll, await_watermark}

module _ {W : Type 0} (D : Driver W) (clock : W → ℕ) where
  -- The call raises nothing but an error of the driver, and time does not go back meanwhile.
  abbrev pub Timed : {A : Type 0} → W → Result A × W → Type 0
  Timed w p = Foreign p.0 × (clock w ≤ clock p.1)

  -- A clock that never goes back and that a sleep moves on by at least as long as was asked for, and a
  -- driver that raises its own errors.
  pub record IsClock : Type 0 where
    pub reads :
        (w : W) → (clock w ≤ (D.monotonic w).0) × ((D.monotonic w).0 ≤ clock (D.monotonic w).1)
    pub sleeps : (time : ℕ) (w : W) → clock w + time ≤ clock (D.sleep time w)
    pub connect : (text : String) (w : W) → Timed w (D.connect text w)
    pub cursor : (handle : ℕ) (w : W) → Timed w (D.cursor handle w)
    pub execute :
        (cur : ℕ) (query : String) (params : List Value) (w : W)
        → Timed w (D.execute cur query params w)
    pub fetchone : (cur : ℕ) (w : W) → Timed w (D.fetchone cur w)
    pub close_cursor : (cur : ℕ) (w : W) → Timed w (D.close_cursor cur w)

  abbrev Ends : {A : Type 0} → ℕ → Result A → Session W → Type 0
  Ends start r t = Foreign r × (start ≤ clock t.world)

  module _ (T : IsClock) where
    Ends-bind :
        {A B : Type 0} (start : ℕ) (m : Exec (Session W) A) (f : A → Exec (Session W) B)
        (s : Session W)
        → Ends start (m s).0 (m s).1
        → ((a : A) (t : Session W)
            → m s ≡ (ok a, t)
            → start ≤ clock t.world
            → Ends start (f a t).0 (f a t).1)
        → Ends start ((m >>= f) s).0 ((m >>= f) s).1
    Ends-bind start m f s h k =
        Outcome-bind (Ends start) (Ends start) m f s h (λ e t p. p) (λ a t e p. k a t e p.1)

    call-Ends :
        {A : Type 0} (start : ℕ) (m : Exec W A) (s : Session W)
        → start ≤ clock s.world
        → Timed s.world (m s.world)
        → Ends start (call m s).0 (call m s).1
    call-Ends start m s before h = (h.0, omega (arith, before, h.1))

    capture_passed-Ends :
        (start cur mark : ℕ) (s : Session W)
        → start ≤ clock s.world
        → Ends start (capture_passed D cur mark s).0 (capture_passed D cur mark s).1
    unfolding capture_passed
    capture_passed-Ends start cur mark s before =
        Ends-bind start (call (D.execute cur capture_query (moment mark ∷ moment mark ∷ []))) _ s
          (call-Ends start (D.execute cur capture_query _) s before
            (T.execute cur capture_query _ s.world))
          λ _ t e later.
            Ends-bind start (call (D.fetchone cur)) _ t
              (call-Ends start (D.fetchone cur) t later (T.fetchone cur t.world))
              λ row u e' later'. (tt, later')

    -- The time that was read lies between the clock before and after.
    monotonic-eq-ok :
        (time : ℕ) (s t : Session W)
        → monotonic D s ≡ (ok time, t)
        → (clock s.world ≤ time) × (time ≤ clock t.world)
    monotonic-eq-ok time s t e =
        let value : (D.monotonic s.world).0 ≡ time = cc in
        let left : (D.monotonic s.world).1 ≡ t.world = ap (λ p. p.1.world) e in
        let (low, high) = T.reads s.world in
        (omega (arith, low, value), omega (arith, high, value, ap clock left))

    monotonic-Ends :
        (start : ℕ) (s : Session W)
        → start ≤ clock s.world
        → Ends start (monotonic D s).0 (monotonic D s).1
    monotonic-Ends start s before =
        let (low, high) = T.reads s.world in (tt, omega (arith, before, low, high))

    since :
        {A : Type 0} (start : ℕ) (p q : Result A × Session W)
        → p ≡ q
        → Ends start p.0 p.1
        → start ≤ clock q.1.world
    since start p q e h = omega (arith, h.1, ap (λ x. clock x.1.world) e)

    -- Enough rounds: one more than the clock has ticks up to the deadline.
    poll-Ends :
        (rounds start pause deadline cur mark : ℕ) (s : Session W)
        → 0 < rounds
        → 0 < pause
        → deadline < clock s.world + rounds
        → start ≤ clock s.world
        → Ends start
            (poll D rounds pause deadline cur mark s).0
            (poll D rounds pause deadline cur mark s).1
    unfolding poll
    poll-Ends zero start pause deadline cur mark s more pauses enough before =
        absurd (omega (arith, more))
    poll-Ends (suc rounds) start pause deadline cur mark s more pauses enough before =
        Ends-bind start (monotonic D) _ s (monotonic-Ends start s before) λ time t e later.
          let (low, high) = monotonic-eq-ok time s t e in
          elim (Bool-cases (ltb time deadline)) [
            | inr late ↦ rw late (tt, later)
            | inl early ↦ rw early (
                Ends-bind start (capture_passed D cur mark) _ t
                  (capture_passed-Ends start cur mark t later)
                  λ passed u e' later'. elim (Bool-cases passed) [
                    | inl there ↦ rw there (
                        Ends-bind start (monotonic D) _ u (monotonic-Ends start u later')
                          λ _ v e'' later''. (tt, later''))
                    | inr absent ↦ rw absent (
                        let onward =
                          since (clock t.world) _ (ok passed, u) e'
                            (capture_passed-Ends (clock t.world) cur mark t (omega arith)) in
                        let slept = T.sleeps pause u.world in
                        let sooner = ltb→lt time deadline early in
                        Ends-bind start (sleep D pause) _ u (tt, omega (arith, later', slept))
                          λ _ v e'' later''.
                            let woken : clock (D.sleep pause u.world) ≡ clock v.world =
                              ap (λ p. clock p.1.world) e'' in
                            poll-Ends rounds start pause deadline cur mark v
                              (omega (arith, sooner, low, enough)) pauses
                              (omega
                                (arith, sooner, low, high, onward, slept, woken, pauses, enough))
                              later'')
                  ])
          ]

    Ends-option :
        {A B : Type 0} (start : ℕ) (o : Option B) (m : Exec (Session W) A)
        (f : B → Exec (Session W) A) (s : Session W)
        → Ends start (m s).0 (m s).1
        → ((b : B) → Ends start (f b s).0 (f b s).1)
        → Ends start
            ((elim o as (λ _. Exec (Session W) A) [ none ↦ m | some b ↦ f b ]) s).0
            ((elim o as (λ _. Exec (Session W) A) [ none ↦ m | some b ↦ f b ]) s).1
    Ends-option start none m f s h k = h
    Ends-option start (some b) m f s h k = k b

    connect-Ends :
        (M : Settings) (start : ℕ) (s : Session W)
        → start ≤ clock s.world
        → Ends start (connect D M s).0 (connect D M s).1
    unfolding connect
    connect-Ends M start s before =
        Ends-bind start get_conn _ s (tt, before)
          λ conn t e later.
            Ends-option start conn _ _ t
              (Ends-bind start (call (D.connect (connection_string M))) _ t
                (call-Ends start (D.connect (connection_string M)) t later
                  (T.connect (connection_string M) t.world))
                λ handle u e' later'. (tt, later'))
              λ handle. (tt, later)

    cursor-Ends :
        (M : Settings) (start : ℕ) (s : Session W)
        → start ≤ clock s.world
        → Ends start (cursor D M s).0 (cursor D M s).1
    unfolding cursor
    cursor-Ends M start s before =
        Ends-bind start (connect D M) _ s (connect-Ends M start s before) λ _ t e later.
          let (handle, has) =
            Ensures-elim (λ _ u. (handle : ℕ) × (u.conn ≡ some handle)) _ tt t e
              (connect_some D M s) in
          Ends-bind start get_conn _ t (tt, later)
            λ conn u e' later'.
              let there : conn ≡ some handle = cc in
              rw there (call-Ends start (D.cursor handle) u later' (T.cursor handle u.world))

    closes :
        {A : Type 0} (start cur : ℕ) (p : Result A × Session W)
        → Ends start p.0 p.1
        → Ends start
            (after_close p.0 (D.close_cursor cur p.1.world).0)
            (record p.1 { world = (D.close_cursor cur p.1.world).1 })
    closes start cur p h =
        let (raised, later) = T.close_cursor cur p.1.world in
        (after p.0 (D.close_cursor cur p.1.world).0 h.0 raised, omega (arith, h.1, later))
      where
        after :
            {A : Type 0} (r : Result A) (q : Result (Unit {0}))
            → Foreign r
            → Foreign q
            → Foreign (after_close r q)
        after r (ok _) h k = h
        after r (err e) h k = k

    with_cursor-Ends :
        {A : Type 0} (M : Settings) (start : ℕ) (body : ℕ → Exec (Session W) A) (s : Session W)
        → start ≤ clock s.world
        → ((cur : ℕ) (t : Session W)
            → start ≤ clock t.world
            → Ends start (body cur t).0 (body cur t).1)
        → Ends start (with_cursor D M body s).0 (with_cursor D M body s).1
    unfolding with_cursor
    with_cursor-Ends M start body s before h =
        Ends-bind start (cursor D M) _ s (cursor-Ends M start s before)
          λ cur t e later. closes start cur (body cur t) (h cur t later)

-- How a wait for a watermark may end: it returns, it times out, or the driver fails.
abbrev pub Settled : {A : Type 0} → ℕ → Result A → Type 0
Settled mark (ok a) = Unit
Settled mark (err e) = IsForeign e ⊎ (e ≡ capture_timeout mark)

Foreign-Settled : {A : Type 0} (mark : ℕ) (r : Result A) → Foreign r → Settled mark r
Foreign-Settled mark (ok a) h = tt
Foreign-Settled mark (err e) h = inl h

-- Waiting for a watermark ends, within the rounds that the model allows, for a driver that raises its
-- own errors only, a clock that never goes back and a pause that is not zero: it returns, it raises the
-- timeout of that watermark, or it raises what the driver raised.
pub await_watermark-Settled :
    {W : Type 0} (D : Driver W) (M : Settings) (clock : W → ℕ)
    → IsClock D clock
    → 0 < M.watermark_poll
    → (mark : ℕ) (s : Session W) → Settled mark (await_watermark D M mark s).0
unfolding await_watermark
await_watermark-Settled D M clock T pauses mark s =
    Outcome-bind (λ r t. Ends D clock (clock s.world) r t) (λ r t. Settled mark r) (monotonic D) _ s
      (monotonic-Ends D clock T (clock s.world) s (omega arith)) (λ e t h. inl h.0)
      λ started t e h.
        let (low, high) = monotonic-eq-ok D clock T started s t e in
        Outcome-bind (λ r u. Ends D clock (clock t.world) r u) (λ r u. Settled mark r)
          (with_cursor D M _) _ t
          (with_cursor-Ends D clock T M (clock t.world) _ t (omega arith) λ cur u later.
            poll-Ends D clock T (suc M.watermark_timeout) (clock t.world) M.watermark_poll _ cur
              mark u (omega arith) pauses (omega (arith, high, later)) later)
          (λ e u k. inl k.0)
          λ passed u e' k. elim (Bool-cases passed) [
            | inl there ↦ rw there tt
            | inr absent ↦ rw absent (inr refl)
          ]
