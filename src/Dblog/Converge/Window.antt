-- ===== src/Dblog/Converge/Window.antt =====
-- `_read_window` over a faithful source: the events of a window and where the next one opens.
use pydblog.Prelude.{
  ℕ, suc, ◌+◌, ◌-◌, ◌≤◌, ◌≡◌, refl, ap, ◌∙◌, inl, inr, true, false, Option, none, some, Bool-cases,
  ltb, arith,
}
use pydblog.Exec.{ok, lift}
use pydblog.Exec.Ensures.{Ensures, Ensures-then, lift-eq-ok}
use pydblog.Lsn.{Lsn, lt_bytes, int_from_bytes, IsLsn}
use pydblog.Lsn.Order.{lt_bytes-eq-ltb_of_Lsn}
use pydblog.State.{RunState}
use pydblog.Frame.{Frame}
use pydblog.Connector.{SourceConnector, Host}
use pydblog.Source.{Layout, History, events_from}
use pydblog.Source.Contract.{Ghost, IsFaithful, IsKeyed, rows_of, position_mono}
use pydblog.Dblog.Window.{read_window}

module _ {S : Type 0} (G : Ghost S) (h : History) where
  -- A window over `count` positions after `base`: its events are all those of the log there, and
  -- the next window opens right behind them.
  pub record Advanced (given : RunState) (s : S) (base : ℕ) (events : Option Frame)
      (kept : RunState) (u : S) : Type 0 where
    pub count : ℕ
    pub rest : kept ≡ record given { last_lsn = kept.last_lsn }
    pub lsn : IsLsn kept.last_lsn
    pub opens : int_from_bytes kept.last_lsn ≡ suc (base + count)
    pub rows : rows_of events ≡ events_from h (suc base) count
    pub schema : (f : Frame) → events ≡ some f → f.schema ≡ G.event_fields given.spec
    pub reached : G.captured s ≤ base + count
    pub behind : base + count ≤ G.position u

module _ {S : Type 0} (C : SourceConnector S) (H : Host S) (Y : Layout) (h : History) (G : Ghost S)
    (F : IsFaithful C H Y h G) (given : RunState) (base : ℕ) (keyed : IsKeyed Y G given.spec)
    (lsn : IsLsn given.last_lsn) (opens : int_from_bytes given.last_lsn ≡ suc base) where
  abbrev Moves : S → Option Frame × RunState → S → Type 0
  Moves s r u = Advanced G h given s base r.0 r.1 u

  -- The test of `_read_window`, as numbers.
  past_end :
      (s t : S) (high : Lsn)
      → C.get_max_lsn s ≡ (ok high, t)
      → (lt_bytes high given.last_lsn ≡ ltb (int_from_bytes high) (suc base))
        × (G.captured s ≤ int_from_bytes high)
  past_end s t high e =
      let (is_lsn, reached, below) = F.max_lsn s t high e in
      (rw (← opens) (lt_bytes-eq-ltb_of_Lsn high given.last_lsn is_lsn lsn), reached)

  quiet :
      (s t : S) (high : Lsn)
      → base ≤ G.position s
      → C.get_max_lsn s ≡ (ok high, t)
      → lt_bytes high given.last_lsn ≡ true
      → Moves s (none, given) t
  quiet s t high behind e past =
      let (is_lsn, reached, below) = F.max_lsn s t high e in
      record {
        count = 0;
        rest = refl;
        lsn = lsn;
        opens = omega (arith, opens);
        rows = unfold events_from in refl;
        schema = λ f h. cc;
        reached = ground (arith, (past_end s t high e).0, (past_end s t high e).1);
        behind =
            omega (arith, behind, position_mono G s t high (C.get_max_lsn s) e (F.later_max s));
      }

  read :
      (s t u : S) (high next : Lsn) (events : Option Frame)
      → C.get_max_lsn s ≡ (ok high, t)
      → lt_bytes high given.last_lsn ≡ false
      → C.read_event_log given.spec given.last_lsn high t ≡ (ok events, u)
      → C.increment_lsn high ≡ ok next
      → Moves s (events, record given { last_lsn = next }) u
  read s t u high next events e reach log inc =
      let (is_lsn, reached, below) = F.max_lsn s t high e in
      let (next_lsn, next_value) = F.incremented high next is_lsn inc in
      let top : int_from_bytes high ≡ base + (int_from_bytes high - base) =
        ground (arith, (past_end s t high e).0, (past_end s t high e).1) in
      let (rows, schema) =
        F.log_rows given.spec given.last_lsn high base (int_from_bytes high - base) t u events keyed
          opens top log in
      record {
        count = int_from_bytes high - base;
        rest = refl;
        lsn = next_lsn;
        opens = next_value ∙ ap suc top;
        rows = rows;
        schema = schema;
        reached = omega (arith, top, reached);
        behind = omega (
          arith,
          top,
          below,
          position_mono G t u events (C.read_event_log given.spec given.last_lsn high t) log
              (F.later_log given.spec given.last_lsn high t),
        );
      }

  -- Over a source that meets the contract, from a state that opens at `base + 1` with `base` not
  -- beyond what the source has committed: a window that `_read_window` returns holds all events at
  -- some `count` positions from there on, in order and no others, the returned state differs in its
  -- position alone, which opens right behind them, and they reach as far as was captured before.
  pub read_window-Advanced :
      (s : S) → base ≤ G.position s → Ensures (Moves s) (read_window C given s)
  unfolding read_window
  read_window-Advanced s behind = Ensures-then (Moves s) C.get_max_lsn _ s λ high t e.
      elim (Bool-cases (lt_bytes high given.last_lsn)) [
        | inl past ↦ rw past (quiet s t high behind e past)
        | inr reach ↦ rw reach (
            Ensures-then (Moves s) (C.read_event_log given.spec given.last_lsn high) _ t
              λ events u log. Ensures-then (Moves s) (lift (C.increment_lsn high)) _ u λ next v inc.
                let (made, same) = lift-eq-ok _ u v next inc in
                rw (← same) (read s t u high next events e reach log made))
      ]
