-- ===== src/Dblog/Converge/Run.antt =====
-- Whole runs: calls of `dblog()`, each from the state that the last one returned, with commits of
-- other sessions between them and inside them, and calls that raise.
use pydblog.Prelude.{
  ℕ, suc, ◌≤◌, ◌≡◌, ap, refl, String, Option, none, some, arith, Bool-cases, inl, inr,
}
use pydblog.Prelude.Int.{ℤ, pos, ltb_ℤ}
use pydblog.Exec.{Error, ok, err}
use pydblog.Exec.Ensures.{Ensures, Ensures-bind, Ensures-elim, Ensures-if}
use pydblog.Lsn.{int_from_bytes}
use pydblog.State.{RunState, BatchResult}
use pydblog.Frame.{Polars, IsLawful}
use pydblog.Connector.{SourceConnector, Host}
use pydblog.Source.{Layout, History, as_of}
use pydblog.Source.Contract.{Ghost, IsFaithful}
use pydblog.Dblog.{dblog, opening_state, tail_batch, dump_batch}
use pydblog.Dblog.Converge.Page.{Walked}
use pydblog.Dblog.Converge.Tail.{Copy, apply_frame, IsCurrent, tail_batch-IsCurrent}
use pydblog.Dblog.Converge.Dump.{dump_batch-IsCurrent}
use pydblog.Dblog.Converge.Opening.{given_state-IsCurrent, seed-IsCurrent, later-IsCurrent}
use pydblog.Dblog.Converge.Later.{dblog-IsLater}

module _ {S : Type 0} (C : SourceConnector S) (H : Host S) (P : Polars) (Y : Layout)
    (G : Ghost S) where
  -- What can be the case of the source, of the state that the caller holds and of what a consumer
  -- has made of the frames.
  pub data Run : S → Option RunState → Copy → Type 0 where
    -- no call was made, and the consumer knows nothing
    start : (s : S) → Run s none (λ _. none)
    -- the source moved on by itself
    idle :
        {s t : S} {st : Option RunState} {copy : Copy}
        → Run s st copy
        → G.position s ≤ G.position t
        → Run t st copy
    -- a call returned: the caller keeps its state and the consumer applies its frame
    returned :
        {s u : S} {st : Option RunState} {copy : Copy} {r : BatchResult} (schema table : String)
        (size : ℤ) (every : Option ℤ)
        → Run s st copy
        → dblog C H P schema table st size every s ≡ (ok r, u)
        → Run u (some r.state) (apply_frame Y copy r.frame)
    -- a call raised: the caller is left with the state it had
    raised :
        {s u : S} {st : Option RunState} {copy : Copy} {e : Error} (schema table : String)
        (size : ℤ) (every : Option ℤ)
        → Run s st copy
        → dblog C H P schema table st size every s ≡ (err e, u)
        → Run u st copy

-- What holds of a caller: it has made no call, or its state is current.
abbrev IsOpen : {S : Type 0} → Layout → History → Ghost S → S → Option RunState → Copy → Type 0
IsOpen Y h G s none copy = copy ≡ (λ _. none)
IsOpen Y h G s (some st) copy = IsCurrent Y h G s st copy

module _ {S : Type 0} (C : SourceConnector S) (H : Host S) (Y : Layout) (h : History) (G : Ghost S)
    (F : IsFaithful C H Y h G) (P : Polars) (L : IsLawful P) where
  opening-IsCurrent :
      (schema table : String) (st : Option RunState) (every : Option ℤ) (copy : Copy) (s : S)
      → IsOpen Y h G s st copy
      → Ensures (λ kept u. IsCurrent Y h G u kept copy) (opening_state C H schema table st every s)
  unfolding opening_state
  opening-IsCurrent schema table none every copy s now =
      rw now (seed-IsCurrent C H Y h G F schema table s)
  opening-IsCurrent schema table (some st) every copy s now =
      given_state-IsCurrent C H Y h G F schema table st every copy s now

  -- What a consumer has once it has applied what a call returned.
  abbrev Current : Copy → BatchResult → S → Type 0
  Current copy r u = IsCurrent Y h G u r.state (apply_frame Y copy r.frame)

  -- One call, from any state that a run can hold.
  dblog-IsCurrent :
      (schema table : String) (st : Option RunState) (size : ℤ) (every : Option ℤ) (copy : Copy)
      (s : S)
      → IsOpen Y h G s st copy
      → Ensures (Current copy) (dblog C H P schema table st size every s)
  unfolding dblog
  dblog-IsCurrent schema table st size every copy s now = elim (Bool-cases (ltb_ℤ size (pos 1))) [
    | inl small ↦ rw small tt
    | inr enough ↦ rw enough (
        Ensures-bind (λ kept u. IsCurrent Y h G u kept copy) (Current copy)
          (opening_state C H schema table st every) _ s
          (opening-IsCurrent schema table st every copy s now)
          λ kept u e current.
            Ensures-if (Current copy) kept.dump_done (tail_batch C P kept)
              (dump_batch C P size kept) u
              (λ done. tail_batch-IsCurrent C H Y h G F P u kept copy current done)
              (λ _. dump_batch-IsCurrent C H Y h G F P L u kept copy size current (ground arith)))
  ]

  later-IsOpen :
      (s t : S) (st : Option RunState) (copy : Copy)
      → IsOpen Y h G s st copy
      → G.position s ≤ G.position t
      → IsOpen Y h G t st copy
  later-IsOpen s t none copy now later = now
  later-IsOpen s t (some st) copy now later = later-IsCurrent C H Y h G F st copy s t now later

  Run-IsOpen :
      {s : S} {st : Option RunState} {copy : Copy}
      → Run C H P Y G s st copy
      → IsOpen Y h G s st copy
  Run-IsOpen (start s) = refl
  Run-IsOpen (idle {s} {t} {st} {copy} run later) = later-IsOpen s t st copy (Run-IsOpen run) later
  Run-IsOpen (returned {s} {u} {st} {copy} {r} schema table size every run e) =
      Ensures-elim _ _ r u e (dblog-IsCurrent schema table st size every copy s (Run-IsOpen run))
  Run-IsOpen (raised {s} {u} {st} {copy} {e} schema table size every run same) =
      later-IsOpen s u st copy (Run-IsOpen run)
        (rw (ap (λ p. p.1) same) at ((dblog-IsLater C H Y h G F P schema table st size every).at s))

  -- Over a source that meets the contract and frames that meet polars' laws: in every run that
  -- holds a state, whatever calls were made with whatever arguments, whichever of them raised, and
  -- whatever was committed between and inside them, the position of the state is one past a position
  -- `n` that the source has passed, and a consumer that applied the frames in order has the table's
  -- image as of `n` of each key that the walk has passed, which is every key once the dump is done.
  pub Run-converges :
      (s : S) (st : RunState) (copy : Copy)
      → Run C H P Y G s (some st) copy
      → (n : ℕ) × (int_from_bytes st.last_lsn ≡ suc n)
        × (n ≤ G.position s)
        × ((k : ℤ) → Walked st k → copy k ≡ as_of Y h n k)
  Run-converges s st copy run =
      let now = Run-IsOpen run in (now.base, now.opens, now.behind, now.walked)
