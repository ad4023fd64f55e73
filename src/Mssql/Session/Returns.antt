-- ===== src/Mssql/Session/Returns.antt =====
-- What a call under a cursor ensures where it returns, and that connecting leaves a connection.
use pydblog.Prelude.{ℕ, ◌≡◌, refl, ap, some}
use pydblog.Exec.{Error, Result, ok, err, Exec}
use pydblog.Exec.Ensures.{Ensures, Ensures-then, Ensures-option}
use pydblog.Mssql.Driver.{Driver}
use pydblog.Mssql.Session.{
  Settings, Session, call, get_conn, after_close, connect, cursor, with_cursor, connection_string,
}

module _ {W : Type 0} (D : Driver W) (M : Settings) where
  -- A connector that has connected has a connection.
  pub connect_some :
      (s : Session W) → Ensures (λ _ u. (handle : ℕ) × (u.conn ≡ some handle)) (connect D M s)
  unfolding connect
  connect_some s = Ensures-then _ get_conn _ s λ conn t e.
      Ensures-option _ conn _ _ t
        (λ new.
          Ensures-then _ (call (D.connect (connection_string M))) _ t λ handle u e'. (handle, refl))
        λ handle old.
          let same : s.conn ≡ t.conn = ap (λ p. p.1.conn) e in
          let held : s.conn ≡ conn = cc in (handle, cc)

  -- What the body ensures, if closing the cursor keeps it.
  pub with_cursor-Ensures :
      {A : Type 0} (Q : A → Session W → Type 0) (body : ℕ → Exec (Session W) A) (s : Session W)
      → ((cur : ℕ) (a : A) (t : Session W)
          → Q a t
          → Q a (record t { world = (D.close_cursor cur t.world).1 }))
      → ((cur : ℕ) (t : Session W) → Ensures Q (body cur t))
      → Ensures Q (with_cursor D M body s)
  unfolding with_cursor
  with_cursor-Ensures {A = A} Q body s keeps h =
      Ensures-then Q (cursor D M) _ s λ cur t e. closing cur (body cur t) (h cur t)
    where
      closed :
          (a : A) (q : Result (Unit {0})) (u : Session W)
          → Q a u
          → Ensures Q (after_close (ok a) q, u)
      closed a (ok _) u k = k
      closed a (err e) u k = tt

      failed :
          (e : Error) (q : Result (Unit {0})) (u : Session W) → Ensures Q (after_close (err e) q, u)
      failed e (ok _) u = tt
      failed e (err x) u = tt

      closing :
          (cur : ℕ) (p : Result A × Session W)
          → Ensures Q p
          → Ensures Q (
            after_close p.0 (D.close_cursor cur p.1.world).0,
            record p.1 { world = (D.close_cursor cur p.1.world).1 },
          )
      closing cur (ok a, t) k = closed a (D.close_cursor cur t.world).0 _ (keeps cur a t k)
      closing cur (err e, t) k = failed e (D.close_cursor cur t.world).0 _
