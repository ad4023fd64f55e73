-- ===== src/Mssql/Session/Block.antt =====
-- A connector as a context manager.
use pydblog.Prelude.{ℕ, String, ◌≡◌, refl, sym, ap, ◌∙◌, none, some, List, ◌∷◌}
use pydblog.Exec.{Result, ok, err, err_ne_ok, Exec, continue, ◌>>=◌, bind-eq-ok}
use pydblog.Mssql.Driver.{Driver}
use pydblog.Mssql.Session.{
  Settings, Session, after_close, call, connect, close, connection_string, with_connector, set_conn,
}

-- What the driver does to the connections that are open on it: connecting opens one more, and closing
-- the last one that was opened does not raise and leaves the others.
pub record HasConnections {W : Type 0} (D : Driver W) (connections : W → List ℕ) : Type 0 where
  pub opened :
      (text : String) (handle : ℕ) (w x : W)
      → D.connect text w ≡ (ok handle, x)
      → connections x ≡ handle ∷ connections w
  pub closed :
      (handle : ℕ) (others : List ℕ) (w : W)
      → connections w ≡ handle ∷ others
      → ((D.close_connection handle w).0 ≡ ok tt)
        × (connections (D.close_connection handle w).1 ≡ others)

after_close-ok :
    {A : Type 0} (r : Result A) (q : Result (Unit {0})) → q ≡ ok tt → after_close r q ≡ r
after_close-ok r (ok _) h = refl
after_close-ok r (err e) h = absurd (err_ne_ok e tt h)

module _ {W : Type 0} (D : Driver W) (M : Settings) (connections : W → List ℕ)
    (laws : HasConnections D connections) where
  -- A body that neither opens nor closes a connection.
  abbrev pub Keeps : {A : Type 0} → Exec (Session W) A → Type 0
  Keeps body =
      (v : Session W) (handle : ℕ)
      → v.conn ≡ some handle
      → ((body v).1.conn ≡ some handle) × (connections (body v).1.world ≡ connections v.world)

  -- The connector without a connection, and these left open on the driver.
  Closed : List ℕ → Result (Unit {0}) × Session W → Type 0
  Closed others p = (p.0 ≡ ok tt) × (p.1.conn ≡ none) × (connections p.1.world ≡ others)

  close-Closed :
      (s : Session W) (handle : ℕ) (others : List ℕ)
      → s.conn ≡ some handle
      → connections s.world ≡ handle ∷ others
      → Closed others (close D M s)
  unfolding Closed close ◌>>=◌
  close-Closed s handle others h one_more =
      rw h
        (handled (D.close_connection handle s.world) (laws.closed handle others s.world one_more))
    where
      handled :
          (p : Result (Unit {0}) × W)
          → (p.0 ≡ ok tt) × (connections p.1 ≡ others)
          → Closed others
              (continue p.0 (λ _. set_conn none) (record { conn = some handle; world = p.1 }))
      handled (ok _, w) h = (refl, refl, h.1)
      handled (err e, w) h = absurd (err_ne_ok e tt h.0)

  connect-opened :
      (s t : Session W)
      → s.conn ≡ none
      → connect D M s ≡ (ok tt, t)
      → (handle : ℕ) × (t.conn ≡ some handle) × (connections t.world ≡ handle ∷ connections s.world)
  unfolding connect ◌>>=◌
  connect-opened s t h e =
      let fresh : (call (D.connect (connection_string M)) >>= (λ handle. set_conn (some handle)))
            (record { conn = none; world = s.world })
          ≡ (ok tt, t) =
        rw h at e in
      let (handle, x, run, rest) =
        bind-eq-ok (call (D.connect (connection_string M))) (λ handle. set_conn (some handle))
          fresh in
      let returned : (D.connect (connection_string M) s.world).0 ≡ ok handle = ap (λ p. p.0) run in
      let world : (D.connect (connection_string M) s.world).1 ≡ x.world = ap (λ p. p.1.world) run in
      let answer : D.connect (connection_string M) s.world ≡ (ok handle, x.world) = cc in
      (
        handle,
        sym (ap (λ p. p.1.conn) rest),
        sym (ap (λ p. connections p.1.world) rest)
            ∙ laws.opened (connection_string M) handle s.world x.world answer,
      )

-- Where a connector without a connection connects, and its body neither opens nor closes a connection,
-- a `with` block of it hands out what the body returns or raises; the connector has no connection
-- afterwards, and the driver has the connections open that it had before.
pub with_connector-closed :
    {W A : Type 0} (D : Driver W) (M : Settings) (connections : W → List ℕ)
    → (laws : HasConnections D connections) → (body : Exec (Session W) A)
    → Keeps D M connections laws body
    → (s t : Session W) → s.conn ≡ none
    → connect D M s ≡ (ok tt, t)
    → ((with_connector D M body s).0 ≡ (body t).0)
      × ((with_connector D M body s).1.conn ≡ none)
      × (connections (with_connector D M body s).1.world ≡ connections s.world)
unfolding with_connector ◌>>=◌ Closed
with_connector-closed D M connections laws body keeps s t h e =
    let (handle, has, one_more) = connect-opened D M connections laws s t h e in
    let (still, same) = keeps t handle has in
    let (quiet, closed, left) =
      close-Closed D M connections laws (body t).1 handle (connections s.world) still
        (same ∙ one_more) in
    rw e (after_close-ok (body t).0 (close D M (body t).1).0 quiet, closed, left)
