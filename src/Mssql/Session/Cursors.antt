-- ===== src/Mssql/Session/Cursors.antt =====
-- Relations between the driver's side of the world before a call of the connector and after it, whether
-- the call returns or raises.
use pydblog.Prelude.{
  ℕ, String, ◌≡◌, refl, Bool, true, false, Option, none, some, List, if◌then◌else◌,
}
use pydblog.Exec.{
  Error, Result, ok, err, connection_missing, Exec, pure, raise, lift, continue, ◌>>=◌,
}
use pydblog.Frame.{Value}
use pydblog.Mssql.Driver.{Driver}
use pydblog.Mssql.Session.{
  Settings, Session, call, set_conn, get_conn, finally, connect, cursor, with_cursor,
  connection_string,
}

module _ {W : Type 0} (D : Driver W) (R : W → W → Type 0) where
  -- What is asked of the relation: for a cursor, that of the whole from its opening to its closing.
  pub record IsKept : Type 0 where
    pub reflexive : (w : W) → R w w
    pub transitive : (v w x : W) → R v w → R w x → R v x
    pub connect : (text : String) (w : W) → R w (D.connect text w).1
    pub execute :
        (cur : ℕ) (query : String) (params : List Value) (w : W)
        → R w (D.execute cur query params w).1
    pub fetchone : (cur : ℕ) (w : W) → R w (D.fetchone cur w).1
    pub fetchall : (cur : ℕ) (w : W) → R w (D.fetchall cur w).1
    pub arrow : (cur : ℕ) (w : W) → R w (D.arrow cur w).1
    pub monotonic : (w : W) → R w (D.monotonic w).1
    pub sleep : (time : ℕ) (w : W) → R w (D.sleep time w)
    pub refused : (handle : ℕ) (w x : W) (e : Error) → D.cursor handle w ≡ (err e, x) → R w x
    pub bracket :
        (handle cur : ℕ) (w x y : W)
        → D.cursor handle w ≡ (ok cur, x)
        → R x y
        → R w (D.close_cursor cur y).1

  unfoldable pub Moves : {A : Type 0} → Exec (Session W) A → Type 0
  Moves m = (s : Session W) → R s.world (m s).1.world

  module _ (K : IsKept) where
    pub Moves-lift : {A : Type 0} (r : Result A) → Moves (lift r)
    unfolding Moves
    Moves-lift r s = K.reflexive s.world

    pub Moves-pure : {A : Type 0} (a : A) → Moves (pure a)
    unfolding Moves
    Moves-pure a s = K.reflexive s.world

    pub Moves-raise : (A : Type 0) (e : Error) → Moves {A = A} (raise e)
    unfolding Moves
    Moves-raise A e s = K.reflexive s.world

    pub Moves-call : {A : Type 0} (m : Exec W A) → ((w : W) → R w (m w).1) → Moves (call m)
    unfolding Moves
    Moves-call m h s = h s.world

    onward :
        {A B : Type 0} (w : W) (f : A → Exec (Session W) B) (p : Result A × Session W)
        → R w p.1.world
        → ((a : A) → Moves (f a))
        → R w (continue p.0 f p.1).1.world
    unfolding Moves
    onward w f (ok a, t) h k = K.transitive w t.world (f a t).1.world h (k a t)
    onward w f (err e, t) h k = h

    pub Moves-bind :
        {A B : Type 0} (m : Exec (Session W) A) (f : A → Exec (Session W) B)
        → Moves m
        → ((a : A) → Moves (f a))
        → Moves (m >>= f)
    unfolding ◌>>=◌ Moves
    Moves-bind m f h k s = onward s.world f (m s) (h s) k

    get_conn-Moves : Moves get_conn
    unfolding Moves
    get_conn-Moves s = K.reflexive s.world

    set_conn-Moves : (conn : Option ℕ) → Moves (set_conn conn)
    unfolding Moves
    set_conn-Moves conn s = K.reflexive s.world

    pub Moves-option :
        {A B : Type 0} (o : Option A) (m : Exec (Session W) B) (f : A → Exec (Session W) B)
        → Moves m
        → ((a : A) → Moves (f a))
        → Moves (elim o [ none ↦ m | some a ↦ f a ])
    unfolding Moves
    Moves-option none m f h k = h
    Moves-option (some a) m f h k = k a

    pub Moves-bool :
        {B : Type 0} (b : Bool) (m n : Exec (Session W) B)
        → Moves m
        → Moves n
        → Moves (elim b [ true ↦ m | false ↦ n ])
    unfolding Moves
    Moves-bool true m n h k = h
    Moves-bool false m n h k = k

    pub Moves-if :
        {B : Type 0} (b : Bool) (m n : Exec (Session W) B)
        → Moves m
        → Moves n
        → Moves (if b then m else n)
    Moves-if true m n h k = h
    Moves-if false m n h k = k

    pub Moves-connect : (M : Settings) → Moves (connect D M)
    unfolding connect
    Moves-connect M = Moves-bind get_conn _ get_conn-Moves λ conn.
        Moves-option conn _ _
          (Moves-bind (call (D.connect (connection_string M))) _
            (Moves-call (D.connect (connection_string M)) (K.connect (connection_string M)))
            (λ handle. set_conn-Moves (some handle)))
          (λ handle. Moves-pure tt)

    -- A cursor that was opened, or that was not.
    Opens : W → Result ℕ × Session W → Type 0
    Opens w (ok cur, t) = (handle : ℕ) × (v : W) × R w v × (D.cursor handle v ≡ (ok cur, t.world))
    Opens w (err e, t) = R w t.world

    cursor-Opens : (M : Settings) (s : Session W) → Opens s.world (cursor D M s)
    unfolding Opens cursor ◌>>=◌ Moves
    cursor-Opens M s = connected (connect D M s) (Moves-connect M s)
      where
        answered :
            (conn : Option ℕ) (handle : ℕ) (v : W) (p : Result ℕ × W)
            → R s.world v
            → D.cursor handle v ≡ p
            → Opens s.world (p.0, record { conn = conn; world = p.1 })
        answered conn handle v (ok cur, x) h e = (handle, v, h, e)
        answered conn handle v (err x, w) h e =
            K.transitive s.world v w h (K.refused handle v w x e)

        on :
            (conn : Option ℕ) (v : W)
            → R s.world v
            → Opens s.world (
                continue
                  (ok conn)
                  (λ c. elim c [
                    | none ↦ raise connection_missing
                    | some handle ↦ call (D.cursor handle)
                  ])
                  (record { conn = conn; world = v }))
        on none v h = h
        on (some handle) v h = answered (some handle) handle v _ h refl

        connected :
            (p : Result (Unit {0}) × Session W)
            → R s.world p.1.world
            → Opens s.world (
                continue p.0
                  (λ _. get_conn >>= λ c. elim c [
                    | none ↦ raise connection_missing
                    | some handle ↦ call (D.cursor handle)
                  ])
                  p.1)
        connected (ok _, t) h = on t.conn t.world h
        connected (err e, t) h = h

    used :
        {A : Type 0} (body : ℕ → Exec (Session W) A) (w : W)
        → ((cur : ℕ) → Moves (body cur))
        → (p : Result ℕ × Session W) → Opens w p
        → R w (continue p.0 (λ cur. finally (body cur) (call (D.close_cursor cur))) p.1).1.world
    unfolding Opens Moves
    used body w h (ok cur, t) (handle, v, before, e) =
        K.transitive w v _ before (K.bracket handle cur v t.world _ e (h cur t))
    used body w h (err x, t) before = before

    pub Moves-with_cursor :
        {A : Type 0} (M : Settings) (body : ℕ → Exec (Session W) A)
        → ((cur : ℕ) → Moves (body cur))
        → Moves (with_cursor D M body)
    unfolding with_cursor ◌>>=◌ Moves
    Moves-with_cursor M body h s = used body s.world h (cursor D M s) (cursor-Opens M s)
