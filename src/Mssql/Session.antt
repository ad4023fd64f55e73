-- ===== src/Mssql/Session.antt =====
-- `MSSQLConnector` of connectors/mssql/connector.py: its settings, its one connection and the cursors
-- that every read opens and closes.
pub mod Block
pub mod Cursors
pub mod Returns
use Prim.Native.String.{◌++◌ as ◌<>◌}
use text.Mathlib.Text.{◌==◌ as str_eq}
use pydblog.Prelude.{
  ℕ, String, Bool, true, false, not, ◌||◌, Option, none, some, List, [], ◌∷◌, if◌then◌else◌,
}
use pydblog.Exec.{
  Result, ok, err, Exec, pure, raise, ◌>>=◌, ◌>>◌, bad_pagination, connection_missing,
}
use pydblog.Mssql.Driver.{Driver}

-- WATERMARK_TIMEOUT_SECONDS and WATERMARK_POLL_SECONDS, in microseconds.
abbrev pub watermark_timeout_default : ℕ
watermark_timeout_default = 120_000_000

abbrev pub watermark_poll_default : ℕ
watermark_poll_default = 1_000_000

-- What `__init__` keeps, `_conn` excepted.
pub record Settings : Type 0 where
  pub host : String
  pub user : String
  pub password : String
  pub database : String
  pub port : String
  pub encrypt : String
  pub trust_server_certificate : String
  pub application_name : String
  pub watermark_timeout : ℕ
  pub watermark_poll : ℕ
  pub pagination : String

-- The keywords that `__init__` reads, where the caller gives them.
pub record Keywords : Type 0 where
  pub encrypt : Option String
  pub trust_server_certificate : Option String
  pub application_name : Option String
  pub watermark_timeout : Option ℕ
  pub watermark_poll : Option ℕ
  pub pagination : Option String

-- `kwargs.get(name, default)`
abbrev pub get_or {ℓ} : {A : Type ℓ} → Option A → A → A
get_or none default = default
get_or (some given) default = given

-- What `__init__` assigns.
abbrev pub settings_of : String → String → String → String → String → String → Keywords → Settings
settings_of pagination host user password database port k = record {
  host = host;
  user = user;
  password = password;
  database = database;
  port = port;
  encrypt = get_or k.encrypt "yes";
  trust_server_certificate = get_or k.trust_server_certificate "yes";
  application_name = get_or k.application_name "Lakehouse DBLog";
  watermark_timeout = get_or k.watermark_timeout watermark_timeout_default;
  watermark_poll = get_or k.watermark_poll watermark_poll_default;
  pagination = pagination;
}

-- `__init__`
unfoldable pub init : String → String → String → String → String → Keywords → Result Settings
init host user password database port k =
    let pagination = get_or k.pagination "fetch" in
    if not (str_eq pagination "fetch" || str_eq pagination "top")
    then err (bad_pagination pagination)
    else ok (settings_of pagination host user password database port k)

-- A connector that is in use: its `_conn`, and the driver's side of the world.
pub record Session (W : Type 0) : Type 0 where
  pub conn : Option ℕ
  pub world : W

-- A call of the driver.
abbrev pub call : {W A : Type 0} → Exec W A → Exec (Session W) A
call m s = let (r, w) = m s.world in (r, record s { world = w })

abbrev pub set_conn : {W : Type 0} → Option ℕ → Exec (Session W) (Unit {0})
set_conn conn s = (ok tt, record s { conn = conn })

abbrev pub get_conn : {W : Type 0} → Exec (Session W) (Option ℕ)
get_conn s = (ok s.conn, s)

-- A `finally` whose block may raise: that error goes before the one of the body.
abbrev pub after_close : {A : Type 0} → Result A → Result (Unit {0}) → Result A
after_close r (ok _) = r
after_close r (err e) = err e

abbrev pub finally : {S A : Type 0} → Exec S A → Exec S (Unit {0}) → Exec S A
finally body close s = let (r, t) = body s in let (q, u) = close t in (after_close r q, u)

abbrev pub connection_string : Settings → String
connection_string m =
    "SERVER="
    <> (m.host
        <> (","
            <> (m.port
                <> (";DATABASE="
                    <> (m.database
                        <> (";Uid="
                            <> (m.user
                                <> (";Pwd="
                                    <> (m.password
                                        <> (";Encrypt="
                                            <> (m.encrypt
                                                <> (";TrustServerCertificate="
                                                    <> (m.trust_server_certificate
                                                        <> ";")))))))))))))

module _ {W : Type 0} (D : Driver W) (M : Settings) where
  unfoldable pub connect : Exec (Session W) (Unit {0})
  connect = do
    conn ← get_conn
    elim conn [
      | some _ ↦ pure tt
      | none ↦ do handle ← call (D.connect (connection_string M)); set_conn (some handle)
    ]

  unfoldable pub close : Exec (Session W) (Unit {0})
  close = do
    conn ← get_conn
    elim conn [ none ↦ pure tt | some handle ↦ do call (D.close_connection handle); set_conn none ]

  -- `_cursor`
  unfoldable pub cursor : Exec (Session W) ℕ
  unfolding connect
  cursor = do
    connect
    conn ← get_conn
    elim conn [ none ↦ raise connection_missing | some handle ↦ call (D.cursor handle) ]

  -- `with self._open_cursor() as cur`
  unfoldable pub with_cursor : {A : Type 0} → (ℕ → Exec (Session W) A) → Exec (Session W) A
  unfolding cursor
  with_cursor body = do cur ← cursor; finally (body cur) (call (D.close_cursor cur))

  -- `with connector as c`: `__enter__`, the block, `__exit__`
  unfoldable pub with_connector : {A : Type 0} → Exec (Session W) A → Exec (Session W) A
  unfolding connect close
  with_connector body = do connect; finally body close
