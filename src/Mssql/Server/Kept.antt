-- ===== src/Mssql/Server/Kept.antt =====
-- The cursors that the operations of the SQL Server connector open and close.
use pydblog.Prelude.{ℕ, String, ◌≡◌, refl, sym, ◌∙◌, Option, List, ◌∷◌}
use pydblog.Prelude.Int.{ℤ}
use pydblog.Exec.{Error, ok, err}
use pydblog.Types.{TableSpec}
use pydblog.Lsn.{Lsn}
use pydblog.Frame.{Value}
use pydblog.Connector.{SourceConnector}
use pydblog.Mssql.Driver.{Driver, Columnar}
use pydblog.Mssql.Session.{Settings, Session}
use pydblog.Mssql.Session.Cursors.{IsKept, Moves}
use pydblog.Mssql.Log.{map_lsn_to_timestamp}
use pydblog.Mssql.Table.{read_pk_range}
use pydblog.Mssql.Server.{mssql_source}
use pydblog.Mssql.Server.Moves.{
  get_min_lsn-Moves, get_max_lsn-Moves, watermark-Moves, read_event_log-Moves, read_table-Moves,
  read_pk_range-Moves, await_watermark-Moves, inspect-Moves, map_lsn_to_timestamp-Moves,
}

-- Every call of a source leaves the world related to what it was, whatever it returns or raises.
pub record AllMove {W : Type 0} (R : W → W → Type 0) (C : SourceConnector (Session W))
    : Type 0 where
  pub get_max_lsn : (s : Session W) → R s.world (C.get_max_lsn s).1.world
  pub get_min_lsn : (name : String) (s : Session W) → R s.world (C.get_min_lsn name s).1.world
  pub watermark : (s : Session W) → R s.world (C.watermark s).1.world
  pub await_watermark : (mark : ℕ) (s : Session W) → R s.world (C.await_watermark mark s).1.world
  pub inspect :
      (schema table : String) (s : Session W) → R s.world (C.inspect schema table s).1.world
  pub read_event_log :
      (spec : TableSpec) (low high : Lsn) (s : Session W)
      → R s.world (C.read_event_log spec low high s).1.world
  pub read_table :
      (spec : TableSpec) (low high : Option ℤ) (limit : ℤ) (s : Session W)
      → R s.world (C.read_table spec low high limit s).1.world

-- The cursors that are open: a cursor that is opened is one more, and closing the last one that was
-- opened leaves the others, whether the driver's `close` returns or raises.
pub record HasCursors {W : Type 0} (D : Driver W) (cursors : W → List ℕ) : Type 0 where
  pub connect : (text : String) (w : W) → cursors w ≡ cursors (D.connect text w).1
  pub execute :
      (cur : ℕ) (query : String) (params : List Value) (w : W)
      → cursors w ≡ cursors (D.execute cur query params w).1
  pub fetchone : (cur : ℕ) (w : W) → cursors w ≡ cursors (D.fetchone cur w).1
  pub fetchall : (cur : ℕ) (w : W) → cursors w ≡ cursors (D.fetchall cur w).1
  pub arrow : (cur : ℕ) (w : W) → cursors w ≡ cursors (D.arrow cur w).1
  pub monotonic : (w : W) → cursors w ≡ cursors (D.monotonic w).1
  pub sleep : (time : ℕ) (w : W) → cursors w ≡ cursors (D.sleep time w)
  pub refused :
      (handle : ℕ) (w x : W) (e : Error) → D.cursor handle w ≡ (err e, x) → cursors w ≡ cursors x
  pub opened :
      (handle cur : ℕ) (w x : W) → D.cursor handle w ≡ (ok cur, x) → cursors x ≡ cur ∷ cursors w
  pub closed :
      (cur : ℕ) (others : List ℕ) (w : W)
      → cursors w ≡ cur ∷ others
      → cursors (D.close_cursor cur w).1 ≡ others

module _ {W : Type 0} (D : Driver W) (M : Settings) (R : W → W → Type 0) (K : IsKept D R) where
  pub mssql_source-AllMove : (C : Columnar) → AllMove R (mssql_source D C M)
  unfolding Moves mssql_source
  mssql_source-AllMove C = record {
    get_max_lsn = get_max_lsn-Moves D M R K;
    get_min_lsn = get_min_lsn-Moves D M R K;
    watermark = watermark-Moves D M R K;
    await_watermark = await_watermark-Moves D M R K;
    inspect = λ schema table. inspect-Moves D M R K schema table "cdc";
    read_event_log = read_event_log-Moves D M R K C;
    read_table = read_table-Moves D M R K C;
  }

module _ {W : Type 0} (D : Driver W) (cursors : W → List ℕ) where
  cursors-IsKept : HasCursors D cursors → IsKept D (λ v w. cursors v ≡ cursors w)
  cursors-IsKept H = record {
    reflexive = λ w. refl;
    transitive = λ v w x p q. p ∙ q;
    connect = H.connect;
    execute = H.execute;
    fetchone = H.fetchone;
    fetchall = H.fetchall;
    arrow = H.arrow;
    monotonic = H.monotonic;
    sleep = H.sleep;
    refused = H.refused;
    bracket = λ handle cur w x y e kept.
        sym (H.closed cur (cursors w) y (sym kept ∙ H.opened handle cur w x e));
  }

-- Whatever a method that reads returns or raises, the cursors that are open after it are those that
-- were open before it, for a driver whose cursors open and close one at a time. These are the methods
-- of the protocol that call the source, and `read_pk_range` and `map_lsn_to_timestamp`.
pub mssql_source-closes :
    {W : Type 0} (D : Driver W) (M : Settings) (C : Columnar) (cursors : W → List ℕ)
    → HasCursors D cursors
    → AllMove (λ v w. cursors v ≡ cursors w) (mssql_source D C M)
      × ((spec : TableSpec) (s : Session W)
          → cursors s.world ≡ cursors (read_pk_range D M spec s).1.world)
      × ((lsn : Lsn) (s : Session W)
          → cursors s.world ≡ cursors (map_lsn_to_timestamp D M lsn s).1.world)
unfolding Moves
mssql_source-closes D M C cursors H =
    let K = cursors-IsKept D cursors H in
    (
      mssql_source-AllMove D M (λ v w. cursors v ≡ cursors w) K C,
      read_pk_range-Moves D M (λ v w. cursors v ≡ cursors w) K,
      map_lsn_to_timestamp-Moves D M (λ v w. cursors v ≡ cursors w) K,
    )
