-- ===== src/Tests/Server.antt =====
-- A server of one small table for the connector of Mssql/Server.antt: its answers are fixed, its clock
-- moves on when the connector sleeps, and its capture job has passed every mark that lies behind the
-- clock.
use text.Mathlib.Text.{◌==◌ as str_eq, starts_with}
use pydblog.Prelude.{
  ℕ, ◌+◌, ◌≤◌, ◌≡◌, refl, sym, ap, ◌∙◌, String, true, false, Option, none, some, List, [], ◌∷◌, ltb,
  ltb→lt, inl, inr, arith, Bool-cases, if◌then◌else◌,
}
use pydblog.Prelude.Int.{pos}
use pydblog.Exec.{Error, ok, err}
use pydblog.Arrow.{ArrowType, int32, Field}
use pydblog.Frame.{Value, null, int, str, binary, moment}
use pydblog.Mssql.Driver.{Driver, ChunkedArray, ArrowTable}
use pydblog.Mssql.Session.Block.{HasConnections}
use pydblog.Mssql.Barrier.{capture_query, holds}
use pydblog.Mssql.Barrier.Rounds.{IsClock}
use pydblog.Mssql.Barrier.Passed.{IsScanned}
use pydblog.Mssql.Server.Kept.{HasCursors}

pub record Server : Type 0 where
  pub connections : List ℕ
  pub cursors : List ℕ
  pub time : ℕ
  pub query : String
  pub args : List Value

abbrev rest : List ℕ → List ℕ
rest [] = []
rest (c ∷ cs) = cs

abbrev passed : ℕ → List Value → Value
passed time (moment mark ∷ args) = int (pos (if ltb mark time then 1 else 0))
passed time _ = null

-- One row, by the time, the query and what is bound to it.
abbrev row_of : ℕ → String → List Value → Option (List Value)
row_of time query args =
    if str_eq query capture_query
    then some (passed time args ∷ [])
    else if str_eq query "SELECT SYSDATETIME()"
    then some (moment time ∷ [])
    else if starts_with query "SELECT sys.fn_cdc"
    then some (binary (0 ∷ 0 ∷ 0 ∷ 0 ∷ 0 ∷ 0 ∷ 0 ∷ 0 ∷ 0 ∷ 5 ∷ []) ∷ [])
    else if starts_with query "SELECT ct.capture_instance"
    then some (str "dbo_orders" ∷ [])
    else none

abbrev column : String → Value → List Value
column name formula = str name ∷ str "int" ∷ int (pos 10) ∷ int (pos 0) ∷ formula ∷ []

-- All rows, by the query and the object that it asks for.
abbrev rows_of_query : String → List Value → List (List Value)
rows_of_query query (str object ∷ []) =
    if starts_with query "SELECT c.name FROM sys.indexes"
    then (str "id" ∷ []) ∷ []
    else if str_eq object "dbo.orders"
    then column "id" null ∷ column "twice" (str "id * 2") ∷ []
    else column "__$start_lsn" null ∷ column "id" null ∷ column "twice" null ∷ []
rows_of_query query _ = []

abbrev pub int_field : String → Field
int_field name = record { name = name; dtype = int32 }

abbrev cells_of : ArrowType → Value → ChunkedArray
cells_of dtype v = record { dtype = dtype; values = v ∷ [] }

-- One row of the table; the result set's columns are out of order.
abbrev pub table_rows : ArrowTable
table_rows = record {
  fields = int_field "twice" ∷ int_field "id" ∷ [];
  columns = cells_of int32 null ∷ cells_of int32 (int (pos 7)) ∷ [];
  num_rows = 1;
}

abbrev pub driver : Driver Server
driver = record {
  connect = λ text w. (ok 1, record w { connections = 1 ∷ w.connections });
  close_connection = λ handle w. (ok tt, record w { connections = rest w.connections });
  cursor = λ handle w. (ok w.time, record w { cursors = w.time ∷ w.cursors });
  close_cursor = λ cur w. (ok tt, record w { cursors = rest w.cursors });
  execute = λ cur query args w. (ok tt, record w { query = query; args = args });
  fetchone = λ cur w. (ok (row_of w.time w.query w.args), w);
  fetchall = λ cur w. (ok (rows_of_query w.query w.args), w);
  arrow = λ cur w. (ok table_rows, w);
  monotonic = λ w. (w.time, w);
  sleep = λ pause w. record w { time = w.time + pause };
}

pub driver-IsClock : IsClock driver (λ w. w.time)
driver-IsClock = record {
  reads = λ w. (omega arith, omega arith);
  sleeps = λ pause w. omega arith;
  connect = λ text w. (tt, omega arith);
  cursor = λ handle w. (tt, omega arith);
  execute = λ cur query args w. (tt, omega arith);
  fetchone = λ cur w. (tt, omega arith);
  close_cursor = λ cur w. (tt, omega arith);
}

opened_one :
    (cur : ℕ) (w x : Server) → driver.cursor 1 w ≡ (ok cur, x) → x.cursors ≡ cur ∷ w.cursors
opened_one cur w x h =
    let name : w.time ≡ cur = cc in
    let more : w.time ∷ w.cursors ≡ x.cursors = ap (λ p. p.1.cursors) h in
    sym more ∙ ap (λ c. c ∷ w.cursors) name

never_refused : (w x : Server) (e : Error) → driver.cursor 1 w ≡ (err e, x) → ⊥
never_refused w x e h = cc

pub driver-HasCursors : HasCursors driver (λ w. w.cursors)
driver-HasCursors = record {
  connect = λ text w. refl;
  execute = λ cur query args w. refl;
  fetchone = λ cur w. refl;
  fetchall = λ cur w. refl;
  arrow = λ cur w. refl;
  monotonic = λ w. refl;
  sleep = λ pause w. refl;
  refused = λ handle w x e h. absurd (never_refused w x e h);
  opened = λ handle cur w x h. opened_one cur w x h;
  closed = λ cur others w h. ap rest h;
}

holds-passed :
    (mark time : ℕ)
    → holds (row_of time capture_query (moment mark ∷ moment mark ∷ [])) ≡ true
    → mark ≤ time
unfolding holds
holds-passed mark time h = elim (Bool-cases (ltb mark time)) [
  | inl behind ↦ let earlier = ltb→lt mark time behind in omega arith
  | inr ahead ↦ absurd (let no_row : false ≡ true = (rw ahead at h) in cc)
]

pub driver-IsScanned : IsScanned driver (λ mark. mark) (λ w. w.time)
driver-IsScanned = record {
  scanned = λ cur mark v w x row e e' h.
      let asked : capture_query ≡ w.query = ap (λ p. p.1.query) e in
      let given : moment mark ∷ moment mark ∷ [] ≡ w.args = ap (λ p. p.1.args) e in
      let found : row_of w.time w.query w.args ≡ row = cc in
      let still : w.time ≡ x.time = ap (λ p. p.1.time) e' in
      let same : row_of w.time capture_query (moment mark ∷ moment mark ∷ []) ≡ row =
        ap (λ q. row_of w.time q (moment mark ∷ moment mark ∷ [])) asked
        ∙ (ap (λ args. row_of w.time w.query args) given ∙ found) in
      let behind = holds-passed mark w.time (ap holds same ∙ h) in omega (arith, behind, still);
  monotonic = λ w. omega arith;
  close_cursor = λ cur w. omega arith;
}

opened_connection :
    (text : String) (handle : ℕ) (w x : Server)
    → driver.connect text w ≡ (ok handle, x)
    → x.connections ≡ handle ∷ w.connections
opened_connection text handle w x h =
    let name : 1 ≡ handle = cc in
    let more : 1 ∷ w.connections ≡ x.connections = ap (λ p. p.1.connections) h in
    sym more ∙ ap (λ c. c ∷ w.connections) name

pub driver-HasConnections : HasConnections driver (λ w. w.connections)
driver-HasConnections = record {
  opened = λ text handle w x h. opened_connection text handle w x h;
  closed = λ handle others w h. (refl, ap rest h);
}
