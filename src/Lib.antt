-- ===== src/Lib.antt =====
-- pydblog: change data capture and a full dump of one table, interleaved (the DBLog algorithm).
--
-- A run is a sequence of calls of `dblog()` (src/pydblog/dblog.py). Each call takes the state that
-- the last one returned and hands back a frame and the next state. While the dump lasts, a call reads
-- one page of the table between two watermarks, waits until the log consumer has passed the second
-- one, reads the window of the change log from the state's position on, drops each row of the page
-- whose key an event of the window has, and emits the events and then the rows that are left, stamped
-- as events. Once the page comes back short the dump is done, and a call reads a window alone.
--
-- How the files correspond to the code:
--   Prelude, Prelude/*    Booleans, lists and Python's int over the native numbers.
--   Exec, Exec/Ensures    Exceptions as values, one constructor for each place that raises, and calls
--                         that pass the source's state on. `Ensures Q` says that Q holds wherever a
--                         call returns.
--   Builtins              items[0] and items[-1].
--   Types, Types/*        src/pydblog/connectors/types.py: ColumnSpec and its equality, TableSpec.
--   Lsn, Lsn/*            LSNs as lists of bytes, and `increment_lsn` of
--                         src/pydblog/connectors/mssql/connector.py.
--   State, State/Hex      src/pydblog/state.py: RunState, its validator of times, BatchResult; the text
--                         form of the position.
--   Connector             src/pydblog/connectors/base.py: the primitives that the algorithm calls, as a
--                         record of operations over a state of the source; the clock and the warnings.
--   Logging, Logging/*    src/pydblog/log.py: the handlers and the level of the package's logger.
--   Arrow                 The Arrow types and fields that schema.py names.
--   Frame, Frame/*        What the algorithm can see of a polars frame, its schema and its rows; the
--                         operations of polars are the record `Polars`, and `IsLawful` is what their
--                         documentation promises. The type of a polars column is written as an
--                         Arrow type; polars has one type for times of day, which is written as the
--                         Arrow type that counts nanoseconds.
--   Source, Source/*      The contract that the docstrings of connectors/base.py state of a source: a
--                         history of commits, the table as of each position, and what each primitive
--                         may answer (`IsFaithful`). Other sessions may commit inside every call.
--   Dblog, Dblog/*        dblog.py: `dblog`, `seed`, `state_at_lsn` (Dblog), the checks of a state
--                         (Guards), `_drift` (Drift), the page (Page), the window (Window), the merge
--                         (Merge), what calls check and read (Calls) and refuse (Refusals, Raised), and
--                         whole runs (Converge).
--   Mssql/Schema/*        src/pydblog/connectors/mssql/schema.py: the map to Arrow types, `validate`
--                         and the schemas of the two reads (Schema), the two together (Agreement), and
--                         with re-inspection (Refresh), `conform` (Conform).
--   Mssql, the rest       src/pydblog/connectors/mssql/connector.py, over what it calls outside the
--                         repository (Driver): the settings, the connection and the cursors (Session),
--                         names in SQL (Identifier), the queries (Query; Query/Fill puts the
--                         values in their places), the change log (Log), the wait
--                         for the capture job (Barrier), `inspect` (Catalog), the table (Table), and the
--                         methods together as a `SourceConnector`, with `build_connector` of
--                         src/pydblog/connectors/base.py (Server).
--   Tests, Tests/*        A lawful polars, a faithful table of one row, a driver and a small pyarrow,
--                         and concrete runs.
--
-- Bounds: an LSN is ten bytes, as in the code, so a position is a number below 256 ^ 10, and the
-- successor of the greatest one is refused. Keys are unbounded integers, as in Python. The loops are
-- over lists, but for the polls of `await_watermark`, which run on fuel: one round more than the timeout
-- has microseconds, since a poll that does not end the wait sleeps for at least one of them.
--
-- Names on both sides: `_next_chunk` is `next_chunk`, and so on; the part of `_refresh_spec` after the
-- spec is read again is `adopt_spec`; the two halves of `dblog()` are `dump_batch` and `tail_batch`.
-- Where the code returns None for a frame, the model returns `none`.
--
-- The theorems about a source are for a table whose primary key is one integer column, which is what
-- the algorithm pages by; `_supersede` and the checks are for any key.
--
-- The connector's methods keep their names without the leading underscore; `_open_cursor` is
-- `with_cursor`, and `__enter__` and `__exit__` together are `with_connector`.
--
-- Not modelled: what SQL Server makes of a query, so that the methods of the connector are not shown
-- to meet the contract of Source/Contract.antt; pyarrow's casts, which are a parameter; pydantic's JSON
-- of a state; and the log lines below the level of a warning. An error of the driver, of pyarrow or of
-- a source is the constructor `source_failure`; a cell of another type than the queried column has is
-- `ill_typed_answer`. Times of the process are whole microseconds. An Arrow type is the constructor of
-- pyarrow that built it and its arguments, with pyarrow's own checks of those left out. `str.lower` is
-- modelled on the ASCII letters that the names of SQL types are written in.
pub mod Prelude
pub mod Exec
pub mod Builtins
pub mod Types
pub mod Lsn
pub mod Arrow
pub mod Frame
pub mod State
pub mod Connector
pub mod Logging
pub mod Source
pub mod Dblog
pub mod Mssql
pub mod Tests
