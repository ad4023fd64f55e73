-- ===== src/Logging.antt =====
-- src/pydblog/log.py: where the package's log lines go. A logger of Python's `logging` is its handlers
-- and its level; a handler is told from others by its identity.
pub mod Handlers
use text.Mathlib.Text.{◌==◌ as str_eq}
use pydblog.Prelude.{
  ℕ, String, Bool, true, false, Option, none, some, List, [], ◌∷◌, ◌++◌, any, keep, if◌then◌else◌,
  ◌==◌,
}

pub data Level : Type 0 where
  debug info : Level

pub data Stream : Type 0 where
  stderr : Stream
  given : ℕ → Stream

pub record Handler : Type 0 where
  pub identity : ℕ
  pub name : Option String
  -- where it writes; none for a `NullHandler`
  pub stream : Option Stream
  pub format : Option String

pub record Logger : Type 0 where
  pub handlers : List Handler
  pub level : Option Level

-- _HANDLER_NAME and _FORMAT
abbrev pub handler_name : String
handler_name = "pydblog-stream"

abbrev pub log_format : String
log_format = "%(asctime)s %(levelname)-8s %(name)s %(message)s"

-- `h.name == _HANDLER_NAME`
unfoldable pub is_installed : Handler → Bool
is_installed h = elim h.name [ none ↦ false | some name ↦ str_eq name handler_name ]

abbrev pub same_handler : Handler → Handler → Bool
same_handler h other = h.identity == other.identity

-- `logger.removeHandler(h)` and `logger.addHandler(h)` of the standard library.
abbrev pub remove_handler : List Handler → Handler → List Handler
remove_handler [] h = []
remove_handler (other ∷ handlers) h =
    let later = remove_handler handlers h in
    if same_handler h other then handlers else other ∷ later

abbrev pub add_handler : List Handler → Handler → List Handler
add_handler handlers h = if any (same_handler h) handlers then handlers else handlers ++ (h ∷ [])

-- The loop.
abbrev pub remove_each : List Handler → List Handler → List Handler
remove_each handlers [] = handlers
remove_each handlers (h ∷ installed) = remove_each (remove_handler handlers h) installed

abbrev or_stderr : Option ℕ → Stream
or_stderr none = stderr
or_stderr (some stream) = given stream

-- The handler that a call makes.
abbrev pub new_handler : ℕ → Option ℕ → Handler
new_handler identity stream = record {
  identity = identity;
  name = some handler_name;
  stream = some (or_stderr stream);
  format = some log_format;
}

-- `configure_logging`, where the new handler has the given identity.
unfoldable pub configure_logging : ℕ → Bool → Option ℕ → Logger → Logger
unfolding is_installed
configure_logging identity verbose stream logger =
    let installed = keep is_installed logger.handlers in
    let cleared = remove_each logger.handlers installed in
    record {
      handlers = add_handler cleared (new_handler identity stream);
      level = some (if verbose then debug else info);
    }

-- The logger once the module is imported: one `NullHandler`.
unfoldable pub on_import : ℕ → Logger → Logger
on_import identity logger = record logger {
  handlers =
      add_handler logger.handlers
        (record { identity = identity; name = none; stream = none; format = none });
}
