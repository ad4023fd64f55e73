-- ===== src/Tests/Logs.antt =====
-- The package's logger, once an application has attached a handler and logging was configured before.
use pydblog.Prelude.{◌≡◌, refl, true, not, none, some, [], ◌∷◌, ◌++◌, keep}
use pydblog.Logging.{
  Handler, Logger, is_installed, new_handler, info, configure_logging, on_import, given,
}
use pydblog.Logging.Handlers.{configure_logging-handlers}

abbrev other_handler : Handler
other_handler = record { identity = 5; name = some "app"; stream = some (given 7); format = none }

abbrev null_handler : Handler
null_handler = record { identity = 1; name = none; stream = none; format = none }

abbrev before : Logger
before = record {
  handlers = null_handler ∷ new_handler 3 none ∷ other_handler ∷ [];
  level = some info;
}

imported :
    on_import 1 (record { handlers = []; level = none })
    ≡ record { handlers = null_handler ∷ []; level = none }
unfolding on_import
imported = refl

configure_logging-handlers_example :
    ((configure_logging 9 true (some 2) before).handlers
      ≡ keep (λ h. not (is_installed h)) before.handlers ++ (new_handler 9 (some 2) ∷ []))
    × (keep is_installed (configure_logging 9 true (some 2) before).handlers
        ≡ new_handler 9 (some 2) ∷ [])
configure_logging-handlers_example =
    configure_logging-handlers 9 true (some 2) before ((refl, (refl, tt)), ((refl, tt), (tt, tt)))
      refl
