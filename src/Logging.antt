-- ===== src/Logging.antt =====
-- atp/core/logging.py: what configures Python's logging and structlog. Names of levels are ASCII; the
-- other attributes of the logging module that a name could mean are left out.
pub mod States
use atp_python.Base.{String, Bool, true, false, Option, none, some, if◌then◌else◌}
use atp_python.Python.Exceptions.{Result, ok, raised, attribute_error}
use atp_python.Python.Exec.{Exec, pure, lift, modify, ◌>>=◌, ◌>>◌}
use atp_python.Config.{lowers_to}

pub data Level : Type 0 where
  debug info warning error critical : Level

-- How structlog was configured last: JSON or the console, and the level of the filter.
pub record Structlog : Type 0 where
  pub use_json : Bool
  pub level : Level

-- The module's flag, the level of the root logger once it has a handler, and structlog.
pub record LogState : Type 0 where
  pub configured : Bool
  pub root : Option Level
  pub structlog : Option Structlog

abbrev pub unconfigured : LogState
unconfigured = record { configured = false; root = none; structlog = none }

-- `getattr(logging, name.upper())`
unfoldable pub level_of : String → Result Level
unfolding lowers_to
level_of name =
    if lowers_to name "debug"
    then ok debug
    else if lowers_to name "info"
    then ok info
    else if lowers_to name "warning"
    then ok warning
    else if lowers_to name "error"
    then ok error
    else if lowers_to name "critical"
    then ok critical
    else raised attribute_error

-- `logging.basicConfig` does nothing once the root logger has a handler.
abbrev pub basic_config : Level → Option Level → Option Level
basic_config level none = some level
basic_config level (some l) = some l

abbrev pub configured_as : Bool → Level → LogState → LogState
configured_as use_json level s = record {
  configured = true;
  root = basic_config level s.root;
  structlog = some (record { use_json = use_json; level = level });
}

abbrev pub configure_new : String → Bool → Exec LogState (Unit {0})
configure_new name use_json = do level ← lift (level_of name); modify (configured_as use_json level)

-- The early return of a module that is configured
abbrev pub configure_unless : Bool → String → Bool → Exec LogState (Unit {0})
configure_unless true name use_json = pure tt
configure_unless false name use_json = configure_new name use_json

unfoldable pub configure_logging : String → Bool → Exec LogState (Unit {0})
configure_logging name use_json s = configure_unless s.configured name use_json s

-- `get_logger`, without the logger
unfoldable pub get_logger : Exec LogState (Unit {0})
get_logger = configure_logging "INFO" true

-- The flag is taken back, and JSON is the default again.
unfoldable pub set_log_level : String → Exec LogState (Unit {0})
unfolding configure_logging
set_log_level name = do modify (λ s. record s { configured = false }); configure_logging name true

unfoldable pub disable_logging : Exec LogState (Unit {0})
disable_logging = set_log_level "CRITICAL"

unfoldable pub enable_logging : Exec LogState (Unit {0})
enable_logging = set_log_level "INFO"
