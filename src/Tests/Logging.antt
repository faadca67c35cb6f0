-- ===== src/Tests/Logging.antt =====
-- Logging that is configured and then turned off, at a concrete input.
use atp_python.Base.{◌≡◌, true, false, some, [], ◌∷◌}
use atp_python.Logging.{info, critical, unconfigured, level_of, configure_logging, get_logger}
use atp_python.Config.{lowers_to}
use atp_python.Logging.States.{
  configure, logger, disable, disabled, configures, gets, perform_all, perform_all-Resets,
}

perform_all-Resets_example :
    perform_all (logger ∷ disable ∷ configure "DEBUG" false ∷ logger ∷ []) unconfigured ≡ record {
      configured = true;
      root = some info;
      structlog = some (record { use_json = true; level = critical });
    }
unfolding perform_all configure_logging get_logger level_of lowers_to
perform_all-Resets_example =
    perform_all-Resets (logger ∷ []) (configure "DEBUG" false ∷ logger ∷ []) disable critical
      unconfigured disabled (configures "DEBUG" false, (gets, tt))
