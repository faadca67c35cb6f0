-- ===== src/Tests/Config.antt =====
-- The configuration from arguments and the environment, at concrete inputs.
use atp_python.Base.{◌≡◌, refl, ◌⊎◌, String, true, false, none, some, [], ◌∷◌}
use atp_python.Base.Dict.{Dict, lookup}
use atp_python.Python.Exceptions.{ok, raised, value_error, atp_config_error}
use atp_python.Python.Json.{ℤ, pos, integer}
use atp_python.Python.Integers.{int_of_text}
use atp_python.Config.{
  ttl_key, interval_key, ttl_default, interval_default, Arguments, AtpConfig, seconds, key_of,
  configure,
}
use atp_python.Config.Sources.{from_environment, from_default, configure-Source}
use atp_python.Config.Refusals.{IsBlank, IsMissing, Garbled, configure-raises}

-- The delay is a number of quarters of a second here.
abbrev arguments : Arguments ℤ
arguments = record {
  api_key = some "k";
  exchange_url = none;
  enable_logging = false;
  commit_timeout = pos 30;
  retry_attempts = pos 3;
  max_verification_delay = pos 8;
  proof_ttl_seconds = some (pos 0);
  proof_cleanup_interval = none;
  proof_storage_required = some true;
  proof_db_path = none;
}

abbrev environment : Dict String
environment = (ttl_key, "60") ∷ []

set_run : lookup ttl_key environment ≡ some (integer (pos 60))
unfolding lookup integer
set_run = refl

unset_run : lookup interval_key environment ≡ none
unfolding lookup
unset_run = refl

configure-Source_example :
    (c : AtpConfig ℤ) × (configure arguments environment ≡ ok c)
    × (c.api_key ≡ "k")
    × (c.proof_ttl_seconds ≡ pos 60)
    × (c.proof_cleanup_interval ≡ pos 3600)
configure-Source_example =
    configure-Source arguments environment "k" (pos 60) (pos 3600) refl
      (from_environment (pos 60) tt set_run) (from_default tt unset_run)

abbrev garbled : Dict String
garbled = (ttl_key, "1 day") ∷ []

garbled_run : configure arguments garbled ≡ raised value_error
unfolding configure seconds lookup int_of_text
garbled_run = refl

configure-raises_example :
    ((value_error ≡ value_error) × IsMissing arguments.proof_ttl_seconds × Garbled ttl_key garbled)
    ⊎ ((ttl : ℤ) × (seconds arguments.proof_ttl_seconds ttl_key ttl_default garbled ≡ ok ttl)
        × (((value_error ≡ value_error)
              × IsMissing arguments.proof_cleanup_interval
              × Garbled interval_key garbled)
            ⊎ ((interval : ℤ) × (seconds arguments.proof_cleanup_interval interval_key
                    interval_default garbled
                  ≡ ok interval)
                × (value_error ≡ atp_config_error)
                × IsBlank (key_of arguments garbled))))
configure-raises_example = configure-raises arguments garbled value_error garbled_run
