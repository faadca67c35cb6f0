-- ===== src/Config.antt =====
-- `ATPConfig` of atp/core/config.py: arguments first, then environment variables, then defaults.
pub mod Sources
pub mod Refusals
use Prim.Native.Char.{code}
use Prim.Native.String.{◌∷◌, []}
use atp_python.Base.{
  ℕ, suc, zero, ◌+◌, ◌*◌, String, Bool, true, false, Option, none, some, ◌&&◌, ◌||◌, eqb,
}
use atp_python.Base.Dict.{Dict, lookup}
use atp_python.Python.Exceptions.{Result, ok, raised, atp_config_error, ◌>>=◌}
use atp_python.Python.Json.{ℤ, pos, integer}
use atp_python.Python.Integers.{int_of_text}

abbrev pub ttl_key : String
ttl_key = "ATP_PROOF_TTL_SECONDS"

abbrev pub interval_key : String
interval_key = "ATP_PROOF_CLEANUP_INTERVAL"

-- A week, and an hour
abbrev pub ttl_default : ℕ
ttl_default = 7 * 24 * 60 * 60

abbrev pub interval_default : ℕ
interval_default = 60 * 60

-- The arguments of the constructor; `Float` is Python's type of that name.
pub record Arguments (Float : Type 0) : Type 0 where
  pub api_key : Option String
  pub exchange_url : Option String
  pub enable_logging : Bool
  pub commit_timeout : ℤ
  pub retry_attempts : ℤ
  pub max_verification_delay : Float
  pub proof_ttl_seconds : Option ℤ
  pub proof_cleanup_interval : Option ℤ
  pub proof_storage_required : Option Bool
  pub proof_db_path : Option String

pub record AtpConfig (Float : Type 0) : Type 0 where
  pub api_key : String
  pub exchange_url : String
  pub enable_logging : Bool
  pub commit_timeout : ℤ
  pub retry_attempts : ℤ
  pub max_verification_delay : Float
  pub proof_ttl_seconds : ℤ
  pub proof_cleanup_interval : ℤ
  pub proof_storage_required : Bool
  pub proof_db_path : String

-- `a or b` of texts that may be missing: an empty one counts as missing.
abbrev pub given : Option String → Option String → Option String
given none other = other
given (some []) other = other
given (some (c ∷ s)) other = some (c ∷ s)

abbrev pub text_or_default : Option String → String → String
text_or_default none default = default
text_or_default (some s) default = s

-- `os.getenv(k, default)`
abbrev pub getenv_or : String → String → Dict String → String
getenv_or k default env = text_or_default (lookup k env) default

-- `s.lower() == w`, where `w` has only letters of "true", which no letter outside ASCII becomes
unfoldable pub lowers_to : String → String → Bool
lowers_to [] [] = true
lowers_to [] (d ∷ w) = false
lowers_to (c ∷ s) [] = false
lowers_to (c ∷ s) (d ∷ w) = (eqb (code c) (code d) || eqb (code c + 32) (code d)) && lowers_to s w

-- `n or int(os.getenv(k, str(default)))`: 0 counts as missing.
unfoldable pub seconds : Option ℤ → String → ℕ → Dict String → Result ℤ
unfolding int_of_text integer
seconds none k default env = int_of_text (getenv_or k (integer (pos default)) env)
seconds (some (pos zero)) k default env = int_of_text (getenv_or k (integer (pos default)) env)
seconds (some n) k default env = ok n

abbrev pub required_key : Option String → Result String
required_key none = raised atp_config_error
required_key (some []) = raised atp_config_error
required_key (some (c ∷ s)) = ok (c ∷ s)

abbrev storage_required : Option Bool → Dict String → Bool
storage_required none env = lowers_to (getenv_or "ATP_PROOF_STORAGE_REQUIRED" "true" env) "true"
storage_required (some b) env = b

module _ {Float : Type 0} where
  abbrev pub key_of : Arguments Float → Dict String → Option String
  key_of a env = given a.api_key (lookup "ATP_API_KEY" env)

  abbrev pub config_of : Arguments Float → Dict String → ℤ → ℤ → String → AtpConfig Float
  config_of a env ttl interval key = record {
    api_key = key;
    exchange_url =
        text_or_default
          (given a.exchange_url (some (getenv_or "ATP_EXCHANGE_URL" "http://localhost:8080" env)))
          "";
    enable_logging = a.enable_logging || lowers_to (getenv_or "ATP_ENABLE_LOGGING" "" env) "true";
    commit_timeout = a.commit_timeout;
    retry_attempts = a.retry_attempts;
    max_verification_delay = a.max_verification_delay;
    proof_ttl_seconds = ttl;
    proof_cleanup_interval = interval;
    proof_storage_required = storage_required a.proof_storage_required env;
    proof_db_path =
        text_or_default (given a.proof_db_path (given (lookup "ATP_PROOF_DB_PATH" env) none))
          "~/.atp/proofs.db";
  }

  -- `__init__`, without what it logs
  unfoldable pub configure : Arguments Float → Dict String → Result (AtpConfig Float)
  unfolding seconds lowers_to
  configure a env = do
    ttl ← seconds a.proof_ttl_seconds ttl_key ttl_default env
    interval ← seconds a.proof_cleanup_interval interval_key interval_default env
    key ← required_key (key_of a env)
    ok (config_of a env ttl interval key)
