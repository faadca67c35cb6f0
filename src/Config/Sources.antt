-- ===== src/Config/Sources.antt =====
-- Where the settings of `ATPConfig` come from.
use atp_python.Base.{◌≡◌, refl, zero, suc, ap, ◌∙◌, ℕ, String, Option, none, some}
use atp_python.Base.Dict.{Dict, lookup}
use atp_python.Python.Exceptions.{ok}
use atp_python.Python.Json.{ℤ, pos, negsuc, integer}
use atp_python.Python.Integers.{int_of_text}
use atp_python.Python.Integers.RoundTrip.{int_of_text-integer}
use atp_python.Config.{
  ttl_key, interval_key, ttl_default, interval_default, Arguments, AtpConfig, seconds, required_key,
  key_of, configure, config_of, text_or_default, getenv_or,
}

-- An argument that is not given, or is 0
abbrev pub IsMissing : Option ℤ → Type 0
IsMissing none = Unit
IsMissing (some (pos zero)) = Unit
IsMissing (some _) = ⊥

-- Where a number of seconds comes from: the argument, the environment, or the default.
pub data Source (argument : Option ℤ) (k : String) (default : ℕ) (env : Dict String)
    : ℤ → Type 0 where
  from_argument :
      (n : ℤ) → (IsMissing (some n) → ⊥) → argument ≡ some n → Source argument k default env n
  from_environment :
      (n : ℤ)
      → IsMissing argument
      → lookup k env ≡ some (integer n)
      → Source argument k default env n
  from_default :
      IsMissing argument → lookup k env ≡ none → Source argument k default env (pos default)

missing_seconds :
    (o : Option ℤ) (k : String) (default : ℕ) (env : Dict String)
    → IsMissing o
    → seconds o k default env ≡ int_of_text (getenv_or k (integer (pos default)) env)
unfolding seconds
missing_seconds none k default env h = refl
missing_seconds (some (pos zero)) k default env h = refl
missing_seconds (some (pos (suc n))) k default env h = absurd h
missing_seconds (some (negsuc n)) k default env h = absurd h

given_seconds :
    (n : ℤ) (k : String) (default : ℕ) (env : Dict String)
    → (IsMissing (some n) → ⊥)
    → seconds (some n) k default env ≡ ok n
unfolding seconds
given_seconds (pos zero) k default env h = absurd (h tt)
given_seconds (pos (suc n)) k default env h = refl
given_seconds (negsuc n) k default env h = refl

seconds-Source :
    (o : Option ℤ) (k : String) (default : ℕ) (env : Dict String) (n : ℤ)
    → Source o k default env n
    → seconds o k default env ≡ ok n
seconds-Source o k default env n (from_argument m there same) =
    ap (λ x. seconds x k default env) same ∙ given_seconds m k default env there
seconds-Source o k default env n (from_environment m missing set) =
    missing_seconds o k default env missing
    ∙ ap (λ x. int_of_text (text_or_default x (integer (pos default)))) set
    ∙ int_of_text-integer m
seconds-Source o k default env n (from_default missing unset) =
    missing_seconds o k default env missing
    ∙ ap (λ x. int_of_text (text_or_default x (integer (pos default)))) unset
    ∙ int_of_text-integer (pos default)

module _ {Float : Type 0} where
  -- With an API key that is not empty, the configuration is made, and its two periods are those of
  -- their sources: an argument other than 0, else the decimal text of the environment variable, else
  -- the default of a week or an hour.
  pub configure-Source :
      (a : Arguments Float) (env : Dict String) (key : String) (ttl interval : ℤ)
      → required_key (key_of a env) ≡ ok key
      → Source a.proof_ttl_seconds ttl_key ttl_default env ttl
      → Source a.proof_cleanup_interval interval_key interval_default env interval
      → (c : AtpConfig Float) × (configure a env ≡ ok c)
        × (c.api_key ≡ key)
        × (c.proof_ttl_seconds ≡ ttl)
        × (c.proof_cleanup_interval ≡ interval)
  unfolding configure
  configure-Source a env key ttl interval keyed lives cleans =
      let e1 = seconds-Source _ _ _ env ttl lives in
      let e2 = seconds-Source _ _ _ env interval cleans in
      (config_of a env ttl interval key, rw (e1, e2, keyed) refl, refl, refl, refl)
