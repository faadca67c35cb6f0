-- ===== src/Config/Refusals.antt =====
-- When `ATPConfig` refuses to be made.
use Prim.Native.String.{◌∷◌, []}
use atp_python.Base.{
  ◌≡◌, refl, sym, ap, ◌∙◌, ℕ, zero, suc, String, Option, none, some, ◌⊎◌, inl, inr,
}
use atp_python.Base.Dict.{Dict, lookup}
use atp_python.Python.Exceptions.{
  Exception, Result, ok, raised, value_error, atp_config_error, raised_injective, raised≢ok, ◌>>=◌,
}
use atp_python.Python.Json.{ℤ, pos, negsuc, integer}
use atp_python.Python.Integers.{
  Reading, start, bad, need, have, over, finish, read_from, int_of_text,
}
use atp_python.Python.Integers.RoundTrip.{int_of_text-integer}
use atp_python.Config.{
  ttl_key, interval_key, ttl_default, interval_default, Arguments, seconds, required_key, key_of,
  config_of, configure, text_or_default,
}

-- A text that is missing or empty
abbrev pub IsBlank : Option String → Type 0
IsBlank none = Unit
IsBlank (some []) = Unit
IsBlank (some (c ∷ s)) = ⊥

-- A number that is missing or 0
abbrev pub IsMissing : Option ℤ → Type 0
IsMissing none = Unit
IsMissing (some (pos zero)) = Unit
IsMissing (some (pos (suc n))) = ⊥
IsMissing (some (negsuc n)) = ⊥

-- The environment has a text under the key that is no number.
abbrev pub Garbled : String → Dict String → Type 0
Garbled k env = (t : String) × (lookup k env ≡ some t) × (int_of_text t ≡ raised value_error)

finish-raised : (r : Reading) (e : Exception) → finish r ≡ raised e → e ≡ value_error
finish-raised (have b n) e h = cc
finish-raised (over b n) e h = cc
finish-raised start e h = sym (raised_injective h)
finish-raised bad e h = sym (raised_injective h)
finish-raised (need b n) e h = sym (raised_injective h)

int_of_text-raised : (s : String) (e : Exception) → int_of_text s ≡ raised e → e ≡ value_error
unfolding int_of_text
int_of_text-raised s e h = finish-raised (read_from start s) e h

garbled_from :
    (o : Option String) (default : ℕ) (e : Exception)
    → int_of_text (text_or_default o (integer (pos default))) ≡ raised e
    → (e ≡ value_error) × ((t : String) × (o ≡ some t) × (int_of_text t ≡ raised value_error))
garbled_from none default e h = absurd (raised≢ok (sym h ∙ int_of_text-integer (pos default)))
garbled_from (some t) default e h =
    let what = int_of_text-raised t e h in (what, (t, refl, h ∙ ap raised what))

seconds-raised :
    (o : Option ℤ) (k : String) (default : ℕ) (env : Dict String) (e : Exception)
    → seconds o k default env ≡ raised e
    → (e ≡ value_error) × IsMissing o × Garbled k env
unfolding seconds
seconds-raised none k default env e h =
    let (what, garbled) = garbled_from (lookup k env) default e h in (what, tt, garbled)
seconds-raised (some (pos zero)) k default env e h =
    let (what, garbled) = garbled_from (lookup k env) default e h in (what, tt, garbled)
seconds-raised (some (pos (suc n))) k default env e h = cc
seconds-raised (some (negsuc n)) k default env e h = cc

required_key-raised :
    (o : Option String) (e : Exception)
    → required_key o ≡ raised e
    → (e ≡ atp_config_error) × IsBlank o
required_key-raised none e h = (sym (raised_injective h), tt)
required_key-raised (some []) e h = (sym (raised_injective h), tt)
required_key-raised (some (c ∷ s)) e h = cc

-- What was raised by a sequence was raised by its first part or by the second.
bind_raised :
    {A B : Type 0} {C : Type 0} (first : Result A) (next : A → Result B) (e : Exception)
    → (first ≡ raised e → C)
    → ((a : A) → first ≡ ok a → next a ≡ raised e → C)
    → (first >>= next) ≡ raised e
    → C
bind_raised (ok a) next e before after h = after a refl h
bind_raised (raised d) next e before after h = before cc

module _ {Float : Type 0} where
  -- The constructor raises ValueError where the period of `ttl_key`, or when this one can be read,
  -- that of `interval_key`, is not given and the environment has a text under its key that is no
  -- number; and when both periods can be read, ATPConfigError where neither the argument nor the
  -- environment has an API key that is not empty. It raises nothing else: this is the order of the
  -- tests.
  pub configure-raises :
      (a : Arguments Float) (env : Dict String) (e : Exception)
      → configure a env ≡ raised e
      → ((e ≡ value_error) × IsMissing a.proof_ttl_seconds × Garbled ttl_key env)
        ⊎ ((ttl : ℤ) × (seconds a.proof_ttl_seconds ttl_key ttl_default env ≡ ok ttl)
            × (((e ≡ value_error) × IsMissing a.proof_cleanup_interval × Garbled interval_key env)
                ⊎ ((interval : ℤ) × (seconds a.proof_cleanup_interval interval_key interval_default
                        env
                      ≡ ok interval)
                    × (e ≡ atp_config_error)
                    × IsBlank (key_of a env))))
  unfolding configure
  configure-raises a env e =
      bind_raised (seconds a.proof_ttl_seconds ttl_key ttl_default env) _ e
        (λ h. inl (seconds-raised a.proof_ttl_seconds ttl_key ttl_default env e h))
        λ ttl read.
          bind_raised (seconds a.proof_cleanup_interval interval_key interval_default env) _ e
            (λ h. inr (
              ttl,
              read,
              inl (seconds-raised a.proof_cleanup_interval interval_key interval_default env e h),
            ))
            λ interval read'.
              bind_raised (required_key (key_of a env))
                (λ key. ok (config_of a env ttl interval key)) e
                (λ h. inr (
                  ttl,
                  read,
                  inr (
                      let (what, blank) = required_key-raised (key_of a env) e h in
                      (interval, read', what, blank)),
                ))
                (λ key _ made. absurd (raised≢ok (sym made)))
