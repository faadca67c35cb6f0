-- ===== src/Logging/States.antt =====
-- What the functions of atp/core/logging.py do to the root logger.
use atp_python.Base.{
  ◌≡◌, refl, ap, ◌∙◌, String, Bool, true, false, Option, none, some, List, [], ◌∷◌, ◌++◌, Every,
}
use atp_python.Config.{lowers_to}
use atp_python.Python.Exceptions.{ok}
use atp_python.Python.Exec.{Exec}
use atp_python.Logging.{
  Level, critical, info, LogState, level_of, basic_config, configured_as, configure_logging,
  get_logger, set_log_level, disable_logging, enable_logging,
}

-- A call of one of the functions
pub data Call : Type 0 where
  configure : String → Bool → Call
  logger disable enable : Call
  set_level : String → Call

abbrev pub perform : Call → Exec LogState (Unit {0})
perform (configure name use_json) = configure_logging name use_json
perform logger = get_logger
perform disable = disable_logging
perform enable = enable_logging
perform (set_level name) = set_log_level name

-- Calls in a row; one that raises does not keep the others from being made.
unfoldable pub perform_all : List Call → LogState → LogState
perform_all [] s = s
perform_all (call ∷ calls) s = perform_all calls (perform call s).1

-- A call that takes the flag back, and the level that it asks for
pub data Resets : Call → Level → Type 0 where
  disabled : Resets disable critical
  enabled : Resets enable info
  leveled : (name : String) (l : Level) → level_of name ≡ ok l → Resets (set_level name) l

-- A call that leaves a module that is configured as it is
pub data IsQuiet : Call → Type 0 where
  configures : (name : String) (use_json : Bool) → IsQuiet (configure name use_json)
  gets : IsQuiet logger

abbrev pub reset_to : Level → LogState → LogState
reset_to l s = configured_as true l (record s { configured = false })

set_log_level-ok :
    (name : String) (l : Level) (s : LogState)
    → level_of name ≡ ok l
    → (set_log_level name s).1 ≡ reset_to l s
unfolding set_log_level configure_logging
set_log_level-ok name l s h = rw h refl

perform-Resets :
    (call : Call) (l : Level) (s : LogState) → Resets call l → (perform call s).1 ≡ reset_to l s
unfolding disable_logging enable_logging level_of lowers_to
perform-Resets disable l s disabled = set_log_level-ok "CRITICAL" critical s refl
perform-Resets enable l s enabled = set_log_level-ok "INFO" info s refl
perform-Resets (set_level name) l s (leveled _ _ h) = set_log_level-ok name l s h
perform-Resets (configure name use_json) l s resets = elim resets [ ]
perform-Resets logger l s resets = elim resets [ ]

perform-IsQuiet :
    (call : Call) (s : LogState) → IsQuiet call → s.configured ≡ true → (perform call s).1 ≡ s
unfolding configure_logging get_logger
perform-IsQuiet (configure name use_json) s (configures _ _) h = rw h refl
perform-IsQuiet logger s gets h = rw h refl
perform-IsQuiet disable s quiet h = elim quiet [ ]
perform-IsQuiet enable s quiet h = elim quiet [ ]
perform-IsQuiet (set_level name) s quiet h = elim quiet [ ]

perform_all-IsQuiet :
    (calls : List Call) (s : LogState)
    → Every IsQuiet calls
    → s.configured ≡ true
    → perform_all calls s ≡ s
unfolding perform_all
perform_all-IsQuiet [] s quiet h = refl
perform_all-IsQuiet (call ∷ calls) s (q, quiet) h =
    ap (perform_all calls) (perform-IsQuiet call s q h) ∙ perform_all-IsQuiet calls s quiet h

-- Whatever was called before, after `disable_logging`, `enable_logging`, or `set_log_level` with the
-- name of a level, structlog prints JSON and filters at the level that was asked for, and no calls of
-- `configure_logging` and `get_logger` change this. The root logger has that level only if it had none
-- before: otherwise it keeps the level it had.
pub perform_all-Resets :
    (before after : List Call) (call : Call) (l : Level) (s : LogState)
    → Resets call l
    → Every IsQuiet after
    → perform_all (before ++ (call ∷ after)) s ≡ record {
      configured = true;
      root = elim (perform_all before s).root [ none ↦ some l | some k ↦ some k ];
      structlog = some (record { use_json = true; level = l });
    }
unfolding perform_all
perform_all-Resets [] after call l s resets quiet =
    ap (perform_all after) (perform-Resets call l s resets)
    ∙ perform_all-IsQuiet after (reset_to l s) quiet refl
    ∙ same s.root
  where
    same :
        (r : Option Level)
        → ◌≡◌ {A = LogState}
            (record {
              configured = true;
              root = basic_config l r;
              structlog = some (record { use_json = true; level = l });
            })
            (record {
              configured = true;
              root = elim r [ none ↦ some l | some k ↦ some k ];
              structlog = some (record { use_json = true; level = l });
            })
    same none = refl
    same (some k) = refl
perform_all-Resets (call' ∷ before) after call l s resets quiet =
    perform_all-Resets before after call l (perform call' s).1 resets quiet
