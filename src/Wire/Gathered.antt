-- ===== src/Wire/Gathered.antt =====
-- The `ProofData` that `pre_challenge_dependencies` of atp/core/utils.py builds of a verified proof.
use atp_python.Base.{String, Option, none, some, [], if◌then◌else◌}
use atp_python.Python.Exceptions.{Result, ok, raised, is_a, value_error, validation_error, ◌>>=◌}
use atp_python.Python.Json.{Json, str, obj, Fields}
use atp_python.Python.DateTime.{DateTime}
use atp_python.Models.{ProofData, TrustLevel}
use atp_python.Wire.{Runtime, item, get_key, as_str}
use atp_python.Wire.RawProof.{raw_task}

abbrev pub value_or : String → Option Json → Json
value_or text none = str text
value_or text (some v) = v

abbrev pub as_fields : Json → Result Fields
as_fields (obj fs) = ok fs
as_fields _ = raised validation_error

-- `except ValueError` falls back to the clock.
abbrev parsed_or : DateTime → Result DateTime → Result DateTime
parsed_or now (ok t) = ok t
parsed_or now (raised e) = if is_a e value_error then ok now else raised e

module _ (R : Runtime) where
  open R use {fromisoformat}

  -- The timestamp of the task; whatever is no text counts as missing.
  unfoldable pub timestamp_or : DateTime → Option Json → Result DateTime
  timestamp_or now (some (str s)) = parsed_or now (fromisoformat s)
  timestamp_or now _ = ok now

  unfoldable pub task_data : DateTime → Json → Result ProofData
  unfolding timestamp_or
  task_data now task = do
    timestamp ← get_key "timestamp" task
    at ← timestamp_or now timestamp
    raw_uri ← item "system_uri" task
    raw_type ← get_key "system_type" task
    raw_id ← item "task_id" task
    raw_invocation ← item "invocation" task
    raw_invocation_hash ← item "invocation_hash" task
    raw_outcome ← item "outcome" task
    raw_outcome_hash ← item "outcome_hash" task
    uri ← as_str raw_uri
    type ← as_str (value_or "agent" raw_type)
    id ← as_str raw_id
    invocation ← as_fields raw_invocation
    invocation_hash ← as_str raw_invocation_hash
    outcome ← as_fields raw_outcome
    outcome_hash ← as_str raw_outcome_hash
    ok (record {
      task = record {
        system_uri = uri;
        system_type = type;
        task_id = id;
        invocation = invocation;
        invocation_hash = invocation_hash;
        outcome = outcome;
        outcome_hash = outcome_hash;
        timestamp = at;
        trust_level = TrustLevel.verified;
      };
      dependencies = [];
    })

  unfoldable pub gathered : DateTime → Json → Result ProofData
  unfolding task_data
  gathered now proof = do task ← raw_task proof; task_data now task
