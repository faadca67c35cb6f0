-- ===== src/Wire/RawProof.antt =====
-- What `challenge_and_verify` of atp/core/utils.py reads of a proof that no model has checked.
use atp_python.Base.{String, Bool, false, ◌==◌}
use atp_python.Python.Exceptions.{Result, ok, raised, attribute_error, ◌>>=◌}
use atp_python.Python.Json.{Json, str}
use atp_python.Wire.{item}

pub record RawTask : Type 0 where
  pub system_uri : String
  pub task_id : Json
  pub invocation : Json
  pub invocation_hash : Json
  pub outcome : Json
  pub outcome_hash : Json

-- `uri.rstrip("/")`, which only a text has
abbrev pub text_uri : Json → Result String
text_uri (str s) = ok s
text_uri _ = raised attribute_error

-- `stored_proof["proof_data"]["task"]`
unfoldable pub raw_task : Json → Result Json
raw_task proof = do proof_data ← item "proof_data" proof; item "task" proof_data

unfoldable pub read_task : Json → Result RawTask
read_task proof = do
  task ← raw_task proof
  uri ← item "system_uri" task
  task_id ← item "task_id" task
  invocation ← item "invocation" task
  invocation_hash ← item "invocation_hash" task
  outcome ← item "outcome" task
  outcome_hash ← item "outcome_hash" task
  system_uri ← text_uri uri
  ok (record {
    system_uri = system_uri;
    task_id = task_id;
    invocation = invocation;
    invocation_hash = invocation_hash;
    outcome = outcome;
    outcome_hash = outcome_hash;
  })

-- `h == v` of a text `h`
abbrev pub is_text : String → Json → Bool
is_text h (str t) = h == t
is_text h _ = false
