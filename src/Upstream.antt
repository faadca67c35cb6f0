-- ===== src/Upstream.antt =====
-- `challenge_and_verify` of atp/core/utils.py: the proof of an upstream agent, checked as it was sent.
pub mod Verdicts
pub mod Soundness
pub mod Reading
pub mod Returning
pub mod Errors
pub mod Contrast
pub mod Complete
use atp_python.Base.{
  String, Bool, true, false, Option, none, some, ◌&&◌, ◌||◌, leb, if◌then◌else◌, not,
}
use atp_python.Python.Exceptions.{
  Exception, Result, ok, raised, is_a, key_error, type_error, http_status_error,
}
use atp_python.Python.Exec.{pure, raise, lift, gets, try_except, ◌>>=◌, ◌>>◌}
use atp_python.Python.Json.{Json, obj, end, field, fields, truthy}
use atp_python.Python.Equality.{json_eq}
use atp_python.Python.DateTime.{DateTime}
use atp_python.Models.{
  Commit, CommitStatus, confirmed, failed, integrity, IntegrityAssessment, verified, compromised,
}
use atp_python.Hashing.{hash_with_prefix}
use atp_python.Wire.{Runtime, Response, json_of, item, get_key}
use atp_python.Wire.Records.{text_of}
use atp_python.Wire.RawProof.{RawTask, read_task, is_text}
use atp_python.Client.{Action, World, transmit, or_text}
use atp_python.Client.Reports.{Assessment, first_entry, verdict_text}
use atp_python.Client.Queries.{get_system, get_commit_by_system_and_task}
use atp_python.Client.Challenge.{
  Message, verified_and_confirmed, invocation_hash_mismatch, outcome_hash_mismatch,
  exchange_invocation_mismatch, exchange_outcome_mismatch, exchange_failed, unexpected_state,
  no_registered_system, challenge_refused, challenge_request_failed, invalid_structure,
  invocation_content_mismatch, outcome_content_mismatch, identity, rpc_payload, to_agent,
  system_id_of, report_quietly,
}

-- The proof as it was sent, whether it is verified, and why.
abbrev pub Verdict : Type 0
Verdict = Json × Bool × Message

-- The value of `.get`, if it is true
abbrev pub first_error : Option Json → Option Json
first_error none = none
first_error (some v) = if truthy v then some v else none

abbrev pub no_proof : Json
no_proof = obj end

-- What the comparison with the Exchange comes to: a commit that agrees, or an end.
pub data Compared : Type 0 where
  agreed : Commit → Compared
  ended : Verdict → Compared

-- The answer of the agent: a refusal, or a proof.
pub data Answer : Type 0 where
  refused : Json → Answer
  replied : Json → Answer

-- `expected is not None and content != expected` fails
abbrev pub agrees : Option Json → Json → Bool
agrees none content = true
agrees (some expected) content = json_eq content expected

module _ (R : Runtime) where
  open R use {sha256}

  -- `raise_for_status`: only 2xx is a success.
  abbrev success : Response → Result Json
  success response =
      if leb 200 response.status_code && leb response.status_code 299
      then json_of response
      else raised http_status_error

  -- The challenger's own identity, with a fixed name where the system cannot be fetched.
  unfoldable pub own_identity : String → Action R Json
  own_identity system_id = do
    url ← gets (λ w. or_text w.client.config.exchange_url "http://localhost:80")
    try_except
        (do
          system ← get_system R system_id
          pure (identity R url system_id system.type system.name))
        (λ e. pure (identity R url system_id "agent" "ATPClient"))

  -- `_report`: a fire-and-forget assessment of integrity
  abbrev pub integrity_of : RawTask → DateTime → IntegrityAssessment → Assessment
  integrity_of task now verdict = record {
    assessed_system_id = system_id_of task.system_uri;
    assessed_task_id = task.task_id;
    dimension = integrity;
    assessment = verdict_text verdict;
    assessed_at = now;
    assessor_task_id = none;
  }

  abbrev pub report_integrity : RawTask → DateTime → IntegrityAssessment → Action R (Unit {0})
  report_integrity task now verdict = report_quietly R (integrity_of task now verdict)

  -- A failed check is reported, and ends the verification.
  abbrev pub flag : Json → RawTask → DateTime → Message → Action R Verdict
  flag proof task now m = do report_integrity task now compromised; pure (proof, false, m)

  abbrev pub compare_hashes : Json → RawTask → DateTime → Commit → Action R Compared
  compare_hashes proof task now commit =
      if not (is_text commit.proof_sketch.cryptography.invocation_hash task.invocation_hash)
      then (do v ← flag proof task now exchange_invocation_mismatch; pure (ended v))
      else if not (is_text commit.proof_sketch.cryptography.outcome_hash task.outcome_hash)
      then (do v ← flag proof task now exchange_outcome_mismatch; pure (ended v))
      else pure (agreed commit)

  -- Step 2. An Exchange that cannot be asked is ambiguous: nothing is reported.
  unfoldable pub ask_exchange : Json → RawTask → DateTime → Action R Compared
  ask_exchange proof task now =
      try_except
        (do
          commit ←
              get_commit_by_system_and_task R (system_id_of task.system_uri)
                (text_of R task.task_id)
          compare_hashes proof task now commit)
        (λ e. pure (ended (proof, false, exchange_failed e)))

  -- Step 4
  abbrev pub by_status : Json → RawTask → DateTime → CommitStatus → Action R Verdict
  by_status proof task now confirmed = do
    report_integrity task now verified
    pure (proof, true, verified_and_confirmed)
  by_status proof task now failed = pure (proof, false, unexpected_state failed)

  -- Steps 3 and 4: the expected contents, and the status of the commit.
  unfoldable pub settle :
      Json → RawTask → Option Json → Option Json → DateTime → Compared → Action R Verdict
  settle proof task invocation outcome now (ended v) = pure v
  settle proof task invocation outcome now (agreed commit) =
      if not (agrees invocation task.invocation)
      then flag proof task now (invocation_content_mismatch task.invocation)
      else if not (agrees outcome task.outcome)
      then flag proof task now (outcome_content_mismatch task.outcome)
      else by_status proof task now commit.status

  -- Steps 1 to 4
  unfoldable pub check_task :
      Json → RawTask → Option Json → Option Json → DateTime → Action R Verdict
  unfolding ask_exchange settle
  check_task proof task invocation outcome now =
      if not (is_text (hash_with_prefix sha256 task.invocation) task.invocation_hash)
      then flag proof task now invocation_hash_mismatch
      else if not (is_text (hash_with_prefix sha256 task.outcome) task.outcome_hash)
      then flag proof task now outcome_hash_mismatch
      else (do
        compared ← ask_exchange proof task now
        settle proof task invocation outcome now compared)

  -- A missing or ill typed part ends the verification; any other exception goes through.
  abbrev pub check_read :
      Option Json → Option Json → DateTime → Json → Result RawTask → Action R Verdict
  check_read invocation outcome now proof (ok task) = check_task proof task invocation outcome now
  check_read invocation outcome now proof (raised e) =
      if is_a e key_error || is_a e type_error
      then pure (proof, false, invalid_structure e)
      else raise e

  unfoldable pub check_proof : Option Json → Option Json → DateTime → Json → Action R Verdict
  check_proof invocation outcome now proof =
      check_read invocation outcome now proof (read_task proof)

  -- `data.get("error")`, then `data["result"]`
  unfoldable pub read_answer : Response → Result Answer
  read_answer response = elim (success response) [
    | raised e ↦ raised e
    | ok reply ↦ elim (get_key "error" reply) [
      | raised e ↦ raised e
      | ok error ↦ elim (first_error error) [
        | some v ↦ ok (refused v)
        | none ↦ elim (item "result" reply) [ raised e ↦ raised e | ok v ↦ ok (replied v) ]
      ]
    ]
  ]

  -- Whatever goes wrong with the request ends the verification.
  unfoldable pub request_proof : String → String → Json → Action R (Result Answer)
  request_proof agent_url task_id challenger =
      try_except
        (do
          response ← transmit R (to_agent R agent_url (rpc_payload R task_id challenger))
          answer ← lift (read_answer response)
          pure (ok answer))
        (λ e. pure (raised e))

  abbrev pub check_answer : Option Json → Option Json → DateTime → Result Answer → Action R Verdict
  check_answer invocation outcome now (raised e) =
      pure (no_proof, false, challenge_request_failed e)
  check_answer invocation outcome now (ok (refused v)) = pure (no_proof, false, challenge_refused v)
  check_answer invocation outcome now (ok (replied v)) = check_proof invocation outcome now v

  -- An empty system id counts as none.
  abbrev pub challenge_from :
      String
      → String
      → Option Json
      → Option Json
      → DateTime
      → Option (String × String)
      → Action R Verdict
  challenge_from url task_id invocation outcome now none =
      pure (no_proof, false, no_registered_system)
  challenge_from url task_id invocation outcome now (some (_, String.[])) =
      pure (no_proof, false, no_registered_system)
  challenge_from url task_id invocation outcome now (some (_, String.◌∷◌ c s)) = do
    challenger ← own_identity (String.◌∷◌ c s)
    answer ← request_proof url task_id challenger
    check_answer invocation outcome now answer

  unfoldable pub challenge_and_verify :
      String → String → Option Json → Option Json → DateTime → Action R Verdict
  challenge_and_verify agent_url task_id invocation outcome now w =
      challenge_from agent_url task_id invocation outcome now
        (first_entry w.client.registered_systems) w
