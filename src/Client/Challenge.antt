-- ===== src/Client/Challenge.antt =====
-- `challenge` and `_verify` of `ATPClient`.
pub mod Genuine
pub mod Soundness
pub mod Content
pub mod Reporting
use atp_python.Base.{
  ℕ, String, ◌<>◌, Bool, true, false, Option, none, some, List, [], ◌∷◌, eqb, if◌then◌else◌, not,
  ◌&&◌, ◌||◌, ◌==◌, is_some,
}
use atp_python.Base.Dict
use atp_python.Base.Dict.{Dict, lookup}
use atp_python.Base.Texts.{rstrip, last_segment}
use atp_python.Python.Exceptions.{
  Exception, Result, ok, raised, is_a, exception, atp_auth_error, atp_query_error,
  atp_network_error, request_error, runtime_error, key_error, value_error, type_error,
  attribute_error,
}
use atp_python.Python.Exec.{pure, raise, lift, gets, try_except, ◌>>=◌, ◌>>◌}
use atp_python.Python.Json.{
  Json, null, bool, int, str, arr, obj, Items, nil, cons, Fields, end, field, ℤ, pos, fields,
  truthy,
}
use atp_python.Python.DateTime.{DateTime, isoformat}
use atp_python.Models.{
  Commit, CommitStatus, confirmed, failed, System, ProofDataTask, StoredProof, AssessmentDimension,
  integrity, quality, compliance, AssessmentRecord, IntegrityAssessment, verified, compromised,
}
use atp_python.Hashing.{hash_with_prefix}
use atp_python.Wire.{
  as_str, Runtime, Request, Response, post, json_of, item, reject, error_detail, created,
}
use atp_python.Wire.Decode.{iso}
use atp_python.Client.{Action, World, http, transmit, request_of, optional_field}
use atp_python.Wire.Rpc.{read_proof}
use atp_python.Client.Reports.{Assessment, first_entry, verdict_text, report_assessment}
use atp_python.Client.Queries.{get_system, get_commit_by_system_and_task}
use text.Mathlib.Text.{find?}

-- The third part of a verdict: the message, and what it quotes.
pub data Message : Type 0 where
  verified_and_confirmed verification_skipped : Message
  invocation_hash_mismatch outcome_hash_mismatch : Message
  exchange_invocation_mismatch exchange_outcome_mismatch : Message
  exchange_failed : Exception → Message
  unexpected_state : CommitStatus → Message
  no_registered_system : Message
  challenge_refused : Json → Message
  challenge_request_failed invalid_structure : Exception → Message
  invocation_content_mismatch outcome_content_mismatch : Json → Message

-- `system_uri.rstrip("/").rsplit("/", 1)[-1]`
unfoldable pub system_id_of : String → String
system_id_of uri = last_segment b'/' (rstrip b'/' uri)

module _ (R : Runtime) where
  open R use {sha256, validate_stored_proof}

  -- What `_verify` concludes from the task and the commit that the Exchange has for it.
  unfoldable pub compare_commit : ProofDataTask → Commit → Bool × Message
  compare_commit task commit =
      if not (commit.proof_sketch.cryptography.invocation_hash == task.invocation_hash)
      then (false, exchange_invocation_mismatch)
      else if not (commit.proof_sketch.cryptography.outcome_hash == task.outcome_hash)
      then (false, exchange_outcome_mismatch)
      else elim commit.status [
        | confirmed ↦ (true, verified_and_confirmed)
        | failed ↦ (false, unexpected_state failed)
      ]

  unfoldable pub check_exchange : ProofDataTask → Action R (Bool × Message)
  unfolding compare_commit
  check_exchange task =
      try_except
        (do
          commit ← get_commit_by_system_and_task R (system_id_of task.system_uri) task.task_id
          pure (compare_commit task commit))
        (λ e. pure (false, exchange_failed e))

  -- `_verify`
  unfoldable pub verify : StoredProof → Action R (Bool × Message)
  verify stored =
      let task = stored.proof_data.task in
      if not (hash_with_prefix sha256 (obj task.invocation) == task.invocation_hash)
      then pure (false, invocation_hash_mismatch)
      else if not (hash_with_prefix sha256 (obj task.outcome) == task.outcome_hash)
      then pure (false, outcome_hash_mismatch)
      else check_exchange task

  -- The identity that a challenge carries; it falls back where the system cannot be fetched.
  abbrev pub identity : String → String → String → String → Json
  identity url system_id type name = obj (
      field "atp_exchange_url" (str url) (
        field "system_id" (str system_id) (
          field "system_type" (str type)
            (field "system_name" (str name) (field "extensions" (obj end) end)))))

  unfoldable pub challenger_identity : String → String → Action R Json
  challenger_identity name system_id = do
    url ← gets (λ w. w.client.config.exchange_url)
    try_except
        (do system ← get_system R system_id; pure (identity url system_id system.type system.name))
        (λ e. pure (identity url system_id "agent" name))

  abbrev pub rpc_payload : String → Json → Json
  rpc_payload task_id challenger = obj (
      field "jsonrpc" (str "2.0") (
        field "method" (str "atp.challenge") (
          field "params" (obj (field "task_id" (str task_id) (field "challenger" challenger end)))
            (field "id" (int (pos 1)) end))))

  -- The temporary client that a challenge is sent with has no base URL and no token.
  abbrev pub to_agent : String → Json → Request
  to_agent url body = record {
    method = post;
    base_url = "";
    path = url;
    params = [];
    token = none;
    body = some body;
  }

  abbrev pub verdict_of : Bool → IntegrityAssessment
  verdict_of true = verified
  verdict_of false = compromised

  abbrev pub integrity_report :
      StoredProof → IntegrityAssessment → DateTime → Option String → Assessment
  integrity_report stored verdict now assessor_task_id = record {
    assessed_system_id = system_id_of stored.proof_data.task.system_uri;
    assessed_task_id = str stored.proof_data.task.task_id;
    dimension = integrity;
    assessment = verdict_text verdict;
    assessed_at = now;
    assessor_task_id = assessor_task_id;
  }

  -- A report that fails changes nothing in the outcome.
  abbrev pub report_quietly : Assessment → Action R (Unit {0})
  report_quietly a = try_except (do _ ← report_assessment R a; pure tt) (λ e. pure tt)

  -- What follows the answer: verification, unless it is turned off, and the report.
  unfoldable pub judge :
      StoredProof → Bool → Option String → DateTime → Action R (StoredProof × Bool × Message)
  unfolding verify check_exchange
  judge stored false assessor_task_id now = pure (stored, false, verification_skipped)
  judge stored true assessor_task_id now = do
    verdict ← verify stored
    report_quietly (integrity_report stored (verdict_of verdict.0) now assessor_task_id)
    pure (stored, verdict.0, verdict.1)

  abbrev pub conclude :
      Bool → Option String → DateTime → Response → Action R (StoredProof × Bool × Message)
  conclude check assessor_task_id now response = do
    stored ← lift (read_proof R response)
    judge stored check assessor_task_id now

  -- The `except` clauses of `challenge`
  abbrev challenge_handler : {A : Type 0} → Exception → Action R A
  challenge_handler e =
      if is_a e request_error
      then raise atp_network_error
      else if is_a e atp_query_error
      then raise e
      else if is_a e key_error || is_a e value_error
      then raise atp_query_error
      else raise e

  challenge_as :
      String
      → String
      → String
      → String
      → Bool
      → Option String
      → DateTime
      → Action R (StoredProof × Bool × Message)
  unfolding judge
  challenge_as name system_id agent_url task_id check assessor_task_id now = do
    challenger ← challenger_identity name system_id
    try_except
        (do
          response ← transmit R (to_agent agent_url (rpc_payload task_id challenger))
          conclude check assessor_task_id now response)
        (challenge_handler)

  -- `challenge`; `check` is its `verify`, and `now` the reading that dates the report.
  unfoldable pub challenge :
      String → String → Bool → Option String → DateTime → Action R (StoredProof × Bool × Message)
  unfolding challenge_as
  challenge agent_url task_id check assessor_task_id now w =
      elim (first_entry w.client.registered_systems) [
        | none ↦ raise runtime_error w
        | some (name, system_id) ↦
            challenge_as name system_id agent_url task_id check assessor_task_id now w
      ]
