-- ===== src/Client/Commits.antt =====
-- `create_commit` of `ATPClient`.
use atp_python.Base.{String, Option, none, some, []}
use atp_python.Base.Dict.{lookup}
use atp_python.Python.Exceptions.{atp_commit_error}
use atp_python.Python.Exec.{lift, gets, ◌>>=◌}
use atp_python.Python.Json.{Json, str, obj, end, field}
use atp_python.Models.{Capability, ProofSketch, CommitResponse, default_classification}
use atp_python.Hashing.{ProofParts, compute_proof_hash}
use atp_python.Wire.{Runtime, post, translate}
use atp_python.Wire.Records.{decode_commit_response}
use atp_python.Client.{Client, Action, system_path, transmit, http, request_of, accept}

-- `proof_sketch` as `create_commit` changes it in place: the authoritative URI, and a classification.
unfoldable pub prepare_sketch : Client → String → ProofSketch → ProofSketch
prepare_sketch c system_id sketch =
    let uri : String = elim (lookup system_id c.system_uris) [
      | none ↦ system_path c.config.exchange_url system_id
      | some uri ↦ uri
    ] in
    let classification : Option Capability = elim sketch.metadata.classification [
      | none ↦ some default_classification
      | some k ↦ some k
    ] in
    record sketch {
      metadata = record (sketch.metadata) { system_uri = uri; classification = classification };
    }

module _ (R : Runtime) where
  open R use {sha256, dump_sketch}

  -- The parts that `create_commit` hashes: the task is its own argument, not the sketch's.
  abbrev pub commit_parts : String → ProofSketch → ProofParts
  commit_parts task_id sketch = record {
    system_uri = sketch.metadata.system_uri;
    task_id = task_id;
    invocation_hash = sketch.cryptography.invocation_hash;
    outcome_hash = sketch.cryptography.outcome_hash;
    dependencies_hash = sketch.cryptography.dependencies_hash;
    timestamp = sketch.timestamp;
  }

  abbrev pub commit_payload : String → String → ProofSketch → Json
  commit_payload system_id task_id sketch = obj (
      field "system_id" (str system_id) (
        field "task_id" (str task_id) (
          field "proof" (dump_sketch sketch) (
            field "proof_hash" (str (compute_proof_hash sha256 (commit_parts task_id sketch)))
              end))))

  unfoldable pub create_commit : String → String → ProofSketch → Action R CommitResponse
  unfolding prepare_sketch
  create_commit system_id task_id sketch = do
    h ← http R
    payload ←
        gets (λ w. commit_payload system_id task_id (prepare_sketch w.client system_id sketch))
    translate atp_commit_error (do
      response ← transmit R (request_of R h post "/api/v1/commit" [] (some payload))
      data' ← accept R atp_commit_error response
      lift (decode_commit_response R data'))
