-- ===== src/Wire/Records.antt =====
-- The other `from_api_response` methods of atp/core/models.py, and the responses that
-- atp/core/client.py reads itself.
use atp_python.Base.{true, String, false, Option, none, some, List, [], ◌==◌, if◌then◌else◌}
use atp_python.Python.Exceptions.{
  Result, ok, raised, value_error, type_error, validation_error, ◌>>=◌,
}
use atp_python.Python.Json.{bool, int, integer, Json, null, str, arr, obj, Fields, end, items}
use atp_python.Models.{
  AssessmentsResponse, AssessmentRecord, CommitResponse, System, SystemRegistration,
  AssessmentDimension, integrity, quality, compliance,
}
use atp_python.Hashing.{traverse}
use atp_python.Wire.{Runtime, item, get_key, as_str}
use atp_python.Wire.Decode.{first_truthy, iterate_rows, iso, optional_iso, optional_str_at}

-- `AssessmentDimension(v)`
unfoldable pub assessment_dimension : Json → Result AssessmentDimension
assessment_dimension (str s) =
    if s == "integrity"
    then ok integrity
    else if s == "quality"
    then ok quality
    else if s == "compliance"
    then ok compliance
    else raised value_error
assessment_dimension _ = raised value_error

module _ (R : Runtime) where
  open R use {
    repr, fromisoformat, uuid, loads, coerce_int, coerce_bool, validate_sketch, validate_capability,
  }

  abbrev list_at : Option Json → Result (List Json)
  list_at none = ok []
  list_at (some (arr vs)) = ok (items vs)
  list_at (some (str String.[])) = ok []
  list_at (some (obj end)) = ok []
  list_at (some (str _)) = raised validation_error
  list_at (some (obj _)) = raised validation_error
  list_at (some _) = raised type_error

  abbrev as_dict : Option Json → Result Fields
  as_dict none = ok end
  as_dict (some (obj fs)) = ok fs
  as_dict (some _) = raised validation_error

  -- `System.from_api_response`
  unfoldable pub decode_system : Json → Result System
  decode_system data' = do
    by_system_id ← get_key "system_id" data'
    by_id ← get_key "id" data'
    raw_id ← elim (first_truthy by_system_id (first_truthy by_id none)) [
      | none ↦ raised value_error
      | some v ↦ ok v
    ]
    raw_type ← item "type" data'
    raw_name ← item "name" data'
    raw_capabilities ← get_key "capabilities" data'
    declared ← list_at raw_capabilities
    capabilities ← traverse validate_capability declared
    extensions ← get_key "extensions" data'
    identity ← get_key "identity_ext" data'
    raw_created ← item "created_at" data'
    created ← iso R raw_created
    id ← as_str raw_id
    type ← as_str raw_type
    name ← as_str raw_name
    ext ← as_dict (first_truthy extensions (first_truthy identity none))
    ok (record {
      system_id = id;
      type = type;
      name = name;
      capabilities = capabilities;
      extensions = ext;
      created_at = created;
    })

  -- `str(v)`
  unfoldable pub text_of : Json → String
  unfolding integer
  text_of null = "None"
  text_of (bool true) = "True"
  text_of (bool false) = "False"
  text_of (int n) = integer n
  text_of (str s) = s
  text_of (arr vs) = repr (arr vs)
  text_of (obj fs) = repr (obj fs)

  -- `AssessmentRecord.from_api_response`
  unfoldable pub decode_assessment : Json → Result AssessmentRecord
  unfolding text_of
  decode_assessment data' = do
    raw_id ← item "assessment_id" data'
    raw_assessor ← item "assessor_system_id" data'
    raw_system ← item "assessed_system_id" data'
    raw_task ← item "assessed_task_id" data'
    raw_dimension ← item "dimension" data'
    dimension ← assessment_dimension raw_dimension
    raw_assessment ← item "assessment" data'
    raw_assessed ← item "assessed_at" data'
    assessed ← iso R raw_assessed
    raw_created ← item "created_at" data'
    created ← iso R raw_created
    id ← as_str raw_id
    assessor ← as_str raw_assessor
    assessor_task ← optional_str_at R "assessor_task_id" data'
    system ← as_str raw_system
    assessment ← as_str raw_assessment
    ok (record {
      assessment_id = id;
      assessor_system_id = assessor;
      assessor_task_id = assessor_task;
      assessed_system_id = system;
      assessed_task_id = text_of raw_task;
      dimension = dimension;
      assessment = assessment;
      assessed_at = assessed;
      created_at = created;
    })

  abbrev rows_at : Option Json → Result (List Json)
  rows_at none = ok []
  rows_at (some v) = iterate_rows v

  -- `AssessmentsResponse.from_api_response`
  unfoldable pub decode_assessments : Json → Result AssessmentsResponse
  unfolding decode_assessment
  decode_assessments data' = do
    raw_system ← item "system_id" data'
    raw_task ← item "task_id" data'
    raw_rows ← get_key "assessments" data'
    rows ← rows_at raw_rows
    assessments ← traverse decode_assessment rows
    system ← as_str raw_system
    task ← as_str raw_task
    ok (record { system_id = system; task_id = task; assessments = assessments })

  -- The `SystemRegistration` of `register_system`
  unfoldable pub decode_registration : Json → Result SystemRegistration
  decode_registration data' = do
    raw_uri ← item "system_uri" data'
    raw_id ← item "system_id" data'
    raw_registered ← item "registered_at" data'
    registered ← iso R raw_registered
    raw_status ← item "status" data'
    raw_count ← item "capabilities_registered" data'
    uri ← as_str raw_uri
    id ← as_str raw_id
    status ← as_str raw_status
    count ← coerce_int raw_count
    url ← optional_str_at R "url" data'
    raw_verified ← get_key "url_verified" data'
    verified ← elim raw_verified [ none ↦ ok false | some v ↦ coerce_bool v ]
    raw_ttl ← get_key "proof_ttl_seconds" data'
    ttl ← elim raw_ttl [
      | none ↦ ok none
      | some null ↦ ok none
      | some v ↦ (do n ← coerce_int v; ok (some n))
    ]
    ok (record {
      system_uri = uri;
      system_id = id;
      registered_at = registered;
      status = status;
      capabilities_registered = count;
      url = url;
      url_verified = verified;
      proof_ttl_seconds = ttl;
    })

  -- The `CommitResponse` of `create_commit`
  unfoldable pub decode_commit_response : Json → Result CommitResponse
  decode_commit_response data' = do
    raw_commit ← item "commit_id" data'
    raw_system ← item "system_id" data'
    raw_task ← item "task_id" data'
    raw_status ← item "status" data'
    cataloged ← optional_iso R "cataloged_at" data'
    raw_created ← item "created_at" data'
    created ← iso R raw_created
    raw_message ← item "message" data'
    commit ← as_str raw_commit
    system ← as_str raw_system
    task ← as_str raw_task
    status ← as_str raw_status
    signature ← optional_str_at R "signature" data'
    message ← as_str raw_message
    ok (record {
      commit_id = commit;
      system_id = system;
      task_id = task;
      status = status;
      signature = signature;
      cataloged_at = cataloged;
      created_at = created;
      message = message;
    })
