-- ===== src/Wire/Decode.antt =====
-- `Commit.from_api_response` of atp/core/models.py, and how fields of a response are read.
use atp_python.Base.{String, Option, none, some, List, [], ◌==◌, if◌then◌else◌}
use atp_python.Python.Exceptions.{
  Result, ok, raised, value_error, type_error, attribute_error, validation_error, ◌>>=◌,
}
use atp_python.Python.Json.{Json, null, str, arr, obj, end, items, truthy}
use atp_python.Python.DateTime.{DateTime}
use atp_python.Models.{CommitStatus, confirmed, failed, Commit}
use atp_python.Hashing.{traverse}
use atp_python.Wire.{Runtime, item, get_key, as_str, as_optional_str}

-- `CommitStatus(v)`
unfoldable pub commit_status : Json → Result CommitStatus
commit_status (str s) =
    if s == "confirmed"
    then ok confirmed
    else if s == "failed"
    then ok failed
    else raised value_error
commit_status _ = raised value_error

abbrev pub as_str_list : Option Json → Result (Option (List String))
as_str_list none = ok none
as_str_list (some null) = ok none
as_str_list (some (arr vs)) = do l ← traverse as_str (items vs); ok (some l)
as_str_list (some _) = raised validation_error

-- `data.get(k) or ...`
abbrev pub first_truthy : Option Json → Option Json → Option Json
first_truthy (some v) o = if truthy v then some v else o
first_truthy none o = o

-- The items that a comprehension hands to `from_api_response`, which fails with a type error on
-- the characters of a text and on the keys of a dict.
abbrev pub iterate_rows : Json → Result (List Json)
iterate_rows (arr vs) = ok (items vs)
iterate_rows (str String.[]) = ok []
iterate_rows (obj end) = ok []
iterate_rows _ = raised type_error

module _ (R : Runtime) where
  open R use {
    repr, fromisoformat, uuid, loads, coerce_int, coerce_bool, validate_sketch, validate_capability,
  }

  abbrev pub iso : Json → Result DateTime
  iso (str s) = fromisoformat s
  iso _ = raised type_error

  -- `datetime.fromisoformat(data[k]) if data.get(k) else None`
  abbrev pub optional_iso : String → Json → Result (Option DateTime)
  optional_iso k data' = do
    v ← get_key k data'
    elim (first_truthy v none) [ none ↦ ok none | some at ↦ (do t ← iso at; ok (some t)) ]

  -- `UUID(v) if isinstance(v, str) else v`, and pydantic's check of what is no UUID
  abbrev pub as_uuid : Json → Result String
  as_uuid (str s) = uuid s
  as_uuid _ = raised validation_error

  abbrev pub optional_uuid : Option Json → Result (Option String)
  optional_uuid o = elim (first_truthy o none) [
    | none ↦ ok none
    | some (str s) ↦ (do u ← uuid s; ok (some u))
    | some _ ↦ raised attribute_error
  ]

  abbrev pub sketch_json : Json → Result Json
  sketch_json (str s) = loads s
  sketch_json v = ok v

  abbrev pub optional_str_at : String → Json → Result (Option String)
  optional_str_at k data' = do v ← get_key k data'; as_optional_str v

  -- `Commit.from_api_response`
  unfoldable pub decode_commit : Json → Result Commit
  decode_commit data' = do
    raw_sketch ← item "proof_sketch" data'
    sketch_data ← sketch_json raw_sketch
    raw_id ← item "id" data'
    id ← as_uuid raw_id
    raw_system ← item "system_id" data'
    raw_organization ← get_key "organization_id" data'
    organization ← optional_uuid raw_organization
    raw_task ← item "task_id" data'
    task ← as_uuid raw_task
    sketch ← validate_sketch sketch_data
    raw_status ← item "status" data'
    status ← commit_status raw_status
    cataloged ← optional_iso "cataloged_at" data'
    raw_created ← item "created_at" data'
    created ← iso raw_created
    anchored ← optional_iso "blockchain_confirmed_at" data'
    system ← as_str raw_system
    signature ← optional_str_at "signature" data'
    chain_signature ← optional_str_at "blockchain_signature" data'
    provider ← optional_str_at "blockchain_provider" data'
    catalog_url ← optional_str_at "blockchain_catalog_url" data'
    occupation ← optional_str_at "classification_occupation" data'
    raw_capabilities ← get_key "classification_capabilities" data'
    capabilities ← as_str_list raw_capabilities
    raw_activities ← get_key "classification_work_activities" data'
    activities ← as_str_list raw_activities
    description ← optional_str_at "classification_description" data'
    ok (record {
      id = id;
      system_id = system;
      organization_id = organization;
      task_id = task;
      proof_sketch = sketch;
      status = status;
      signature = signature;
      cataloged_at = cataloged;
      created_at = created;
      blockchain_signature = chain_signature;
      blockchain_confirmed_at = anchored;
      blockchain_provider = provider;
      blockchain_catalog_url = catalog_url;
      classification_occupation = occupation;
      classification_capabilities = capabilities;
      classification_work_activities = activities;
      classification_description = description;
    })
