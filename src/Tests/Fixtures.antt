-- ===== src/Tests/Fixtures.antt =====
-- A system `4` that answered one task, an Exchange that answers from a script, and a store.
use atp_python.Base.{ℕ, Bool, none, some, List, [], ◌∷◌}
use atp_python.Python.Exceptions.{
  Result, ok, raised, request_error, json_decode_error, type_error, validation_error,
}
use atp_python.Python.Json.{Json, bool, int, str, obj, Fields, end, field, ℤ, pos}
use atp_python.Python.DateTime.{DateTime, utc}
use atp_python.Models.{Commit, confirmed, ProofSketch, ProofDataTask, StoredProof, unverified}
use atp_python.Storage.Memory.{MemoryStore}
use atp_python.Storage.Memory
use atp_python.Wire.{Runtime, Request, Response}
use atp_python.Client.{Client, World, Registration}

abbrev pub at : ℕ → DateTime
at n = record { micros = n; utcoffset = some utc }

abbrev pub noon : DateTime
noon = at 43200000000

abbrev pub outcome : Fields
outcome = field "text" (int (ℤ.pos 4)) end

abbrev pub stored_task : ProofDataTask
stored_task = record {
  system_uri = "http://x/systems/s";
  system_type = "agent";
  task_id = "t";
  invocation = end;
  invocation_hash = "sha256:{}";
  outcome = outcome;
  outcome_hash = "sha256:{\"text\":4}";
  timestamp = noon;
  trust_level = unverified;
}

abbrev pub stored : StoredProof
stored = record {
  proof_data = record { task = stored_task; dependencies = [] };
  created_at = noon;
  expires_at = at 43201000000;
}

abbrev pub sketch : ProofSketch
sketch = record {
  metadata = record {
    spec_version = "0.2.0";
    spec_uri = none;
    system_uri = "http://x/systems/s";
    system_type = "agent";
    task_id = "t";
    classification = none;
  };
  dependencies = [];
  cryptography = record {
    algorithm = "SHA-256";
    invocation_hash = "sha256:{}";
    outcome_hash = "sha256:{\"text\":4}";
    dependencies_hash = none;
  };
  timestamp = noon;
}

abbrev scripted : Request → List Response → Result Response × List Response
scripted request [] = (raised request_error, [])
scripted request (r ∷ rs) = (ok r, rs)

abbrev int_of : Json → Result ℤ
int_of (int n) = ok n
int_of _ = raised type_error

abbrev bool_of : Json → Result Bool
bool_of (bool b) = ok b
bool_of _ = raised type_error

-- The digest is the text itself, and every answer holds the same sketch and the same proof.
abbrev pub exchange : ProofSketch → Runtime
exchange sketch = record {
  Net = List Response;
  send = scripted;
  sha256 = λ s. s;
  fromisoformat = λ s. ok noon;
  uuid = λ s. ok s;
  loads = λ s. raised json_decode_error;
  coerce_int = int_of;
  coerce_bool = bool_of;
  validate_sketch = λ v. ok sketch;
  validate_dependency = λ fs. raised validation_error;
  validate_capability = λ v. raised validation_error;
  validate_stored_proof = λ v. ok stored;
  dump_sketch = λ s. obj end;
  dump_capability = λ c. obj end;
  dump_stored_proof = λ s. obj end;
  repr = λ v. "";
}

abbrev pub runtime : Runtime
runtime = exchange sketch

abbrev pub client : Client
client = record {
  config = record { api_key = "k"; exchange_url = "http://x"; proof_ttl_seconds = pos 60 };
  http_client = none;
  client_loop = none;
  registered_systems = ("a", "s") ∷ [];
  system_uris = ("s", "http://x/systems/s") ∷ [];
  system_types = ("s", "agent") ∷ [];
}

abbrev pub world : List Response → World runtime
world replies = record { client = client; loop = none; net = replies }

abbrev pub answer : ℕ → Fields → Response
answer status fs = record { status_code = status; text = "body"; body = some (obj fs) }

abbrev pub commit_answer : Response
commit_answer = answer 200 (
    field "id" (str "c") (
      field "system_id" (str "s") (
        field "task_id" (str "t") (
          field "proof_sketch" (obj end)
            (field "status" (str "confirmed") (field "created_at" (str "now") end))))))

abbrev pub agent_answer : Response
agent_answer = answer 200 (field "result" (obj end) end)

abbrev pub accepted : Response
accepted = answer 201 (
    field "commit_id" (str "c") (
      field "system_id" (str "s") (
        field "task_id" (str "t") (
          field "status" (str "confirmed")
            (field "created_at" (str "now") (field "message" (str "") end))))))

abbrev pub registered : Response
registered = answer 201 (
    field "system_uri" (str "http://y/systems/z") (
      field "system_id" (str "z") (
        field "registered_at" (str "now")
          (field "status" (str "active") (field "capabilities_registered" (int (ℤ.pos 0)) end)))))

abbrev pub registration : Registration
registration = record {
  name = "b";
  system_type = "agent";
  capabilities = none;
  extensions = none;
  url = none;
  proof_ttl_seconds = none;
}

abbrev pub store : MemoryStore
store = (Memory.save stored Memory.empty).1

-- The commit that `commit_answer` is read as.
abbrev pub commit_for : ProofSketch → Commit
commit_for sketch = record {
  id = "c";
  system_id = "s";
  organization_id = none;
  task_id = "t";
  proof_sketch = sketch;
  status = confirmed;
  signature = none;
  cataloged_at = none;
  created_at = noon;
  blockchain_signature = none;
  blockchain_confirmed_at = none;
  blockchain_provider = none;
  blockchain_catalog_url = none;
  classification_occupation = none;
  classification_capabilities = none;
  classification_work_activities = none;
  classification_description = none;
}
