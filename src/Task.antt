-- ===== src/Task.antt =====
-- `ATPTaskContext` of atp/core/utils.py: a task, and the proof that is made of it.
pub mod Publish
pub mod Provable
pub mod Once
pub mod Wrapper
pub mod Bounds
pub mod Scope
pub mod Failure
use atp_python.Base.{
  ℕ, String, ◌<>◌, Bool, true, false, Option, none, some, List, [], ◌∷◌, ◌++◌, ◌||◌, if◌then◌else◌,
  map,
}
use atp_python.Base.Dict.{lookup}
use atp_python.Python.Exceptions.{Exception, Result, ok, raised, ◌>>=◌, runtime_error}
use atp_python.Python.Json.{null, str, arr, nil, obj, Fields, end, field}
use atp_python.Python.DateTime.{DateTime, shift_seconds}
use atp_python.Models.{
  Capability, default_classification, Dependency, DependencyEvaluation, ProofSketch, StoredProof,
  unverified,
}
use atp_python.Hashing.{hash_with_prefix, compute_dependencies_hash, model}
use atp_python.Storage.{ProofStore}
use atp_python.Wire.{Runtime}
use atp_python.Client.{Client, ClientConfig, World, or_text}
use atp_python.Client.Commits.{create_commit}
use atp_python.Client.Reports.{first_entry}

pub record Task : Type 0 where
  pub query : String
  pub config : ClientConfig
  pub atp_task_id : String
  pub response : Option String
  pub committed : Bool
  pub classification : Capability
  pub dependencies : List Dependency

-- `__init__`, where `id` is a new UUID
unfoldable pub new_task : Client → String → String → Option ClientConfig → Option Capability → Task
new_task client id query config classification = record {
  query = query;
  config = elim config [ none ↦ client.config | some c ↦ c ];
  atp_task_id = id;
  response = none;
  committed = false;
  classification = elim classification [ none ↦ default_classification | some k ↦ k ];
  dependencies = [];
}

-- What `add_dependent_proof` takes.
pub data Dependent : Type 0 where
  reference : Dependency → Dependent
  proof : StoredProof → Dependent

-- `None` and an empty list are the same list.
abbrev or_empty {ℓ} : {A : Type ℓ} → Option (List A) → List A
or_empty none = []
or_empty (some l) = l

-- Evaluations for a reference come after those that it has.
unfoldable pub dependency_of : Dependent → Option (List DependencyEvaluation) → Dependency
dependency_of (proof p) evaluations = record {
  system_uri = some p.proof_data.task.system_uri;
  task_id = p.proof_data.task.task_id;
  challenge_url = none;
  evaluations = or_empty evaluations;
}
dependency_of (reference d) evaluations = record d {
  evaluations = d.evaluations ++ or_empty evaluations;
}

unfoldable pub add_dependent_proof : Dependent → Option (List DependencyEvaluation) → Task → Task
unfolding dependency_of
add_dependent_proof d evaluations t = record t {
  dependencies = t.dependencies ++ (dependency_of d evaluations ∷ []);
}

abbrev pub invocation_of : String → Fields
invocation_of query = field "method" (str "query") (
    field "trigger" (obj (field "type" (str "user_message") end))
      (field "input" (obj (field "query" (str query) end)) end))

abbrev pub outcome_of : String → Fields
outcome_of text =
    field "response" (obj (field "text" (str text) end))
      (field "status" (str "success") (field "actions" (arr nil) (field "error" null end)))

-- What `_commit` builds before it writes anything.
pub record Draft : Type 0 where
  pub system_id : String
  pub sketch : ProofSketch
  pub stored : StoredProof

-- An empty id counts as none.
abbrev pub named_system : Option (String × String) → Result String
named_system none = raised runtime_error
named_system (some (_, String.[])) = raised runtime_error
named_system (some (_, String.◌∷◌ x s)) = ok (String.◌∷◌ x s)

-- The first registered system of the client.
unfoldable pub registered_system : Client → Result String
registered_system c = named_system (first_entry c.registered_systems)

-- The URI that `_commit` makes up for a system.
abbrev pub uri_of : ClientConfig → String → String
uri_of config system_id =
    or_text config.exchange_url "http://localhost:8080" <> ("/systems/" <> system_id)

abbrev pub type_of : Client → String → String
type_of client system_id = elim (lookup system_id client.system_types) [
  | none ↦ "agent"
  | some t ↦ t
]

module _ (sha256 : String → String) where
  abbrev pub sketch_of : Task → String → String → String → String → DateTime → ProofSketch
  sketch_of t uri type text deps now = record {
    metadata = record {
      spec_version = "0.2.0";
      spec_uri = some "https://agenttrustprotocol.org/spec/v0.2";
      system_uri = uri;
      system_type = type;
      task_id = t.atp_task_id;
      classification = some t.classification;
    };
    dependencies = t.dependencies;
    cryptography = record {
      algorithm = "SHA-256";
      invocation_hash = hash_with_prefix sha256 (obj (invocation_of t.query));
      outcome_hash = hash_with_prefix sha256 (obj (outcome_of text));
      dependencies_hash = some deps;
    };
    timestamp = now;
  }

  abbrev pub stored_of : Task → String → String → String → DateTime → DateTime → StoredProof
  stored_of t uri type text now expiry = record {
    proof_data = record {
      task = record {
        system_uri = uri;
        system_type = type;
        task_id = t.atp_task_id;
        invocation = invocation_of t.query;
        invocation_hash = hash_with_prefix sha256 (obj (invocation_of t.query));
        outcome = outcome_of text;
        outcome_hash = hash_with_prefix sha256 (obj (outcome_of text));
        timestamp = now;
        trust_level = unverified;
      };
      dependencies = t.dependencies;
    };
    created_at = now;
    expires_at = expiry;
  }

  abbrev pub drafted : Client → Task → String → DateTime → String → String → DateTime → Draft
  drafted client t text now system_id deps expiry =
      let uri = uri_of t.config system_id in
      let type = type_of client system_id in
      record {
        system_id = system_id;
        sketch = sketch_of t uri type text deps now;
        stored = stored_of t uri type text now expiry;
      }

  unfoldable pub draft : Client → Task → String → DateTime → Result Draft
  draft client t text now = do
    system_id ← registered_system client
    deps ← compute_dependencies_hash sha256 (some (map model t.dependencies))
    expiry ← shift_seconds now t.config.proof_ttl_seconds
    ok (drafted client t text now system_id deps expiry)
