-- ===== src/Adapter.antt =====
-- `MinimalAdapter` of atp/adapters/base.py: a framework's agent with a store of its own.
pub mod Served
pub mod Enrolled
pub mod Accepted
use atp_python.Base.{ℕ, String, ◌<>◌, Bool, true, false, Option, none, some, List, [], ◌∷◌}
use atp_python.Python.Exceptions.{Result, ok, raised, runtime_error, atp_proof_not_found_error}
use atp_python.Python.Exec.{Exec, pure, raise, lift, gets, modify, ◌>>=◌, ◌>>◌}
use atp_python.Python.Json.{Json, null, str, arr, nil, obj, Fields, end, field, ℤ}
use atp_python.Python.DateTime.{DateTime, shift_seconds}
use atp_python.Models.{
  Capability, default_classification, CommitResponse, ProofSketch, StoredProof, SystemRegistration,
  unverified,
}
use atp_python.Hashing.{hash_with_prefix, compute_dependencies_hash}
use atp_python.Storage.Memory
use atp_python.Storage.Memory.{MemoryStore, empty}
use atp_python.Wire.{Runtime}
use atp_python.Client.{
  Client, ClientConfig, World, Registration, register_system, new_client, or_text,
}
use atp_python.Client.Commits.{create_commit}
use atp_python.Task.{invocation_of, uri_of, type_of}

-- What `register` returns.
pub record Registered : Type 0 where
  pub system_uri : String
  pub system_id : String
  pub status : String
  pub capabilities_registered : ℤ
  pub url : Option String
  pub url_verified : Bool
  pub proof_ttl_seconds : Option ℤ

abbrev pub registered_of : SystemRegistration → Registered
registered_of r = record {
  system_uri = r.system_uri;
  system_id = r.system_id;
  status = r.status;
  capabilities_registered = r.capabilities_registered;
  url = r.url;
  url_verified = r.url_verified;
  proof_ttl_seconds = r.proof_ttl_seconds;
}

-- What `register` takes; `system_type` comes from the keyword arguments.
pub record Enrolment : Type 0 where
  pub name : String
  pub url : Option String
  pub proof_ttl_seconds : Option ℤ
  pub capabilities : Option (List Json)
  pub system_type : Option String

-- What `on_task_complete` takes.
pub record Completion : Type 0 where
  pub task_id : String
  pub query : String
  pub response : String
  pub artifacts : Option Fields
  pub classification : Option Capability

-- What `on_task_complete` returns.
pub record Receipt : Type 0 where
  pub task_id : String
  pub commit_id : String
  pub status : String

abbrev pub receipt_of : String → CommitResponse → Receipt
receipt_of task_id c = record { task_id = task_id; commit_id = c.commit_id; status = c.status }

abbrev artifacts_field : Option Fields → Fields
artifacts_field none = end
artifacts_field (some a) = field "artifacts" (obj a) end

-- The outcome, with the artifacts last
unfoldable pub outcome_with : String → Option Fields → Fields
outcome_with text artifacts = field "response" (obj (field "text" (str text) end)) (
    field "status" (str "success")
      (field "actions" (arr nil) (field "error" null (artifacts_field artifacts))))

-- `c or DEFAULT_CLASSIFICATION`
abbrev classification_or_default : Option Capability → Capability
classification_or_default none = default_classification
classification_or_default (some k) = k

-- An empty text counts as none.
abbrev pub text_or_none : Option String → Option String
text_or_none none = none
text_or_none (some String.[]) = none
text_or_none (some (String.◌∷◌ c s)) = some (String.◌∷◌ c s)

abbrev pub kept_uri : ClientConfig → Option String → String → String
kept_uri config uri system_id = elim (text_or_none uri) [
  | none ↦ uri_of config system_id
  | some u ↦ u
]

module _ (sha256 : String → String) where
  abbrev pub completion_sketch : Completion → String → String → String → DateTime → ProofSketch
  completion_sketch c uri type deps now = record {
    metadata = record {
      spec_version = "0.2.0";
      spec_uri = some "https://agenttrustprotocol.org/spec/v0.2";
      system_uri = uri;
      system_type = type;
      task_id = c.task_id;
      classification = some (classification_or_default c.classification);
    };
    dependencies = [];
    cryptography = record {
      algorithm = "SHA-256";
      invocation_hash = hash_with_prefix sha256 (obj (invocation_of c.query));
      outcome_hash = hash_with_prefix sha256 (obj (outcome_with c.response c.artifacts));
      dependencies_hash = some deps;
    };
    timestamp = now;
  }

  abbrev pub completion_proof : Completion → String → String → DateTime → DateTime → StoredProof
  completion_proof c uri type now expiry = record {
    proof_data = record {
      task = record {
        system_uri = uri;
        system_type = type;
        task_id = c.task_id;
        invocation = invocation_of c.query;
        invocation_hash = hash_with_prefix sha256 (obj (invocation_of c.query));
        outcome = outcome_with c.response c.artifacts;
        outcome_hash = hash_with_prefix sha256 (obj (outcome_with c.response c.artifacts));
        timestamp = now;
        trust_level = unverified;
      };
      dependencies = [];
    };
    created_at = now;
    expires_at = expiry;
  }

module _ (R : Runtime) where
  open R use {sha256, dump_capability, dump_stored_proof}

  pub record Adapter : Type 0 where
    pub config : ClientConfig
    pub proof_store : MemoryStore
    pub world : World R
    pub system_id : Option String
    pub system_uri : Option String

  -- `__init__`, with a client of its own
  abbrev pub new_adapter : ClientConfig → Option ℕ → R.Net → Adapter
  new_adapter config loop net = record {
    config = config;
    proof_store = empty;
    world = record { client = new_client config; loop = loop; net = net };
    system_id = none;
    system_uri = none;
  }

  abbrev pub in_world {ℓ} : {A : Type ℓ} → Exec (World R) A → Exec Adapter A
  in_world m s = let (r, w) = m s.world in (r, record s { world = w })

  abbrev pub in_store {ℓ} : {A : Type ℓ} → Exec MemoryStore A → Exec Adapter A
  in_store m s = let (r, t) = m s.proof_store in (r, record s { proof_store = t })

  -- `capabilities or [...]`
  abbrev some_capabilities : Option (List Json) → List Json
  some_capabilities none = dump_capability default_classification ∷ []
  some_capabilities (some []) = dump_capability default_classification ∷ []
  some_capabilities (some (v ∷ vs)) = v ∷ vs

  abbrev pub registration_of : Enrolment → Registration
  registration_of e = record {
    name = e.name;
    system_type = elim e.system_type [ none ↦ "agent" | some t ↦ t ];
    capabilities = some (some_capabilities e.capabilities);
    extensions = none;
    url = e.url;
    proof_ttl_seconds = e.proof_ttl_seconds;
  }

  abbrev pub note : SystemRegistration → Exec Adapter Registered
  note r = do
    modify (λ s. record s { system_id = some r.system_id; system_uri = some r.system_uri })
    pure (registered_of r)

  unfoldable pub register : Enrolment → DateTime → Exec Adapter Registered
  register e now = do r ← in_world (register_system R (registration_of e) now); note r

  -- The proof is stored first, and then its sketch is committed.
  abbrev pub store_and_commit : String → String → ProofSketch → StoredProof → Exec Adapter Receipt
  store_and_commit system_id task_id sketch stored = do
    in_store (Memory.save stored)
    c ← in_world (create_commit R system_id task_id sketch)
    pure (receipt_of task_id c)

  abbrev pub complete : Completion → DateTime → String → Exec Adapter Receipt
  complete c now system_id s =
      let uri = kept_uri s.config s.system_uri system_id in
      let type = type_of s.world.client system_id in
      (do
        deps ← lift (compute_dependencies_hash sha256 (some []))
        expiry ← lift (shift_seconds now s.config.proof_ttl_seconds)
        store_and_commit system_id c.task_id (completion_sketch sha256 c uri type deps now)
            (completion_proof sha256 c uri type now expiry))
        s

  abbrev pub complete_as : Completion → DateTime → Option String → Exec Adapter Receipt
  complete_as c now none = raise runtime_error
  complete_as c now (some system_id) = complete c now system_id

  unfoldable pub on_task_complete : Completion → DateTime → Exec Adapter Receipt
  on_task_complete c now s = complete_as c now (text_or_none s.system_id) s

  abbrev pub dumped : Option StoredProof → Exec Adapter Json
  dumped none = raise atp_proof_not_found_error
  dumped (some p) = pure (dump_stored_proof p)

  unfoldable pub on_challenge : String → DateTime → Exec Adapter Json
  on_challenge task_id now = do stored ← in_store (Memory.get task_id now); dumped stored
