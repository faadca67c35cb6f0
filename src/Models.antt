-- ===== src/Models.antt =====
-- atp/core/models.py: the data of proofs, commits and assessments. A UUID is its canonical text.
use atp_python.Base.{String, Bool, Option, none, some, List, [], ◌∷◌}
use atp_python.Python.Json.{Fields, ℤ}
use atp_python.Python.DateTime.{DateTime}

pub data CommitStatus : Type 0 where
  confirmed failed : CommitStatus

pub data TrustLevel : Type 0 where
  trusted verified untrusted unverified : TrustLevel

pub record Ontology : Type 0 where
  pub ontology_version : Option String
  pub ontology_uri : String
  pub occupation : Option String
  pub work_activities : List String
  pub capabilities : List String

pub record Capability : Type 0 where
  pub description : Option String
  pub ontology : Ontology

abbrev pub default_classification : Capability
default_classification = record {
  description = some "General question-answering task (SDK default)";
  ontology = record {
    ontology_version = none;
    ontology_uri = "https://agenttrustprotocol.org/ontology/v0.2.0";
    occupation = none;
    work_activities = [];
    capabilities = "question-answering" ∷ [];
  };
}

pub record Metadata : Type 0 where
  pub spec_version : String
  pub spec_uri : Option String
  pub system_uri : String
  pub system_type : String
  pub task_id : String
  pub classification : Option Capability

pub record DependencyEvaluation : Type 0 where
  pub evaluation_type : String
  pub evaluation_policy : Option String
  pub evaluation_result : String
  pub evaluated_at : DateTime

pub record Dependency : Type 0 where
  pub system_uri : Option String
  pub task_id : String
  pub challenge_url : Option String
  pub evaluations : List DependencyEvaluation

pub record Cryptography : Type 0 where
  pub algorithm : String
  pub invocation_hash : String
  pub outcome_hash : String
  pub dependencies_hash : Option String

pub record ProofSketch : Type 0 where
  pub metadata : Metadata
  pub dependencies : List Dependency
  pub cryptography : Cryptography
  pub timestamp : DateTime

pub record SystemRegistration : Type 0 where
  pub system_uri : String
  pub system_id : String
  pub registered_at : DateTime
  pub status : String
  pub capabilities_registered : ℤ
  pub url : Option String
  pub url_verified : Bool
  pub proof_ttl_seconds : Option ℤ

pub record CommitResponse : Type 0 where
  pub commit_id : String
  pub system_id : String
  pub task_id : String
  pub status : String
  pub signature : Option String
  pub cataloged_at : Option DateTime
  pub created_at : DateTime
  pub message : String

pub record Commit : Type 0 where
  pub id : String
  pub system_id : String
  pub organization_id : Option String
  pub task_id : String
  pub proof_sketch : ProofSketch
  pub status : CommitStatus
  pub signature : Option String
  pub cataloged_at : Option DateTime
  pub created_at : DateTime
  pub blockchain_signature : Option String
  pub blockchain_confirmed_at : Option DateTime
  pub blockchain_provider : Option String
  pub blockchain_catalog_url : Option String
  pub classification_occupation : Option String
  pub classification_capabilities : Option (List String)
  pub classification_work_activities : Option (List String)
  pub classification_description : Option String

pub record System : Type 0 where
  pub system_id : String
  pub type : String
  pub name : String
  pub capabilities : List Capability
  pub extensions : Fields
  pub created_at : DateTime

pub record ProofDataTask : Type 0 where
  pub system_uri : String
  pub system_type : String
  pub task_id : String
  pub invocation : Fields
  pub invocation_hash : String
  pub outcome : Fields
  pub outcome_hash : String
  pub timestamp : DateTime
  pub trust_level : TrustLevel

pub record ProofData : Type 0 where
  pub task : ProofDataTask
  pub dependencies : List Dependency

pub record StoredProof : Type 0 where
  pub proof_data : ProofData
  pub created_at : DateTime
  pub expires_at : DateTime

pub data AssessmentDimension : Type 0 where
  integrity quality compliance : AssessmentDimension

pub data IntegrityAssessment : Type 0 where
  verified compromised : IntegrityAssessment

pub record AssessmentRecord : Type 0 where
  pub assessment_id : String
  pub assessor_system_id : String
  pub assessor_task_id : Option String
  pub assessed_system_id : String
  pub assessed_task_id : String
  pub dimension : AssessmentDimension
  pub assessment : String
  pub assessed_at : DateTime
  pub created_at : DateTime

pub record AssessmentsResponse : Type 0 where
  pub system_id : String
  pub task_id : String
  pub assessments : List AssessmentRecord

-- The other dimensions' verdicts
pub data QualityAssessment : Type 0 where
  passed failed : QualityAssessment

pub data ComplianceAssessment : Type 0 where
  compliant non_compliant : ComplianceAssessment

-- `NEUTRAL_BY_DIMENSION`
abbrev pub neutral_by_dimension : AssessmentDimension → String
neutral_by_dimension integrity = "unverified"
neutral_by_dimension quality = "unevaluated"
neutral_by_dimension compliance = "unassessed"

pub record Identity : Type 0 where
  pub atp_exchange_url : String
  pub system_id : String
  pub system_type : String
  pub system_name : String
  pub extensions : Fields

pub record RequestMeta : Type 0 where
  pub caller_task_id : Option String
  pub dependencies : List Dependency
