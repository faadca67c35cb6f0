-- ===== src/Tests/Gather.antt =====
-- Declared dependencies that are challenged, at concrete inputs.
use atp_python.Base.{◌≡◌, refl, ℕ, none, some, List, [], ◌∷◌, ◌++◌, Every}
use atp_python.Base.Dict.{lookup}
use atp_python.Python.Exceptions.{ok, raised, is_a, validation_error}
use atp_python.Python.Json.{end}
use atp_python.Python.DateTime.{DateTime}
use atp_python.Models.{Dependency, ProofData, TrustLevel}
use atp_python.Hashing.{compute_data_hash, hash_with_prefix}
use atp_python.Wire.RawProof.{raw_task, read_task}
use atp_python.Wire.Records.{decode_system, text_of}
use atp_python.Wire.Decode.{decode_commit, commit_status}
use atp_python.Wire.Gathered.{gathered, task_data, timestamp_or}
use atp_python.Client.{get_client}
use atp_python.Client.Queries.{get_system, get_commit_by_system_and_task}
use atp_python.Client.Reports.{report_assessment}
use atp_python.Upstream.{
  challenge_and_verify, own_identity, request_proof, read_answer, check_proof, check_task,
  ask_exchange, settle,
}
use atp_python.Gather.{dependency, raw, Gathering, challenge_one, turn, pre_challenge_dependencies}
use atp_python.Gather.Origin.{Gathers, pre_challenge_dependencies-Gathers}
use atp_python.Gather.Malformed.{
  WellFormed, pre_challenge_dependencies-append, pre_challenge_dependencies-malformed,
}
use atp_python.Tests.Fixtures.{noon, outcome, runtime}
use atp_python.Tests.Upstream.{challenged}

abbrev upstream : Dependency
upstream = record {
  system_uri = none;
  task_id = "t";
  challenge_url = some "http://a";
  evaluations = [];
}

abbrev before : Gathering runtime
before = record { world = challenged; dependencies = [] }

abbrev clock : ℕ → DateTime
clock i = noon

abbrev collected : ProofData
collected = record {
  task = record {
    system_uri = "http://x/systems/s";
    system_type = "agent";
    task_id = "t";
    invocation = end;
    invocation_hash = "sha256:{}";
    outcome = outcome;
    outcome_hash = "sha256:{\"text\":4}";
    timestamp = noon;
    trust_level = TrustLevel.verified;
  };
  dependencies = [];
}

collected_run :
    (pre_challenge_dependencies runtime clock 0 (dependency upstream ∷ []) before).1.dependencies
    ≡ collected ∷ []
unfolding pre_challenge_dependencies turn challenge_one gathered task_data timestamp_or
    challenge_and_verify own_identity request_proof read_answer check_proof check_task ask_exchange
    settle get_system decode_system lookup is_a hash_with_prefix compute_data_hash
    get_commit_by_system_and_task decode_commit commit_status report_assessment get_client read_task
    raw_task text_of
collected_run = refl

pre_challenge_dependencies-Gathers_example :
    (new : List ProofData) × ((pre_challenge_dependencies runtime clock 0
        (dependency upstream ∷ [])
        before).1.dependencies
      ≡ [] ++ new)
    × Gathers runtime clock 0
        (dependency upstream ∷ [])
        before
        (pre_challenge_dependencies runtime clock 0 (dependency upstream ∷ []) before).0
        new
pre_challenge_dependencies-Gathers_example =
    pre_challenge_dependencies-Gathers runtime clock 0 (dependency upstream ∷ []) before

upstream-WellFormed : Every (WellFormed runtime) (dependency upstream ∷ [])
unfolding WellFormed
upstream-WellFormed = ((upstream, refl), tt)

pre_challenge_dependencies-append_example :
    ((pre_challenge_dependencies runtime clock 0 (dependency upstream ∷ []) before).0 ≡ ok tt)
    × (pre_challenge_dependencies runtime clock 0
          (dependency upstream ∷ dependency upstream ∷ [])
          before
        ≡ pre_challenge_dependencies runtime clock 1
            (dependency upstream ∷ [])
            (pre_challenge_dependencies runtime clock 0 (dependency upstream ∷ []) before).1)
pre_challenge_dependencies-append_example =
    pre_challenge_dependencies-append runtime clock 0 (dependency upstream ∷ [])
      (dependency upstream ∷ []) before upstream-WellFormed

pre_challenge_dependencies-malformed_example :
    pre_challenge_dependencies runtime clock 0
      (dependency upstream ∷ raw end ∷ dependency upstream ∷ [])
      before
    ≡ (
      raised validation_error,
      (pre_challenge_dependencies runtime clock 0 (dependency upstream ∷ []) before).1,
    )
pre_challenge_dependencies-malformed_example =
    pre_challenge_dependencies-malformed runtime clock 0 (dependency upstream ∷ []) (raw end)
      (dependency upstream ∷ []) before validation_error upstream-WellFormed refl
