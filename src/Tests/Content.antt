-- ===== src/Tests/Content.antt =====
-- A verified proof and the content that was committed, at a concrete input.
use atp_python.Base.{◌≡◌, refl, true, [], ◌∷◌}
use atp_python.Base.Dict.{lookup}
use atp_python.Python.Exceptions.{ok, is_a}
use atp_python.Python.Json.{obj, end}
use atp_python.Python.Canonical.{SameJson}
use atp_python.Python.Canonical.Told.{IsProper}
use atp_python.Hashing.{hash_with_prefix, compute_data_hash}
use atp_python.Wire.Decode.{decode_commit, commit_status}
use atp_python.Client.{World, get_client}
use atp_python.Client.Queries.{get_commit_by_system_and_task}
use atp_python.Client.Challenge.{
  verify, verified_and_confirmed, system_id_of, check_exchange, compare_commit,
}
use atp_python.Client.Challenge.Content.{verify-SameJson}
use atp_python.Tests.Fixtures.{stored, sketch, runtime, world, commit_answer, commit_for, outcome}

abbrev before : World runtime
before = world (commit_answer ∷ [])

verified : (verify runtime stored before).0 ≡ ok (true, verified_and_confirmed)
unfolding verify check_exchange compare_commit hash_with_prefix compute_data_hash
    get_commit_by_system_and_task decode_commit commit_status get_client is_a lookup
verified = refl

fetched :
    (get_commit_by_system_and_task runtime
      (system_id_of stored.proof_data.task.system_uri)
      "t"
      before).0
    ≡ ok (commit_for sketch)
unfolding get_commit_by_system_and_task decode_commit commit_status get_client is_a system_id_of
    lookup
fetched = refl

invocation_committed :
    (commit_for sketch).proof_sketch.cryptography.invocation_hash
    ≡ hash_with_prefix runtime.sha256 (obj end)
unfolding hash_with_prefix compute_data_hash
invocation_committed = refl

outcome_committed :
    (commit_for sketch).proof_sketch.cryptography.outcome_hash
    ≡ hash_with_prefix runtime.sha256 (obj outcome)
unfolding hash_with_prefix compute_data_hash
outcome_committed = refl

empty-IsProper : IsProper (obj end)
unfolding IsProper
empty-IsProper = tt

outcome-IsProper : IsProper (obj outcome)
unfolding IsProper lookup
outcome-IsProper = (refl, tt, tt)

verify-SameJson_example : SameJson (obj end) (obj end) × SameJson (obj outcome) (obj outcome)
verify-SameJson_example =
    verify-SameJson runtime stored end outcome (commit_for sketch) before verified_and_confirmed
      empty-IsProper outcome-IsProper empty-IsProper outcome-IsProper (λ e. e) (λ e. e) fetched
      invocation_committed outcome_committed verified
