-- ===== src/Tests/Exchange.antt =====
-- Registration, challenges and signatures, at concrete inputs.
use atp_python.Base.{Bool, ◌≡◌, refl, ◌↔◌, true, false, none, [], ◌∷◌, is_some}
use atp_python.Base.Dict.{lookup}
use atp_python.Python.Exceptions.{ok, is_a}
use atp_python.Python.Json.{pos}
use atp_python.Models.{SystemRegistration}
use atp_python.Hashing.{compute_data_hash, hash_with_prefix}
use atp_python.Wire.Decode.{decode_commit, commit_status}
use atp_python.Wire.Records.{decode_registration, decode_system}
use atp_python.Wire.Rpc.{read_proof}
use atp_python.Client.{World, accept, get_client, read_registration, register_new, register_system}
use atp_python.Client.Commits.{prepare_sketch}
use atp_python.Client.Queries.{get_system, get_commit_by_system_and_task}
use atp_python.Client.Challenge.{
  Message, verified_and_confirmed, compare_commit, check_exchange, verify, challenge,
  challenger_identity, judge,
}
use atp_python.Client.Reports.{report_assessment}
use atp_python.Client.Challenge.Genuine.{IsGenuine, verify_iff}
use atp_python.Client.Challenge.Soundness.{answered, challenge-IsGenuine}
use atp_python.Client.Challenge.Reporting.{judge_returns}
use atp_python.Client.Laws.{register_system-again, prepare_sketch-registered}
use atp_python.Tests.Fixtures.{
  at, noon, stored, sketch, runtime, world, commit_answer, agent_answer, registered, registration,
}

verify_iff_example :
    ((m : Message) × ((verify runtime stored (world (commit_answer ∷ []))).0 ≡ ok (true, m)))
    ↔ IsGenuine runtime stored (world (commit_answer ∷ []))
verify_iff_example = verify_iff runtime stored (world (commit_answer ∷ []))

abbrev challenged : World runtime
challenged = world (commit_answer ∷ agent_answer ∷ commit_answer ∷ [])

challenge_run :
    (challenge runtime "http://a" "t" true none noon challenged).0
    ≡ ok (stored, true, verified_and_confirmed)
unfolding challenge challenger_identity judge verify check_exchange compare_commit get_system
    decode_system lookup is_a read_proof hash_with_prefix compute_data_hash
    get_commit_by_system_and_task decode_commit commit_status report_assessment get_client
challenge_run = refl

challenge-IsGenuine_example :
    (true ≡ true) × IsGenuine runtime stored (answered runtime "a" "s" "http://a" "t" challenged)
challenge-IsGenuine_example =
    challenge-IsGenuine runtime "http://a" "t" true none noon challenged "a" "s" stored
      verified_and_confirmed refl challenge_run

abbrev fresh : World runtime
fresh = world (registered ∷ [])

abbrev granted : SystemRegistration
granted = record {
  system_uri = "http://y/systems/z";
  system_id = "z";
  registered_at = noon;
  status = "active";
  capabilities_registered = pos 0;
  url = none;
  url_verified = false;
  proof_ttl_seconds = none;
}

registered_run : (register_system runtime registration noon fresh).0 ≡ ok granted
unfolding register_system register_new read_registration accept decode_registration get_client
    lookup
registered_run = refl

register_system-again_example :
    (second : SystemRegistration) × (register_system runtime registration
        (at 1)
        (register_system runtime registration noon fresh).1
      ≡ (ok second, (register_system runtime registration noon fresh).1))
    × (second.system_id ≡ "z")
register_system-again_example =
    register_system-again runtime registration registration noon (at 1) fresh granted registered_run
      refl

unknown : lookup "b" fresh.client.registered_systems ≡ none
unfolding lookup
unknown = refl

prepare_sketch-registered_example :
    ((prepare_sketch
        (register_system runtime registration noon fresh).1.client
        "z"
        sketch).metadata.system_uri
      ≡ "http://y/systems/z")
    × (is_some
          (prepare_sketch
            (register_system runtime registration noon fresh).1.client
            "z"
            sketch).metadata.classification
        ≡ true)
prepare_sketch-registered_example =
    prepare_sketch-registered runtime registration noon fresh granted sketch unknown registered_run

judge_returns_example :
    (v : Bool × Message) × ((verify runtime stored (world (commit_answer ∷ []))).0 ≡ ok v)
    × ((judge runtime stored true none noon (world (commit_answer ∷ []))).0 ≡ ok (stored, v.0, v.1))
judge_returns_example = judge_returns runtime stored none noon (world (commit_answer ∷ []))
