-- ===== src/Tests/Upstream.antt =====
-- An upstream agent that is challenged, at concrete inputs.
use atp_python.Base.{◌≢◌, ◌↔◌, ◌≡◌, refl, String, true, false, none, some, [], ◌∷◌}
use atp_python.Base.Dict.{lookup}
use atp_python.Python.Exceptions.{ok, raised, is_a, attribute_error, atp_network_error}
use atp_python.Python.Json.{Json, int, str, pos, obj, end, field}
use atp_python.Python.Equality.{json_eq}
use atp_python.Hashing.{compute_data_hash, hash_with_prefix}
use atp_python.Wire.{Response}
use atp_python.Wire.RawProof.{raw_task, read_task}
use atp_python.Wire.Records.{decode_system, text_of}
use atp_python.Wire.Decode.{decode_commit, commit_status}
use atp_python.Client.{World, get_client}
use atp_python.Client.Queries.{get_system, get_commit_by_system_and_task}
use atp_python.Client.Reports.{report_assessment, first_entry}
use atp_python.Client.Challenge.{
  Message, system_id_of, verified_and_confirmed, exchange_failed, judge, integrity_report,
}
use atp_python.Upstream.{
  challenge_and_verify, own_identity, request_proof, read_answer, check_proof, check_task,
  ask_exchange, settle, replied,
}
use atp_python.Upstream.Verdicts.{IsSound}
use atp_python.Upstream.Soundness.{ask_agent}
use atp_python.Upstream.Complete.{challenge_and_verify_iff}
use atp_python.Upstream.Errors.{challenge_and_verify-raises}
use atp_python.Upstream.Contrast.{exchange_failed-contrast}
use atp_python.Gather.Reading.{raw_of}
use atp_python.Models.{compromised}
use atp_python.Tests.Fixtures.{
  noon, outcome, stored, stored_task, runtime, world, answer, commit_answer,
}

abbrev pub sent_by : Json → Json
sent_by uri = obj (
    field "proof_data"
      (obj (
        field "task"
          (obj (
            field "system_uri" uri (
              field "task_id" (str "t") (
                field "invocation" (obj end) (
                  field "invocation_hash" (str "sha256:{}") (
                    field "outcome" (obj outcome)
                      (field "outcome_hash" (str "sha256:{\"text\":4}") end)))))))
          end))
      end)

abbrev pub sent : Json
sent = sent_by (str "http://x/systems/s")

abbrev pub proof_answer : Json → Response
proof_answer v = answer 200 (field "result" v end)

abbrev pub challenged : World runtime
challenged = world (commit_answer ∷ proof_answer sent ∷ commit_answer ∷ [])

verified_run :
    (challenge_and_verify runtime "http://a" "t" (some (obj end)) none noon challenged).0
    ≡ ok (sent, true, verified_and_confirmed)
unfolding challenge_and_verify own_identity request_proof read_answer check_proof check_task
    ask_exchange settle get_system decode_system lookup is_a hash_with_prefix compute_data_hash
    get_commit_by_system_and_task decode_commit commit_status report_assessment get_client read_task
    raw_task text_of json_eq
verified_run = refl

challenge_and_verify_iff_example :
    ((m : Message) × ((challenge_and_verify runtime "http://a" "t"
          (some (obj end))
          none
          noon
          challenged).0
        ≡ ok (sent, true, m)))
    ↔ ((name : String) × (system_id : String) × (first_entry challenged.client.registered_systems
          ≡ some (name, system_id))
        × (system_id ≢ "")
        × ((ask_agent runtime "http://a" "t" system_id challenged).0 ≡ ok (ok (replied sent)))
        × IsSound runtime sent
            (some (obj end))
            none
            (ask_agent runtime "http://a" "t" system_id challenged).1)
challenge_and_verify_iff_example =
    challenge_and_verify_iff runtime (some (obj end)) none noon sent "http://a" "t" challenged

-- The agent names its system by a number.
abbrev misnamed : World runtime
misnamed = world (commit_answer ∷ proof_answer (sent_by (int (pos 4))) ∷ [])

misnamed_run :
    (challenge_and_verify runtime "http://a" "t" none none noon misnamed).0 ≡ raised attribute_error
unfolding challenge_and_verify own_identity request_proof read_answer check_proof get_system
    decode_system lookup is_a get_client read_task raw_task
misnamed_run = refl

challenge_and_verify-raises_example :
    (name : String) × (system_id : String) × (first_entry misnamed.client.registered_systems
      ≡ some (name, system_id))
    × (attribute_error ≡ attribute_error)
    × (v : Json) × ((ask_agent runtime "http://a" "t" system_id misnamed).0 ≡ ok (ok (replied v)))
    × (read_task v ≡ raised attribute_error)
challenge_and_verify-raises_example =
    challenge_and_verify-raises runtime none none noon "http://a" "t" misnamed attribute_error
      misnamed_run

read_run : read_task sent ≡ ok (raw_of stored_task)
unfolding read_task raw_task lookup
read_run = refl

invocation_run : "sha256:{}" ≡ hash_with_prefix (λ s. s) (obj end)
unfolding hash_with_prefix compute_data_hash
invocation_run = refl

outcome_run : "sha256:{\"text\":4}" ≡ hash_with_prefix (λ s. s) (obj outcome)
unfolding hash_with_prefix compute_data_hash
outcome_run = refl

abbrev cut_off : World runtime
cut_off = (get_commit_by_system_and_task runtime "s" "t" (world [])).1

asked_run :
    get_commit_by_system_and_task runtime (system_id_of stored_task.system_uri) "t" (world [])
    ≡ (raised atp_network_error, cut_off)
unfolding get_commit_by_system_and_task system_id_of get_client is_a lookup
asked_run = refl

exchange_failed-contrast_example :
    (check_proof runtime none none noon sent (world [])
      ≡ (ok (sent, false, exchange_failed atp_network_error), cut_off))
    × (judge runtime stored true none noon (world []) ≡ (
      ok (stored, false, exchange_failed atp_network_error),
      (report_assessment runtime (integrity_report runtime stored compromised noon none) cut_off).1,
    ))
exchange_failed-contrast_example =
    exchange_failed-contrast runtime sent stored none noon (world []) cut_off atp_network_error
      read_run invocation_run outcome_run asked_run
