-- ===== src/Tests/Adapter.antt =====
-- An adapter that registers, completes a task and is challenged, at concrete inputs.
use atp_python.Base.{◌≡◌, refl, String, true, false, none, some, [], ◌∷◌}
use atp_python.Base.Dict.{lookup}
use atp_python.Python.Exceptions.{ok}
use atp_python.Python.Json.{Json, str, pos, obj, field, end}
use atp_python.Python.DateTime.{DateTime, shift_seconds, add_seconds, is_before}
use atp_python.Models.{ProofSketch, ProofDataTask}
use atp_python.Wire.Records.{decode_registration}
use atp_python.Wire.Decode.{decode_commit, commit_status}
use atp_python.Client.{accept, get_client, read_registration, register_new, register_system, World}
use atp_python.Client.Challenge.{verify, system_id_of, verified_and_confirmed}
use atp_python.Client.Queries.{get_commit_by_system_and_task, found}
use atp_python.Wire.{Runtime}
use atp_python.Wire.RawProof.{raw_task, read_task}
use atp_python.Gather.Reading.{raw_of}
use atp_python.Upstream.{check_proof}
use atp_python.Adapter.{
  Adapter, Enrolment, Registered, Completion, new_adapter, register, on_task_complete, on_challenge,
  completion_sketch,
}
use atp_python.Adapter.Served.{proof_of, on_challenge-on_task_complete}
use atp_python.Adapter.Accepted.{on_challenge-accepted}
use atp_python.Adapter.Enrolled.{on_challenge-register}
use atp_python.Tests.Fixtures.{
  at, noon, runtime, exchange, client, registered, commit_answer, commit_for,
}

abbrev enrolment : Enrolment
enrolment = record {
  name = "b";
  url = none;
  proof_ttl_seconds = none;
  capabilities = none;
  system_type = none;
}

abbrev completion : Completion
completion = record {
  task_id = "t";
  query = "q";
  response = "4";
  artifacts = some end;
  classification = none;
}

abbrev known : Adapter runtime
known = record (new_adapter runtime client.config none []) { system_id = some "s" }

abbrev expiry : DateTime
expiry = at 43260000000

lives : shift_seconds noon known.config.proof_ttl_seconds ≡ ok expiry
unfolding shift_seconds add_seconds
lives = refl

fresh : is_before expiry noon ≡ ok false
unfolding is_before
fresh = refl

on_challenge-on_task_complete_example :
    (on_challenge runtime "t" noon (on_task_complete runtime completion noon known).1).0
    ≡ ok (obj end)
on_challenge-on_task_complete_example =
    on_challenge-on_task_complete runtime completion noon noon known "s" expiry refl lives fresh

abbrev fresh_adapter : Adapter runtime
fresh_adapter = new_adapter runtime client.config none (registered ∷ [])

abbrev granted : Registered
granted = record {
  system_uri = "http://y/systems/z";
  system_id = "z";
  status = "active";
  capabilities_registered = pos 0;
  url = none;
  url_verified = false;
  proof_ttl_seconds = none;
}

register_run : (register runtime enrolment noon fresh_adapter).0 ≡ ok granted
unfolding register register_system register_new read_registration decode_registration accept
    get_client lookup
register_run = refl

later_lives :
    shift_seconds noon (register runtime enrolment noon fresh_adapter).1.config.proof_ttl_seconds
    ≡ ok expiry
unfolding register register_system register_new read_registration decode_registration accept
    get_client lookup shift_seconds add_seconds
later_lives = refl

on_challenge-register_example :
    (on_challenge runtime "t" noon
      (on_task_complete runtime completion noon
        (register runtime enrolment noon fresh_adapter).1).1).0
    ≡ ok (obj end)
on_challenge-register_example =
    on_challenge-register runtime enrolment noon fresh_adapter granted completion noon noon expiry
      register_run refl refl later_lives fresh

abbrev digest : String → String
digest s = s

abbrev committed : ProofSketch
committed = completion_sketch digest completion "http://x/systems/s" "agent" "sha256:[]" noon

abbrev dumped_task : ProofDataTask → Json
dumped_task t = obj (
    field "system_uri" (str t.system_uri) (
      field "task_id" (str t.task_id) (
        field "invocation" (obj t.invocation) (
          field "invocation_hash" (str t.invocation_hash)
            (field "outcome" (obj t.outcome) (field "outcome_hash" (str t.outcome_hash) end))))))

-- Dumps hold the proof's task.
abbrev dumping : Runtime
dumping = record (exchange committed) {
  dump_stored_proof =
      λ p. obj (field "proof_data" (obj (field "task" (dumped_task p.proof_data.task) end)) end);
}

abbrev elsewhere : Adapter dumping
elsewhere = record (new_adapter dumping client.config none []) { system_id = some "s" }

abbrev asked : World dumping
asked = record { client = client; loop = none; net = commit_answer ∷ [] }

fetched_run :
    (get_commit_by_system_and_task dumping (system_id_of "http://x/systems/s") "t" asked).0
    ≡ ok (commit_for committed)
unfolding get_commit_by_system_and_task system_id_of found decode_commit commit_status get_client
    lookup
fetched_run = refl

dump_run :
    read_task (dumping.dump_stored_proof (proof_of dumping completion elsewhere "s" noon expiry))
    ≡ ok (raw_of (proof_of dumping completion elsewhere "s" noon expiry).proof_data.task)
unfolding read_task raw_task lookup
dump_run = refl

on_challenge-accepted_example :
    (answer : Json) × ((on_challenge dumping "t" noon
        (on_task_complete dumping completion noon elsewhere).1).0
      ≡ ok answer)
    × ((check_proof dumping none none noon answer asked).0
        ≡ ok (answer, true, verified_and_confirmed))
    × ((verify dumping (proof_of dumping completion elsewhere "s" noon expiry) asked).0
        ≡ ok (true, verified_and_confirmed))
on_challenge-accepted_example =
    on_challenge-accepted dumping completion noon noon noon elsewhere "s" "sha256:[]" expiry asked
      (commit_for committed) refl lives fresh dump_run fetched_run refl refl
