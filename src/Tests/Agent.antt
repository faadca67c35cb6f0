-- ===== src/Tests/Agent.antt =====
-- A task that is committed, at concrete inputs.
use atp_python.Base.{
  ◌+◌, ◌*◌, ◌<◌, ◌≡◌, refl, arith, String, true, false, Option, none, some, [], ◌∷◌,
}
use atp_python.Base.Dict.{lookup}
use atp_python.Python.Exceptions.{runtime_error, ok, raised, is_a, atp_network_error}
use atp_python.Python.Exec.{Exec}
use atp_python.Python.DateTime.{second, end_of_time, utc, shift_seconds, add_seconds, is_before}
use atp_python.Models.{default_classification}
use atp_python.Hashing.{compute_dependencies_hash, traverse}
use atp_python.Storage.Memory.{save, get, empty}
use atp_python.Storage.Memory.Interface.{memory, memory-ServesSaved}
use atp_python.Python.Canonical.{dumps}
use atp_python.Wire.Decode.{decode_commit, commit_status}
use atp_python.Python.Json.{Json, str}
use atp_python.Wire.Records.{text_of, decode_commit_response}
use atp_python.Client.{World, accept, get_client}
use atp_python.Client.Commits.{create_commit}
use atp_python.Client.Queries.{get_commit_by_system_and_task, found}
use atp_python.Client.Challenge.{verify, verified_and_confirmed}
use atp_python.Task.{Task, Draft, draft, drafted, registered_system}
use atp_python.Task.Publish.{Agent, Wrapped, wrapped, commit, atp_response, atp_task, set_response}
use atp_python.Task.Provable.{commit_served, draft_verified}
use atp_python.Task.Failure.{commit_refused}
use atp_python.Task.Scope.{atp_task-current}
use atp_python.Task.Bounds.{draft-expires_at}
use atp_python.Task.Once.{commit_once, atp_response_uncommitted}
use atp_python.Tests.Fixtures.{
  at, noon, runtime, exchange, client, world, commit_answer, commit_for, accepted,
}

abbrev task : Option String → Task
task response = record {
  query = "q";
  config = client.config;
  atp_task_id = "t";
  response = response;
  committed = false;
  classification = default_classification;
  dependencies = [];
}

abbrev digest : String → String
digest s = s

abbrev draft_of_task : Draft
draft_of_task = drafted digest client (task (some "4")) "4" noon "s" "sha256:[]" (at 43260000000)

draft_run : draft digest client (task (some "4")) "4" noon ≡ ok draft_of_task
unfolding draft registered_system compute_dependencies_hash shift_seconds add_seconds traverse dumps
draft_run = refl

abbrev asked : World (exchange draft_of_task.sketch)
asked = record { client = client; loop = none; net = commit_answer ∷ [] }

fetched_run :
    (get_commit_by_system_and_task (exchange draft_of_task.sketch) "s" "t" asked).0
    ≡ ok (commit_for draft_of_task.sketch)
unfolding get_commit_by_system_and_task found decode_commit commit_status get_client lookup
fetched_run = refl

draft_verified_example :
    (verify (exchange draft_of_task.sketch) draft_of_task.stored asked).0
    ≡ ok (true, verified_and_confirmed)
draft_verified_example =
    draft_verified (exchange draft_of_task.sketch) memory client (task (some "4")) "4" noon
      draft_of_task asked (commit_for draft_of_task.sketch) draft_run (omega arith) fetched_run refl
      refl

abbrev agent : Option String → Agent runtime memory
agent response = record {
  world = world (accepted ∷ []);
  store = empty;
  task = task response;
  current = none;
}

commit_run : (commit runtime memory noon (agent (some "4"))).0 ≡ ok tt
unfolding commit draft create_commit registered_system compute_dependencies_hash traverse
    shift_seconds add_seconds save accept decode_commit_response lookup
commit_run = refl

drafted_fresh : is_before draft_of_task.stored.expires_at noon ≡ ok false
unfolding is_before
drafted_fresh = refl

commit_served_example :
    ((commit runtime memory noon (agent (some "4"))).1.task.committed ≡ true)
    × ((get "t" noon (commit runtime memory noon (agent (some "4"))).1.store).0
        ≡ ok (some draft_of_task.stored))
commit_served_example =
    commit_served runtime memory memory-ServesSaved noon noon (agent (some "4")) "4" ""
      draft_of_task refl refl draft_run commit_run drafted_fresh

commit_once_example :
    commit runtime memory (at 1) (commit runtime memory noon (agent (some "4"))).1
    ≡ (ok tt, (commit runtime memory noon (agent (some "4"))).1)
commit_once_example =
    commit_once runtime memory noon (at 1) (agent (some "4")) "4" "" refl commit_run

abbrev echo : String → Exec (Agent runtime memory) Json
echo query s = (ok (str query), s)

abbrev reported : Wrapped runtime memory
reported = record { atp_task_id = "t"; result = str "q"; atp_committed = false }

response_run : (atp_response runtime memory true echo noon (agent none)).0 ≡ ok (wrapped reported)
unfolding atp_response atp_task set_response text_of commit draft create_commit registered_system
    compute_dependencies_hash traverse shift_seconds add_seconds save accept decode_commit_response
    lookup
response_run = refl

atp_response_uncommitted_example : reported.atp_committed ≡ false
atp_response_uncommitted_example =
    atp_response_uncommitted runtime memory echo noon (agent none) reported (λ q t. refl) refl
      response_run

abbrev cut_off : Agent runtime memory
cut_off = record { world = world []; store = empty; task = task (some "4"); current = none }

save_run : (save draft_of_task.stored empty).0 ≡ ok tt
unfolding save
save_run = refl

refused_run :
    (create_commit runtime "s" "t" draft_of_task.sketch (world [])).0 ≡ raised atp_network_error
unfolding create_commit is_a get_client lookup
refused_run = refl

commit_refused_example :
    ((commit runtime memory noon cut_off).0 ≡ raised atp_network_error)
    × ((commit runtime memory noon cut_off).1.store ≡ (save draft_of_task.stored empty).1)
    × ((commit runtime memory noon cut_off).1.task ≡ task (some "4"))
commit_refused_example =
    commit_refused runtime memory noon cut_off "4" "" draft_of_task atp_network_error refl refl
      draft_run save_run refused_run

abbrev failing : Exec (Agent runtime memory) Json
failing s = (raised runtime_error, s)

atp_task-current_example : (atp_task runtime memory failing noon (agent none)).1.current ≡ none
atp_task-current_example = atp_task-current runtime memory failing noon (agent none)

draft-expires_at_example :
    (draft_of_task.stored.created_at ≡ noon)
    × (draft_of_task.sketch.timestamp ≡ noon)
    × (43260000000 ≡ 43200000000 + 60 * second)
    × (some utc ≡ some utc)
    × (43260000000 < end_of_time)
draft-expires_at_example =
    draft-expires_at digest client (task (some "4")) "4" noon draft_of_task (omega arith) draft_run
