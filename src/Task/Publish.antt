-- ===== src/Task/Publish.antt =====
-- `ATPTaskContext._commit`, `atp_task` and `atp_response` of atp/core/utils.py: a task's proof is stored and committed.
use atp_python.Base.{String, Bool, true, false, Option, none, some, List, [], ◌∷◌, if◌then◌else◌}
use atp_python.Python.Exceptions.{Result, ok, raised}
use atp_python.Python.Exec.{Exec, modify, gets, pure, continue, ◌>>=◌, ◌>>◌}
use atp_python.Python.DateTime.{DateTime}
use atp_python.Python.Json.{Json, null, truthy}
use atp_python.Wire.Records.{text_of}
use atp_python.Storage.{ProofStore}
use atp_python.Wire.{Runtime}
use atp_python.Client.{World}
use atp_python.Client.Commits.{create_commit}
use atp_python.Task.{Task, Draft, draft, new_task}

module _ (R : Runtime) (P : ProofStore) where
  pub record Agent : Type 0 where
    pub world : World R
    pub store : P.State
    pub task : Task
    -- `_current_atp_task`: the id of the task that is active.
    pub current : Option String

  abbrev pub in_store {ℓ} : {A : Type ℓ} → Exec P.State A → Exec Agent A
  in_store m s = let (r, t) = m s.store in (r, record s { store = t })

  abbrev pub in_world {ℓ} : {A : Type ℓ} → Exec (World R) A → Exec Agent A
  in_world m s = let (r, w) = m s.world in (r, record s { world = w })

  -- The proof is stored first, then committed, and only then is the task marked.
  abbrev pub publish : Draft → Exec Agent (Unit {0})
  publish d = do
    in_store (P.save d.stored)
    in_world (create_commit R d.system_id d.stored.proof_data.task.task_id d.sketch)
    modify (λ s. record s { task = record (s.task) { committed = true } })

  -- Nothing is done for a task that is committed, or has no response.
  abbrev pub commit_response : Bool → Option String → DateTime → Exec Agent (Unit {0})
  commit_response true response now s = (ok tt, s)
  commit_response false none now s = (ok tt, s)
  commit_response false (some String.[]) now s = (ok tt, s)
  commit_response false (some (String.◌∷◌ x text)) now s =
      continue publish (draft R.sha256 s.world.client s.task (String.◌∷◌ x text) now, s)

  -- `_commit`
  unfoldable pub commit : DateTime → Exec Agent (Unit {0})
  commit now s = commit_response s.task.committed s.task.response now s

  -- `set_response`: what is no text is printed.
  unfoldable pub set_response : Json → Task → Task
  set_response response t = record t { response = some (text_of R response) }

  -- `__aexit__`: the context variable gets its old value back, and the task is committed unless the
  -- body raised.
  abbrev pub leave {ℓ} : {A : Type ℓ} → DateTime → Option String → Result A → Exec Agent A
  leave now token (raised e) s = (raised e, record s { current = token })
  leave now token (ok a) s = (do commit now; pure a) (record s { current = token })

  -- `async with atp_task(...)`: the task is the current one within the body.
  unfoldable pub atp_task {ℓ} : {A : Type ℓ} → Exec Agent A → DateTime → Exec Agent A
  atp_task body now s =
      let (result, t) = body (record s { current = some s.task.atp_task_id }) in
      leave now s.current result t

  -- What `atp_response` returns: the result in a dict, or bare.
  pub record Wrapped : Type 0 where
    pub atp_task_id : String
    pub result : Json
    pub atp_committed : Bool

  pub data Reply : Type 0 where
    wrapped : Wrapped → Reply
    bare : Json → Reply

  abbrev pub wrapped_of : Json → Agent → Wrapped
  wrapped_of result s = record {
    atp_task_id = s.task.atp_task_id;
    result = result;
    atp_committed = s.task.committed;
  }

  -- `response_wrapper`
  abbrev pub reply_of : Bool → Json → Agent → Reply
  reply_of true result s = wrapped (wrapped_of result s)
  reply_of false result s = bare result

  abbrev pub respond : Bool → Json → Exec Agent Reply
  respond wrapper result = do
    modify (λ s. record s { task = set_response result s.task })
    gets (reply_of wrapper result)

  -- The body of `atp_response`, where `func` computes the result from the query.
  abbrev pub run_func : Bool → (String → Exec Agent Json) → Exec Agent Reply
  run_func wrapper func = do
    query ← gets (λ s. s.task.query)
    result ← func query
    respond wrapper result

  unfoldable pub atp_response : Bool → (String → Exec Agent Json) → DateTime → Exec Agent Reply
  unfolding atp_task
  atp_response wrapper func now = atp_task (run_func wrapper func) now

  -- The query of a call: the keyword argument, else the first positional one.
  abbrev pub query_of : Option Json → List Json → Json
  query_of none [] = null
  query_of none (v ∷ vs) = v
  query_of (some v) [] = v
  query_of (some v) (w ∷ ws) = if truthy v then v else w

  -- A call of a function that is decorated by `atp_response`; `id` is a new UUID.
  unfoldable pub call :
      Bool
      → (String → Exec Agent Json)
      → String
      → Option Json
      → List Json
      → DateTime
      → Exec Agent Reply
  unfolding atp_response
  call wrapper func id keyword positional now s =
      let task = new_task s.world.client id (text_of R (query_of keyword positional)) none none in
      let (reply, t) = atp_response wrapper func now (record s { task = task }) in
      (reply, record t { task = s.task })
