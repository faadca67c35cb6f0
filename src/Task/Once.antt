-- ===== src/Task/Once.antt =====
-- A task is committed once, and what `atp_response` reports of it.
use Prim.Native.Char.{Char}
use atp_python.Base.{◌≡◌, refl, ap, ◌∙◌, sym, subst, String, Bool, true, false, Option, some}
use atp_python.Python.Exceptions.{Result, ok, raised, ok_injective}
use atp_python.Python.Exec.{Exec, continue, continue-ok, pure}
use atp_python.Python.DateTime.{DateTime}
use atp_python.Python.Json.{Json}
use atp_python.Storage.{ProofStore}
use atp_python.Wire.{Runtime}
use atp_python.Task.{draft}
use atp_python.Task.Publish.{
  Agent, Wrapped, wrapped, commit, commit_response, publish, run_func, respond, leave, set_response,
  atp_task, atp_response,
}
use atp_python.Task.Provable.{commit_new, publish-store}

module _ (R : Runtime) (P : ProofStore) where
  commit_marked :
      (later : DateTime) (s : Agent R P) → s.task.committed ≡ true → commit R P later s ≡ (ok tt, s)
  unfolding commit
  commit_marked later s marked = ap (λ b. commit_response R P b s.task.response later s) marked

  -- Once `_commit` returned for a task that has a response, a later one leaves the task, the store,
  -- the client and the other side of the network as they are.
  pub commit_once :
      (now later : DateTime) (s : Agent R P) (c : Char) (text : String)
      → s.task.response ≡ some (String.◌∷◌ c text)
      → (commit R P now s).0 ≡ ok tt
      → commit R P later (commit R P now s).1 ≡ (ok tt, (commit R P now s).1)
  commit_once now later s c text answered returned =
      commit_marked later (commit R P now s).1 (marks s.task.committed refl)
    where
      marks : (b : Bool) → s.task.committed ≡ b → (commit R P now s).1.task.committed ≡ true
      marks true marked = ap (λ x. x.1.task.committed) (commit_marked now s marked) ∙ marked
      marks false new =
          let steps = commit_new R P now s c text new answered in
          let (d, drawn, published) =
            continue-ok (publish R P)
              (draft R.sha256 s.world.client s.task (String.◌∷◌ c text) now, s)
              (subst (λ x. x.0 ≡ ok tt) steps returned) in
          let (_, _, marked) = publish-store R P d s published in
          ap (λ x. x.1.task.committed) (steps ∙ ap (λ r. continue (publish R P) (r, s)) drawn)
          ∙ marked

  leave-ok {ℓ} :
      {A : Type ℓ} (now : DateTime) (token : Option String) (r : Result A) (s : Agent R P) (a : A)
      → (leave R P now token r s).0 ≡ ok a
      → r ≡ ok a
  leave-ok now token (raised e) s a h = cc
  leave-ok now token (ok b) s a h =
      let (_, _, same) =
        continue-ok (λ _. pure b) (commit R P now (record s { current = token })) h in
      ap ok (ok_injective same)

  wrapped_injective : {v w : Wrapped R P} → wrapped v ≡ wrapped w → v ≡ w
  wrapped_injective h = cc

  -- If the wrapped function leaves the mark of a new task alone, the response that `atp_response`
  -- returns in its dict says that the task is not committed.
  pub atp_response_uncommitted :
      (func : String → Exec (Agent R P) Json) (now : DateTime) (s : Agent R P) (w : Wrapped R P)
      → ((query : String) (t : Agent R P) → (func query t).1.task.committed ≡ t.task.committed)
      → s.task.committed ≡ false
      → (atp_response R P true func now s).0 ≡ ok (wrapped w)
      → w.atp_committed ≡ false
  unfolding atp_response atp_task set_response
  atp_response_uncommitted func now s w keeps new returned =
      let inner = record s { current = some s.task.atp_task_id } in
      let x = run_func R P true func inner in
      let (result, _, h) =
        continue-ok (respond R P true) (func s.task.query inner)
          (leave-ok now s.current x.0 x.1 (wrapped w) returned) in
      sym (ap (λ (v : Wrapped R P). v.atp_committed) (wrapped_injective (ok_injective h)))
      ∙ keeps s.task.query inner
      ∙ new
