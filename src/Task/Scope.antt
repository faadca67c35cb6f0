-- ===== src/Task/Scope.antt =====
-- The scope of a task: what `async with atp_task(...)` leaves behind.
use atp_python.Base.{◌≡◌, refl, String, Bool, true, false, Option, none, some}
use atp_python.Python.Exceptions.{Result, ok, raised}
use atp_python.Python.Exec.{Exec, pure, modify, continue-keeps, ◌>>◌}
use atp_python.Python.DateTime.{DateTime}
use atp_python.Storage.{ProofStore}
use atp_python.Wire.{Runtime}
use atp_python.Client.Commits.{create_commit}
use atp_python.Task.{Draft, draft}
use atp_python.Task.Publish.{
  Agent, in_store, in_world, publish, commit, commit_response, leave, atp_task,
}

module _ (R : Runtime) (P : ProofStore) where
  -- The task that is the current one
  active : Agent R P → Option String
  active s = s.current

  publish-active : (d : Draft) (s : Agent R P) → active (publish R P d s).1 ≡ active s
  unfolding active
  publish-active d s =
      let send = create_commit R d.system_id d.stored.proof_data.task.task_id d.sketch in
      continue-keeps active
        (λ _.
          in_world R P send
          >> modify (λ t. record t { task = record (t.task) { committed = true } }))
        (in_store R P (P.save d.stored) s) s.current refl
        (λ _ t.
          continue-keeps active
            (λ _. modify (λ t. record t { task = record (t.task) { committed = true } }))
            (in_world R P send t) t.current refl (λ _ _. refl))

  commit-active : (now : DateTime) (s : Agent R P) → active (commit R P now s).1 ≡ active s
  unfolding commit active
  commit-active now s = from s.task.committed s.task.response
    where
      from :
          (b : Bool) (text : Option String) → active (commit_response R P b text now s).1 ≡ active s
      from true text = refl
      from false none = refl
      from false (some String.[]) = refl
      from false (some (String.◌∷◌ c text)) =
          continue-keeps active (publish R P)
            (draft R.sha256 s.world.client s.task (String.◌∷◌ c text) now, s) s.current refl
            publish-active

  leave-active {ℓ} :
      {A : Type ℓ} (now : DateTime) (token : Option String) (r : Result A) (s : Agent R P)
      → (leave R P now token r s).1.current ≡ token
  unfolding active
  leave-active now token (raised e) s = refl
  leave-active now token (ok a) s =
      continue-keeps active (λ _. pure a) (commit R P now (record s { current = token })) token
        (commit-active now (record s { current = token })) (λ _ _. refl)

  -- After `async with atp_task(...)` the context variable has the value that it had before, whatever
  -- the body does to it and whether the body, or the commit that follows it, raises.
  pub atp_task-current {ℓ} :
      {A : Type ℓ} (body : Exec (Agent R P) A) (now : DateTime) (s : Agent R P)
      → (atp_task R P body now s).1.current ≡ s.current
  unfolding atp_task
  atp_task-current body now s =
      let x = body (record s { current = some s.task.atp_task_id }) in
      leave-active now s.current x.0 x.1
