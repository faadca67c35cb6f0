-- ===== src/Task/Failure.antt =====
-- A commit that the Exchange refuses, or that does not reach it.
use Prim.Native.Char.{Char}
use atp_python.Base.{◌≡◌, ap, ◌∙◌, String, true, false, some}
use atp_python.Python.Exceptions.{Exception, ok, raised}
use atp_python.Python.Exec.{Exec, continue, modify, ◌>>◌}
use atp_python.Python.DateTime.{DateTime}
use atp_python.Storage.{ProofStore}
use atp_python.Wire.{Runtime}
use atp_python.Client.Commits.{create_commit}
use atp_python.Task.{Draft, draft}
use atp_python.Task.Publish.{Agent, commit, publish, in_store, in_world}
use atp_python.Task.Provable.{commit_new}

module _ (R : Runtime) (P : ProofStore) where
  publish_refused :
      (d : Draft) (e : Exception) (s : Agent R P)
      → (P.save d.stored s.store).0 ≡ ok tt
      → (create_commit R d.system_id d.stored.proof_data.task.task_id d.sketch s.world).0 ≡ raised e
      → ((publish R P d s).0 ≡ raised e)
        × ((publish R P d s).1.store ≡ (P.save d.stored s.store).1)
        × ((publish R P d s).1.task ≡ s.task)
  publish_refused d e s saved refused =
      let mark : Unit {0} → Exec (Agent R P) (Unit {0}) =
        λ _. modify (λ t. record t { task = record (t.task) { committed = true } }) in
      let send =
        in_world R P (create_commit R d.system_id d.stored.proof_data.task.task_id d.sketch) in
      let stored : Agent R P = (in_store R P (P.save d.stored) s).1 in
      let steps : publish R P d s ≡ (raised e, (send stored).1) =
        ap (λ r. continue (λ (_ : Unit {0}). send >> mark tt) (r, stored)) saved
        ∙ ap (λ r. continue (λ _. mark tt) (r, (send stored).1)) refused in
      (ap (λ x. x.0) steps, ap (λ x. x.1.store) steps, ap (λ x. x.1.task) steps)

  -- If the store takes the drafted proof and the commit then raises, `_commit` raises the same, the
  -- proof stays stored, and the task is as it was, not marked, so that a commit can be tried again.
  pub commit_refused :
      (now : DateTime) (s : Agent R P) (c : Char) (text : String) (d : Draft) (e : Exception)
      → s.task.committed ≡ false
      → s.task.response ≡ some (String.◌∷◌ c text)
      → draft R.sha256 s.world.client s.task (String.◌∷◌ c text) now ≡ ok d
      → (P.save d.stored s.store).0 ≡ ok tt
      → (create_commit R d.system_id d.stored.proof_data.task.task_id d.sketch s.world).0 ≡ raised e
      → ((commit R P now s).0 ≡ raised e)
        × ((commit R P now s).1.store ≡ (P.save d.stored s.store).1)
        × ((commit R P now s).1.task ≡ s.task)
  commit_refused now s c text d e new answered drawn saved refused =
      let steps : commit R P now s ≡ publish R P d s =
        commit_new R P now s c text new answered ∙ ap (λ r. continue (publish R P) (r, s)) drawn in
      let (raises, kept, same) = publish_refused d e s saved refused in
      (
        ap (λ x. x.0) steps ∙ raises,
        ap (λ x. x.1.store) steps ∙ kept,
        ap (λ x. x.1.task) steps ∙ same,
      )
