-- ===== src/Upstream/Contrast.antt =====
-- What becomes of one failure of the Exchange in `ATPClient.challenge` and in `challenge_and_verify`.
use atp_python.Base.{◌≡◌, refl, ap, String, true, false, Option, none, ◌==◌}
use text.Mathlib.TextPositions.{eq_refl}
use atp_python.Python.Exceptions.{Exception, Result, ok, raised}
use atp_python.Python.Exec.{pure, continue, handle}
use atp_python.Python.Json.{Json, str, obj}
use atp_python.Python.DateTime.{DateTime}
use atp_python.Models.{StoredProof, compromised}
use atp_python.Hashing.{hash_with_prefix}
use atp_python.Wire.{Runtime}
use atp_python.Wire.Records.{text_of}
use atp_python.Wire.RawProof.{read_task}
use atp_python.Client.{World}
use atp_python.Client.Queries.{get_commit_by_system_and_task}
use atp_python.Client.Reports.{report_assessment}
use atp_python.Client.Challenge.{
  exchange_failed, system_id_of, integrity_report, verify, check_exchange, judge,
}
use atp_python.Upstream.{check_proof}
use atp_python.Upstream.Errors.{check_proof-exchange_failed}
use atp_python.Gather.Reading.{raw_of}

quiet {ℓ κ μ} :
    {S : Type ℓ} {A : Type κ} {B : Type μ} (b : B) (x : Result A × S)
    → continue
        (λ (_ : Unit {0}). pure b)
        (handle (λ e. pure tt) (continue (λ a. pure {A = Unit {0}} tt) x))
      ≡ (ok b, x.1)
quiet b (ok a, s) = refl
quiet b (raised e, s) = refl

same_text : (s t : String) → s ≡ t → (t == s) ≡ true
same_text s t e = rw e (eq_refl t)

module _ (R : Runtime) where
  verify-exchange_failed :
      (stored : StoredProof) (w x : World R) (e : Exception)
      → let task = stored.proof_data.task in
        task.invocation_hash ≡ hash_with_prefix R.sha256 (obj task.invocation)
        → task.outcome_hash ≡ hash_with_prefix R.sha256 (obj task.outcome)
        → get_commit_by_system_and_task R (system_id_of task.system_uri) task.task_id w
          ≡ (raised e, x)
        → verify R stored w ≡ (ok (false, exchange_failed e), x)
  unfolding verify check_exchange
  verify-exchange_failed stored w x e inv out asked =
      rw (same_text _ _ inv, same_text _ _ out, asked) refl

  judge-exchange_failed :
      (stored : StoredProof) (assessor_task : Option String) (now : DateTime) (w x : World R)
      (e : Exception)
      → verify R stored w ≡ (ok (false, exchange_failed e), x)
      → judge R stored true assessor_task now w ≡ (
        ok (stored, false, exchange_failed e),
        (report_assessment R (integrity_report R stored compromised now assessor_task) x).1,
      )
  unfolding judge
  judge-exchange_failed stored assessor_task now w x e h = rw h (
      quiet (stored, false, exchange_failed e)
        (report_assessment R (integrity_report R stored compromised now assessor_task) x))

  -- For one and the same proof, whose content has the declared hashes, in a world in which the query
  -- of the Exchange raises: the check of `challenge_and_verify` and what follows the answer in
  -- `ATPClient.challenge`, with verification on, both say false with that exception, but the former
  -- leaves the world as the query left it, with nothing reported, whereas the latter goes on to report
  -- the system of the proof as compromised.
  pub exchange_failed-contrast :
      (sent : Json) (stored : StoredProof) (assessor_task : Option String) (now : DateTime)
      (w x : World R) (e : Exception)
      → let task = stored.proof_data.task in
        read_task sent ≡ ok (raw_of task)
        → task.invocation_hash ≡ hash_with_prefix R.sha256 (obj task.invocation)
        → task.outcome_hash ≡ hash_with_prefix R.sha256 (obj task.outcome)
        → get_commit_by_system_and_task R (system_id_of task.system_uri) task.task_id w
          ≡ (raised e, x)
        → (check_proof R none none now sent w ≡ (ok (sent, false, exchange_failed e), x))
          × (judge R stored true assessor_task now w ≡ (
            ok (stored, false, exchange_failed e),
            (report_assessment R (integrity_report R stored compromised now assessor_task) x).1,
          ))
  unfolding text_of
  exchange_failed-contrast sent stored assessor_task now w x e read inv out asked = (
    check_proof-exchange_failed R none none now sent (raw_of stored.proof_data.task) w x e read
        (ap str inv) (ap str out) asked,
    judge-exchange_failed stored assessor_task now w x e
        (verify-exchange_failed stored w x e inv out asked),
  )
