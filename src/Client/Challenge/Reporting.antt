-- ===== src/Client/Challenge/Reporting.antt =====
-- What a report may change in the outcome of a challenge.
use atp_python.Base.{
  ◌∙◌, ◌≡◌, refl, ap, String, Bool, true, false, not, ◌==◌, if◌then◌else◌, Option,
}
use atp_python.Python.Exceptions.{Exception, Result, ok, raised}
use atp_python.Python.Exec.{Exec, continue, handle, pure, ◌>>◌}
use atp_python.Python.DateTime.{DateTime}
use atp_python.Models.{StoredProof}
use atp_python.Python.Json.{obj}
use atp_python.Hashing.{hash_with_prefix}
use atp_python.Wire.{Runtime}
use atp_python.Client.{World}
use atp_python.Client.Queries.{get_commit_by_system_and_task}
use atp_python.Client.Challenge.{
  Message, invocation_hash_mismatch, outcome_hash_mismatch, exchange_failed, compare_commit,
  integrity_report, verdict_of, report_quietly, verify, check_exchange, judge, system_id_of,
}
use atp_python.Client.Reports.{report_assessment}

-- An action whose exceptions are all turned into values returns.
settles {ℓ κ μ} :
    {S : Type ℓ} {A : Type κ} {B : Type μ} (f : A → B) (g : Exception → B) (x : Result A × S)
    → (b : B) × ((handle (λ e. pure (g e)) (continue (λ a. pure (f a)) x)).0 ≡ ok b)
settles f g (ok a, s) = (f a, refl)
settles f g (raised e, s) = (g e, refl)

either_settles {ℓ κ} :
    {S : Type ℓ} {A : Type κ} (b : Bool) (m n : Exec S A) (s : S)
    → (a : A) × ((m s).0 ≡ ok a)
    → (a : A) × ((n s).0 ≡ ok a)
    → (a : A) × (((if b then m else n) s).0 ≡ ok a)
either_settles true m n s h g = h
either_settles false m n s h g = g

quietly {ℓ κ μ} :
    {S : Type ℓ} {A : Type κ} {B : Type μ} (b : B) (x : Result A × S)
    → (continue
        (λ (_ : Unit {0}). pure b)
        (handle (λ e. pure tt) (continue (λ a. pure {A = Unit {0}} tt) x))).0
      ≡ ok b
quietly b (ok a, s) = refl
quietly b (raised e, s) = refl

module _ (R : Runtime) where
  verify_returns :
      (stored : StoredProof) (w : World R) → (v : Bool × Message) × ((verify R stored w).0 ≡ ok v)
  unfolding verify check_exchange
  verify_returns stored w =
      let task = stored.proof_data.task in
      let same_invocation =
        hash_with_prefix R.sha256 (obj task.invocation) == task.invocation_hash in
      let same_outcome = hash_with_prefix R.sha256 (obj task.outcome) == task.outcome_hash in
      either_settles (not same_invocation) (pure (false, invocation_hash_mismatch)) _ w (_, refl)
        (either_settles (not same_outcome) (pure (false, outcome_hash_mismatch)) _ w (_, refl)
          (settles (compare_commit R task) (λ e. (false, exchange_failed e))
            (get_commit_by_system_and_task R (system_id_of task.system_uri) task.task_id w)))

  -- `_verify` always returns a verdict, whatever the Exchange answers, and what follows the answer of
  -- a challenge returns that verdict with the proof, whatever becomes of the report.
  pub judge_returns :
      (stored : StoredProof) (assessor_task : Option String) (now : DateTime) (w : World R)
      → (v : Bool × Message) × ((verify R stored w).0 ≡ ok v)
        × ((judge R stored true assessor_task now w).0 ≡ ok (stored, v.0, v.1))
  unfolding judge
  judge_returns stored assessor_task now w =
      let (v, returned) = verify_returns stored w in
      let checked : World R = (verify R stored w).1 in
      let report = integrity_report R stored (verdict_of R v.0) now assessor_task in
      (
        v,
        returned,
        ap
              (λ r.
                (continue
                  (λ (v : Bool × Message).
                    report_quietly R
                      (integrity_report R stored (verdict_of R v.0) now assessor_task)
                    >> pure (stored, v.0, v.1))
                  (r, checked)).0)
              returned
            ∙ quietly (stored, v.0, v.1) (report_assessment R report checked),
      )
