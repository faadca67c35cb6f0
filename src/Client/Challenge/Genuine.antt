-- ===== src/Client/Challenge/Genuine.antt =====
-- When `_verify` says true.
use atp_python.Base.{
  ◌↔◌, Bool, true, false, inl, inr, arith, false≢true, ◌≡◌, ap, Bool, true, false, false≢true,
  eq_iff, eq_refl, inl, inr, arith,
}
use atp_python.Python.Exceptions.{ok}
use atp_python.Python.Exec.{settled, settled_ok}
use atp_python.Python.Json.{obj}
use atp_python.Models.{Commit, confirmed, ProofDataTask, StoredProof}
use atp_python.Hashing.{hash_with_prefix}
use atp_python.Wire.{Runtime}
use atp_python.Client.{World}
use atp_python.Client.Queries.{get_commit_by_system_and_task}
use atp_python.Client.Challenge.{
  Message, verified_and_confirmed, exchange_failed, system_id_of, compare_commit, check_exchange,
  verify,
}

module _ (R : Runtime) where
  -- The content of the proof has the hashes that the proof declares, and the Exchange, asked in the
  -- world `w`, has a confirmed commit of the same hashes for the proof's system and task.
  pub record IsGenuine (stored : StoredProof) (w : World R) : Type 0 where
    pub invocation :
        hash_with_prefix R.sha256 (obj stored.proof_data.task.invocation)
        ≡ stored.proof_data.task.invocation_hash
    pub outcome :
        hash_with_prefix R.sha256 (obj stored.proof_data.task.outcome)
        ≡ stored.proof_data.task.outcome_hash
    pub commit : Commit
    pub fetched :
        (get_commit_by_system_and_task R
          (system_id_of stored.proof_data.task.system_uri)
          stored.proof_data.task.task_id
          w).0
        ≡ ok commit
    pub same_invocation :
        commit.proof_sketch.cryptography.invocation_hash ≡ stored.proof_data.task.invocation_hash
    pub same_outcome :
        commit.proof_sketch.cryptography.outcome_hash ≡ stored.proof_data.task.outcome_hash
    pub is_confirmed : commit.status ≡ confirmed

  compare_commit-verified :
      (task : ProofDataTask) (commit : Commit) (m : Message)
      → compare_commit R task commit ≡ (true, m)
      → (commit.proof_sketch.cryptography.invocation_hash ≡ task.invocation_hash)
        × (commit.proof_sketch.cryptography.outcome_hash ≡ task.outcome_hash)
        × (commit.status ≡ confirmed)
  unfolding compare_commit
  compare_commit-verified task commit m h = ground (
    arith,
    eq_iff commit.proof_sketch.cryptography.invocation_hash task.invocation_hash,
    eq_iff commit.proof_sketch.cryptography.outcome_hash task.outcome_hash,
  )

  check_exchange-verified :
      (task : ProofDataTask) (w : World R) (m : Message)
      → (check_exchange R task w).0 ≡ ok (true, m)
      → (commit : Commit) × ((get_commit_by_system_and_task R
            (system_id_of task.system_uri)
            task.task_id
            w).0
          ≡ ok commit)
        × (compare_commit R task commit ≡ (true, m))
  unfolding check_exchange
  check_exchange-verified task w m h =
      elim (settled (compare_commit R task) (λ e. (false, exchange_failed e))
        (get_commit_by_system_and_task R (system_id_of task.system_uri) task.task_id w) h) [
          | inl found ↦ found
          | inr (e, _, p) ↦ absurd (false≢true (ap (λ (v : Bool × Message). v.0) p))
        ]

  hash_tests :
      (stored : StoredProof) (w : World R) (m : Message)
      → (verify R stored w).0 ≡ ok (true, m)
      → (hash_with_prefix R.sha256 (obj stored.proof_data.task.invocation)
          ≡ stored.proof_data.task.invocation_hash)
        × (hash_with_prefix R.sha256 (obj stored.proof_data.task.outcome)
            ≡ stored.proof_data.task.outcome_hash)
        × ((check_exchange R stored.proof_data.task w).0 ≡ ok (true, m))
  unfolding verify
  hash_tests stored w m h = ground (
    arith,
    eq_iff (hash_with_prefix R.sha256 (obj stored.proof_data.task.invocation))
        stored.proof_data.task.invocation_hash,
    eq_iff (hash_with_prefix R.sha256 (obj stored.proof_data.task.outcome))
        stored.proof_data.task.outcome_hash,
  )

  pub verify-IsGenuine :
      (stored : StoredProof) (w : World R) (m : Message)
      → (verify R stored w).0 ≡ ok (true, m)
      → IsGenuine stored w
  verify-IsGenuine stored w m h =
      let (inv, out, checked) = hash_tests stored w m h in
      let (commit, fetched, compared) =
        check_exchange-verified stored.proof_data.task w m checked in
      let (same_inv, same_out, status) =
        compare_commit-verified stored.proof_data.task commit m compared in
      record {
        invocation = inv;
        outcome = out;
        commit = commit;
        fetched = fetched;
        same_invocation = same_inv;
        same_outcome = same_out;
        is_confirmed = status;
      }

  compare_commit-IsGenuine :
      (stored : StoredProof) (w : World R) (g : IsGenuine stored w)
      → compare_commit R stored.proof_data.task g.commit ≡ (true, verified_and_confirmed)
  unfolding compare_commit
  compare_commit-IsGenuine stored w g =
      rw (g.same_invocation, g.same_outcome, g.is_confirmed)
        (rw (
          eq_refl stored.proof_data.task.invocation_hash,
          eq_refl stored.proof_data.task.outcome_hash,
        ))

  check_exchange_found :
      (task : ProofDataTask) (w : World R) (commit : Commit)
      → (get_commit_by_system_and_task R (system_id_of task.system_uri) task.task_id w).0
        ≡ ok commit
      → (check_exchange R task w).0 ≡ ok (compare_commit R task commit)
  unfolding check_exchange
  check_exchange_found task w commit h =
      settled_ok (compare_commit R task) (λ e. (false, exchange_failed e))
        (get_commit_by_system_and_task R (system_id_of task.system_uri) task.task_id w) commit h

  verify_past_hashes :
      (stored : StoredProof) (w : World R)
      → IsGenuine stored w
      → verify R stored w ≡ check_exchange R stored.proof_data.task w
  unfolding verify
  verify_past_hashes stored w g =
      rw (g.invocation, g.outcome)
        (rw (
          eq_refl stored.proof_data.task.invocation_hash,
          eq_refl stored.proof_data.task.outcome_hash,
        ))

  pub IsGenuine-verify :
      (stored : StoredProof) (w : World R)
      → IsGenuine stored w
      → (verify R stored w).0 ≡ ok (true, verified_and_confirmed)
  IsGenuine-verify stored w g =
      rw
        (
          verify_past_hashes stored w g,
          check_exchange_found stored.proof_data.task w g.commit g.fetched,
        )
        (rw (compare_commit-IsGenuine stored w g))

  -- `_verify` returns true, with some message, exactly for the genuine proofs.
  pub verify_iff :
      (stored : StoredProof) (w : World R)
      → ((m : Message) × ((verify R stored w).0 ≡ ok (true, m))) ↔ IsGenuine stored w
  verify_iff stored w = (
    λ (m, h). verify-IsGenuine stored w m h,
    λ g. (verified_and_confirmed, IsGenuine-verify stored w g),
  )
