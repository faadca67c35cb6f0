-- ===== src/Gather/Vouched.antt =====
-- What the Exchange vouches for, of a proof that is read from a sound answer.
use atp_python.Base.{◌≡◌, sym, ap, subst, ◌∙◌, none, []}
use atp_python.Python.Exceptions.{ok, ok_injective}
use atp_python.Python.Json.{Json, str, obj}
use atp_python.Python.DateTime.{DateTime}
use atp_python.Models.{Commit, confirmed, ProofData, TrustLevel}
use atp_python.Hashing.{hash_with_prefix}
use atp_python.Wire.{Runtime}
use atp_python.Wire.RawProof.{RawTask}
use atp_python.Wire.Records.{text_of}
use atp_python.Wire.Gathered.{gathered}
use atp_python.Client.{World}
use atp_python.Client.Queries.{get_commit_by_system_and_task}
use atp_python.Client.Challenge.{system_id_of}
use atp_python.Upstream.Verdicts.{IsSound, str_injective}
use atp_python.Gather.Reading.{gathered-read}

module _ (R : Runtime) where
  -- The content has its declared hashes, and in the world `asked` the Exchange answers with a confirmed
  -- commit of the same two hashes for the same system and task.
  pub record IsVouched (p : ProofData) (asked : World R) : Type 0 where
    pub invocation_hash : p.task.invocation_hash ≡ hash_with_prefix R.sha256 (obj p.task.invocation)
    pub outcome_hash : p.task.outcome_hash ≡ hash_with_prefix R.sha256 (obj p.task.outcome)
    pub commit : Commit
    pub fetched :
        (get_commit_by_system_and_task R (system_id_of p.task.system_uri) p.task.task_id asked).0
        ≡ ok commit
    pub same_invocation : p.task.invocation_hash ≡ commit.proof_sketch.cryptography.invocation_hash
    pub same_outcome : p.task.outcome_hash ≡ commit.proof_sketch.cryptography.outcome_hash
    pub is_confirmed : commit.status ≡ confirmed
    pub is_verified : p.task.trust_level ≡ TrustLevel.verified
    pub alone : p.dependencies ≡ []

  pub sound-IsVouched :
      (sent : Json) (w : World R) (now : DateTime) (p : ProofData)
      → IsSound R sent none none w
      → gathered R now sent ≡ ok p
      → IsVouched p w
  unfolding text_of
  sound-IsVouched sent w now p sound h =
      let (read, trusted, alone, _, _, _) = gathered-read R now sent p h in
      let same = ok_injective (sym sound.read ∙ read) in
      record {
        invocation_hash = str_injective (
            subst
              (λ (t : RawTask). t.invocation_hash ≡ str (hash_with_prefix R.sha256 t.invocation))
              same sound.invocation_hash);
        outcome_hash = str_injective (
            subst (λ (t : RawTask). t.outcome_hash ≡ str (hash_with_prefix R.sha256 t.outcome)) same
              sound.outcome_hash);
        commit = sound.commit;
        fetched =
            subst
              (λ (t : RawTask).
                (get_commit_by_system_and_task R (system_id_of t.system_uri) (text_of R t.task_id)
                  w).0
                ≡ ok sound.commit)
              same sound.fetched;
        same_invocation =
            str_injective
              (sym (ap (λ (t : RawTask). t.invocation_hash) same) ∙ sound.same_invocation);
        same_outcome =
            str_injective (sym (ap (λ (t : RawTask). t.outcome_hash) same) ∙ sound.same_outcome);
        is_confirmed = sound.is_confirmed;
        is_verified = trusted;
        alone = alone;
      }
