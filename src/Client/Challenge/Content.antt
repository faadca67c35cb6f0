-- ===== src/Client/Challenge/Content.antt =====
-- What a verified proof says of the content that was committed.
use atp_python.Base.{◌≡◌, sym, ap, ◌∙◌, true}
use atp_python.Python.Exceptions.{ok, ok_injective}
use atp_python.Python.Json.{Fields, obj}
use atp_python.Python.Canonical.{dumps, SameJson}
use atp_python.Python.Canonical.Told.{IsProper}
use atp_python.Models.{Commit, StoredProof}
use atp_python.Hashing.{hash_with_prefix}
use atp_python.Hashing.Binding.{Separates}
use atp_python.Hashing.Content.{hash_with_prefix_iff}
use atp_python.Wire.{Runtime}
use atp_python.Client.{World}
use atp_python.Client.Queries.{get_commit_by_system_and_task}
use atp_python.Client.Challenge.{Message, system_id_of, verify}
use atp_python.Client.Challenge.Genuine.{IsGenuine, verify-IsGenuine}

module _ (R : Runtime) where
  -- Suppose that the Exchange's commit for a proof's system and task has the content hashes of an
  -- invocation and an outcome, and that the digest function tells the canonical texts of these apart
  -- from those of the proof's. If `_verify` says true of the proof, its invocation and its outcome
  -- are those that were committed, but for the order of keys.
  pub verify-SameJson :
      (p : StoredProof) (invocation outcome : Fields) (c : Commit) (w : World R) (m : Message)
      → IsProper (obj p.proof_data.task.invocation)
      → IsProper (obj p.proof_data.task.outcome)
      → IsProper (obj invocation)
      → IsProper (obj outcome)
      → Separates R.sha256 (dumps (obj p.proof_data.task.invocation)) (dumps (obj invocation))
      → Separates R.sha256 (dumps (obj p.proof_data.task.outcome)) (dumps (obj outcome))
      → (get_commit_by_system_and_task R
          (system_id_of p.proof_data.task.system_uri)
          p.proof_data.task.task_id
          w).0
        ≡ ok c
      → c.proof_sketch.cryptography.invocation_hash ≡ hash_with_prefix R.sha256 (obj invocation)
      → c.proof_sketch.cryptography.outcome_hash ≡ hash_with_prefix R.sha256 (obj outcome)
      → (verify R p w).0 ≡ ok (true, m)
      → SameJson (obj p.proof_data.task.invocation) (obj invocation)
        × SameJson (obj p.proof_data.task.outcome) (obj outcome)
  verify-SameJson p invocation outcome c w m pi po i o separate_i separate_o fetched hash_i hash_o
        verified =
      let g : IsGenuine R p w = verify-IsGenuine R p w m verified in
      let commit : g.commit ≡ c = ok_injective (sym g.fetched ∙ fetched) in
      let crypto = ap (λ (k : Commit). k.proof_sketch.cryptography) commit in
      (
        (hash_with_prefix_iff R.sha256 p.proof_data.task.invocation invocation pi i separate_i).0.0
            (g.invocation ∙ sym g.same_invocation ∙ ap (λ k. k.invocation_hash) crypto ∙ hash_i),
        (hash_with_prefix_iff R.sha256 p.proof_data.task.outcome outcome po o separate_o).0.0
            (g.outcome ∙ sym g.same_outcome ∙ ap (λ k. k.outcome_hash) crypto ∙ hash_o),
      )
