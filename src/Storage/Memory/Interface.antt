-- ===== src/Storage/Memory/Interface.antt =====
-- `InMemoryProofStore` as a `ProofStore`.
use atp_python.Base.{false, some, eq_refl, arith, ◌≡◌, eq_refl}
use atp_python.Base.Dict.{lookup-insert}
use atp_python.Python.Exceptions.{ok}
use atp_python.Python.DateTime.{DateTime, is_before}
use atp_python.Models.{StoredProof}
use atp_python.Storage.{ProofStore, ServesSaved}
use atp_python.Storage.Contract.{retained}
use atp_python.Storage.Memory.{MemoryStore, save, get, delete, list}
use atp_python.Storage.Memory.Retention.{get_outcome, proofs-save}

abbrev pub memory : ProofStore
memory = record { State = MemoryStore; save = save; get = get; delete = delete; list = λ now. list }

retained_fresh :
    (p : StoredProof) (now : DateTime)
    → is_before p.expires_at now ≡ ok false
    → retained now (some p) ≡ ok (some p)
retained_fresh p now fresh = ground arith

-- The in-memory store serves a proof that was just saved, without an error, at every reading that
-- its expiry is known not to be before.
pub memory-ServesSaved : ServesSaved memory
memory-ServesSaved p now s saved fresh =
    rw (get_outcome, proofs-save, lookup-insert, eq_refl p.proof_data.task.task_id)
      (retained_fresh p now fresh)
