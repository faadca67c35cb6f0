-- ===== src/Storage.antt =====
-- atp/core/storage.py: local proof storage with a time to live, and `ProofStore`, its interface.
pub mod Contract
pub mod Memory
pub mod Sqlite
use atp_python.Base.{String, Bool, false, Option, some, List, ◌≡◌}
use atp_python.Python.Exceptions.{ok}
use atp_python.Python.Exec.{Exec}
use atp_python.Python.DateTime.{DateTime, is_before}
use atp_python.Models.{StoredProof}

-- The operations of a store whose state is `State`. `get` and `list` take the reading of the clock.
pub record ProofStore : Type 1 where
  pub State : Type 0
  pub save : StoredProof → Exec State (Unit {0})
  pub get : String → DateTime → Exec State (Option StoredProof)
  pub delete : String → Exec State (Unit {0})
  pub list : DateTime → Exec State (List String)

-- The task that a proof is stored under.
abbrev pub key : StoredProof → String
key p = p.proof_data.task.task_id

-- What the rest of the SDK relies on: a proof that was just saved is served until it expires.
abbrev pub ServesSaved : ProofStore → Type 0
ServesSaved P =
    (p : StoredProof) (now : DateTime) (s : P.State)
    → (P.save p s).0 ≡ ok tt
    → is_before p.expires_at now ≡ ok false
    → (P.get (key p) now (P.save p s).1).0 ≡ ok (some p)
