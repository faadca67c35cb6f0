-- ===== src/Storage/Memory.antt =====
-- `InMemoryProofStore` of atp/core/storage.py. No method is suspended while it holds the lock, so
-- each one is a step. The clock is read by the caller of a method, who passes the reading in.
pub mod Retention
pub mod Interface
pub mod Keys
pub mod Refinement
pub mod Collection
use atp_python.Base.{
  ℕ, suc, zero, ◌+◌, String, Bool, true, false, Option, none, some, List, [], ◌∷◌, if◌then◌else◌,
}
use atp_python.Base.Dict
use atp_python.Base.Dict.{Dict}
use atp_python.Python.Exceptions.{
  Exception, Result, ok, raised, is_a, exception, atp_storage_error, atp_proof_expired_error,
}
use atp_python.Python.Exec.{Exec, pure, raise, lift, gets, modify, try_except, ◌>>=◌, ◌>>◌}
use atp_python.Python.DateTime.{DateTime, is_before}
use atp_python.Models.{StoredProof}
use atp_python.Storage.{key}

-- The background task: not started, running, or done.
pub data GcTask : Type 0 where
  absent running done : GcTask

pub record MemoryStore : Type 0 where
  pub proofs : Dict StoredProof
  pub gc_task : GcTask

abbrev pub empty : MemoryStore
empty = record { proofs = []; gc_task = absent }

-- `_ensure_gc_task`, within a running event loop
unfoldable pub ensure_gc_task : MemoryStore → MemoryStore
ensure_gc_task s = elim s.gc_task [
  | absent ↦ record s { gc_task = running }
  | running ↦ s
  | done ↦ record s { gc_task = running }
]

unfoldable pub save : StoredProof → Exec MemoryStore (Unit {0})
unfolding ensure_gc_task
save proof = do
  modify ensure_gc_task
  modify (λ s. record s { proofs = Dict.insert (key proof) proof s.proofs })

unfoldable pub delete : String → Exec MemoryStore (Unit {0})
delete task_id = modify (λ s. record s { proofs = Dict.erase task_id s.proofs })

abbrev check_expiry : String → DateTime → Option StoredProof → Exec MemoryStore (Option StoredProof)
check_expiry task_id now none = pure none
check_expiry task_id now (some stored) = do
  expired ← lift (is_before stored.expires_at now)
  if expired then (do delete task_id; raise atp_proof_expired_error) else pure (some stored)

-- An expired proof is deleted and its error goes through; any other error becomes a storage error.
unfoldable pub get : String → DateTime → Exec MemoryStore (Option StoredProof)
unfolding delete
get task_id now =
    try_except (do found ← gets (λ s. Dict.lookup task_id s.proofs); check_expiry task_id now found)
      (λ e. if is_a e atp_proof_expired_error then raise e else raise atp_storage_error)

unfoldable pub list : Exec MemoryStore (List String)
list = gets (λ s. Dict.keys s.proofs)

-- `deleted_count` after one round of the loop: only the expiry error counts.
abbrev tally {ℓ} : {A : Type ℓ} → Result A → ℕ → ℕ
tally (ok _) n = n
tally (raised e) n = if is_a e atp_proof_expired_error then suc n else n

-- The loop of one cleanup cycle over the listed tasks. The clock is read at each one; the result is
-- the number of proofs that were deleted.
unfoldable pub sweep : (ℕ → DateTime) → ℕ → List String → MemoryStore → ℕ × MemoryStore
sweep clock i [] s = (0, s)
sweep clock i (task_id ∷ ids) s =
    let (outcome, s') = get task_id (clock i) s in
    let (deleted, t) = sweep clock (suc i) ids s' in (tally outcome deleted, t)

-- One cycle of `garbage_collect`
unfoldable pub garbage_collect : (ℕ → DateTime) → MemoryStore → ℕ × MemoryStore
garbage_collect clock s = sweep clock 0 (Dict.keys s.proofs) s

unfoldable pub stop : MemoryStore → MemoryStore
stop s = elim s.gc_task [ absent ↦ s | running ↦ record s { gc_task = done } | done ↦ s ]
