-- ===== src/Storage/Memory/Keys.antt =====
-- The keys of the in-memory store, along every sequence of its operations.
use atp_python.Base.{arith, ℕ, suc, String, List, [], ◌∷◌, Bool, true, false, if◌then◌else◌}
use atp_python.Base.Dict.{NodupKeys, erase, keys, insert-NodupKeys, erase-NodupKeys, lookup}
use atp_python.Python.DateTime.{DateTime}
use atp_python.Models.{StoredProof}
use atp_python.Storage.{key}
use atp_python.Storage.Contract.{is_expired}
use atp_python.Storage.Memory.{MemoryStore, empty, save, get, delete, sweep, garbage_collect, stop}
use atp_python.Storage.Memory.Retention.{get_state, proofs-save}

-- The stores that the operations lead to.
pub data Reachable : MemoryStore → Type 0 where
  started : Reachable empty
  saved : {s : MemoryStore} (p : StoredProof) → Reachable s → Reachable (save p s).1
  got : {s : MemoryStore} (k : String) (now : DateTime) → Reachable s → Reachable (get k now s).1
  deleted : {s : MemoryStore} (k : String) → Reachable s → Reachable (delete k s).1
  collected :
      {s : MemoryStore} (clock : ℕ → DateTime) → Reachable s → Reachable (garbage_collect clock s).1
  stopped : {s : MemoryStore} → Reachable s → Reachable (stop s)

get-NodupKeys :
    (k : String) (now : DateTime) (s : MemoryStore)
    → NodupKeys s.proofs
    → NodupKeys (get k now s).1.proofs
get-NodupKeys k now s h = rw get_state (dropped (is_expired now (lookup k s.proofs)))
  where
    dropped :
        (b : Bool) → NodupKeys (if b then record s { proofs = erase k s.proofs } else s).proofs
    dropped true = erase-NodupKeys k s.proofs h
    dropped false = h

sweep-NodupKeys :
    (clock : ℕ → DateTime) (i : ℕ) (ids : List String) (s : MemoryStore)
    → NodupKeys s.proofs
    → NodupKeys (sweep clock i ids s).1.proofs
unfolding sweep
sweep-NodupKeys clock i [] s h = h
sweep-NodupKeys clock i (k ∷ ids) s h =
    sweep-NodupKeys clock (suc i) ids (get k (clock i) s).1 (get-NodupKeys k (clock i) s h)

stop-NodupKeys : (s : MemoryStore) → NodupKeys s.proofs → NodupKeys (stop s).proofs
unfolding stop
stop-NodupKeys s h = ground arith

-- After every sequence of saves, reads, deletions, cleanup cycles and stops, no task has two proofs.
pub Reachable-NodupKeys : (s : MemoryStore) → Reachable s → NodupKeys s.proofs
unfolding delete garbage_collect
Reachable-NodupKeys _ started = tt
Reachable-NodupKeys _ (saved {s = s} p r) =
    rw proofs-save (insert-NodupKeys (key p) p s.proofs (Reachable-NodupKeys s r))
Reachable-NodupKeys _ (got {s = s} k now r) = get-NodupKeys k now s (Reachable-NodupKeys s r)
Reachable-NodupKeys _ (deleted {s = s} k r) = erase-NodupKeys k s.proofs (Reachable-NodupKeys s r)
Reachable-NodupKeys _ (collected {s = s} clock r) =
    sweep-NodupKeys clock 0 (keys s.proofs) s (Reachable-NodupKeys s r)
Reachable-NodupKeys _ (stopped {s = s} r) = stop-NodupKeys s (Reachable-NodupKeys s r)
