-- ===== src/Storage/Memory/Refinement.antt =====
-- `InMemoryProofStore` against the contract of a store.
use atp_python.Base.{
  String, ◌≡◌, refl, subst, Bool, true, false, none, some, List, [], ◌∷◌, if◌then◌else◌, Every,
}
use mathlib.Core.Path.{fun_ext}
use atp_python.Base.Dict.{lookup, erase, lookup-insert, lookup-erase}
use atp_python.Python.DateTime.{DateTime}
use atp_python.Models.{StoredProof}
use atp_python.Storage.{key}
use atp_python.Storage.Contract.{
  Call, Contents, update, is_expired, respond, respond_all, perform, perform_all, simulates,
}
use atp_python.Storage.Memory.{MemoryStore, garbage_collect}
use atp_python.Storage.Memory
use atp_python.Storage.Memory.Retention.{get_outcome, get_state, proofs-save}
use atp_python.Storage.Memory.Collection.{lookup-garbage_collect}
use atp_python.Storage.Memory.Interface.{memory}

-- A cleanup cycle at whose every check the clock reads `now`.
abbrev pub collect : DateTime → MemoryStore → MemoryStore
collect now s = (garbage_collect (λ _. now) s).1

-- What the store holds for each task.
abbrev pub view : MemoryStore → Contents
view s k = lookup k s.proofs

lookup-get :
    (k j : String) (now : DateTime) (s : MemoryStore)
    → lookup j (Memory.get k now s).1.proofs
      ≡ (if is_expired now (lookup k s.proofs) then update k none (view s) else view s) j
lookup-get k j now s = rw get_state (dropped (is_expired now (lookup k s.proofs)))
  where
    dropped :
        (b : Bool)
        → lookup j (if b then record s { proofs = erase k s.proofs } else s).proofs
          ≡ (if b then update k none (view s) else view s) j
    dropped true = lookup-erase k j s.proofs
    dropped false = refl

lookup-save :
    (p : StoredProof) (j : String) (s : MemoryStore)
    → lookup j (Memory.save p s).1.proofs ≡ update (key p) (some p) (view s) j
lookup-save p j s = rw proofs-save (lookup-insert (key p) j p s.proofs)

view-perform :
    (c : Call) (s : MemoryStore)
    → ((perform memory collect c s).0 ≡ (respond c (view s)).0)
      × (view (perform memory collect c s).1 ≡ (respond c (view s)).1)
unfolding perform respond Memory.save Memory.delete
view-perform (Call.save p) s = (refl, fun_ext λ j. lookup-save p j s)
view-perform (Call.get k now) s = (get_outcome k now s, fun_ext λ j. lookup-get k j now s)
view-perform (Call.delete k) s = (refl, fun_ext λ j. lookup-erase k j s.proofs)
view-perform (Call.cleanup now) s = (
  refl,
  fun_ext λ j. lookup-garbage_collect (λ _. now) j s (is_expired now (lookup j s.proofs)) λ n. refl,
)

unconditional : (calls : List Call) → Every (λ _. Unit {0}) calls
unconditional [] = tt
unconditional (c ∷ calls) = (tt, unconditional calls)

-- Every sequence of saves, reads, deletions and cleanup cycles, at whatever readings of the clock
-- and from whatever store, answers as the contract does of the proofs that the store holds at
-- first, and ends in a store that holds what the contract leaves.
pub memory-respond_all :
    (calls : List Call) (s : MemoryStore)
    → ((perform_all memory collect calls s).0 ≡ (respond_all calls (view s)).0)
      × (view (perform_all memory collect calls s).1 ≡ (respond_all calls (view s)).1)
memory-respond_all calls s =
    simulates memory collect (λ _. Unit {0}) (λ t f. view t ≡ f)
      (λ c t f fit shows.
        subst
          (λ (g : Contents).
            ((perform memory collect c t).0 ≡ (respond c g).0)
            × (view (perform memory collect c t).1 ≡ (respond c g).1))
          shows (view-perform c t))
      calls s (view s) (unconditional calls) refl
