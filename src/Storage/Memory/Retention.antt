-- ===== src/Storage/Memory/Retention.antt =====
-- What `get` returns, and for how long.
use atp_python.Base.{
  ℕ, ◌+◌, ◌*◌, String, ◌≡◌, refl, ◌≢◌, true, false, Option, none, some, arith, ltb, eq_iff, eq_refl,
  if◌then◌else◌,
}
use atp_python.Base.Dict.{lookup, insert, erase, lookup-insert, lookup-erase}
use atp_python.Python.Exceptions.{ok, raised, is_a, atp_proof_expired_error}
use atp_python.Python.DateTime.{DateTime, is_before, add_seconds, second, utc}
use atp_python.Models.{StoredProof}
use atp_python.Storage.{key}
use atp_python.Storage.Contract.{retained, is_expired}
use atp_python.Storage.Memory.{MemoryStore, save, get}

-- The outcome of `get` is that of the proof that is stored: nothing, the proof, the expiry error,
-- or a storage error if the expiry cannot be compared.
pub get_outcome :
    (k : String) (now : DateTime) (s : MemoryStore)
    → (get k now s).0 ≡ retained now (lookup k s.proofs)
unfolding get is_a is_before
get_outcome k now s = ground arith

pub get_state :
    (k : String) (now : DateTime) (s : MemoryStore)
    → (get k now s).1
      ≡ (if is_expired now (lookup k s.proofs) then record s { proofs = erase k s.proofs } else s)
unfolding get is_a is_before
get_state k now s = ground arith

pub proofs-save :
    (p : StoredProof) (s : MemoryStore) → (save p s).1.proofs ≡ insert (key p) p s.proofs
unfolding save
proofs-save p s = ground arith

retained_until :
    (p : StoredProof) (m ttl t : ℕ)
    → add_seconds (record { micros = m; utcoffset = some utc }) ttl ≡ ok p.expires_at
    → retained (record { micros = t; utcoffset = some utc }) (some p)
      ≡ (if ltb (m + ttl * second) t then raised atp_proof_expired_error else ok (some p))
unfolding is_before add_seconds
retained_until p m ttl t e = ground arith

-- After `save` at UTC reading `m` with a time to live of `ttl` seconds, `get` of the proof's task
-- returns that proof at every UTC reading up to and including the last microsecond of the time to
-- live, and raises the expiry error at every later one.
pub get-save :
    (p : StoredProof) (m ttl t : ℕ) (s : MemoryStore)
    → add_seconds (record { micros = m; utcoffset = some utc }) ttl ≡ ok p.expires_at
    → (get (key p) (record { micros = t; utcoffset = some utc }) (save p s).1).0
      ≡ (if ltb (m + ttl * second) t then raised atp_proof_expired_error else ok (some p))
get-save p m ttl t s e =
    rw (get_outcome, proofs-save, lookup-insert, eq_refl) (retained_until p m ttl t e)

-- Saving a proof changes what `get` returns for no other task.
pub get-save_ne :
    (p : StoredProof) (k : String) (now : DateTime) (s : MemoryStore)
    → k ≢ key p
    → (get k now (save p s).1).0 ≡ (get k now s).0
get-save_ne p k now s h =
    simp (get_outcome, proofs-save, lookup-insert) (ground (arith, eq_iff (key p) k))

-- A proof that `get` returns is the one that is stored, its expiry is not before the reading, and
-- the store is as it was.
pub get_sound :
    (k : String) (now : DateTime) (s : MemoryStore) (p : StoredProof)
    → (get k now s).0 ≡ ok (some p)
    → (lookup k s.proofs ≡ some p) × (is_before p.expires_at now ≡ ok false) × ((get k now s).1 ≡ s)
unfolding get is_a
get_sound k now s p e = ground arith

expired_of_error :
    (now : DateTime) (o : Option StoredProof)
    → retained now o ≡ raised atp_proof_expired_error
    → is_expired now o ≡ true
expired_of_error now o e = ground arith

-- When `get` finds an expired proof it deletes it: at any later reading the task has no proof, and
-- what is stored for every other task is unchanged.
pub get_expired :
    (k : String) (now later : DateTime) (s : MemoryStore)
    → (get k now s).0 ≡ raised atp_proof_expired_error
    → ((get k later (get k now s).1).0 ≡ ok none)
      × ((j : String) → j ≢ k → lookup j (get k now s).1.proofs ≡ lookup j s.proofs)
get_expired k now later s e = (
  rw (get_outcome, get_state, expired, lookup-erase, eq_refl) refl,
  λ j h. rw (get_state, expired, lookup-erase) (ground (arith, eq_iff k j)),
)
  where
    expired : is_expired now (lookup k s.proofs) ≡ true
    expired = expired_of_error now (lookup k s.proofs) (rw get_outcome at e)
