-- ===== src/Storage/Memory/Collection.antt =====
-- What a cleanup cycle of `garbage_collect` deletes.
use atp_python.Base.{
  ℕ, suc, String, ◌≡◌, refl, ◌∙◌, Bool, true, false, ◌&&◌, none, some, List, [], ◌∷◌, arith, ◌==◌,
  eq_iff, if◌then◌else◌, Bool-cases, Option-cases, inl, inr,
}
use atp_python.Base.Dict.{Dict, contains, lookup, keys, lookup-erase}
use atp_python.Python.DateTime.{DateTime}
use atp_python.Models.{StoredProof}
use atp_python.Storage.Contract.{is_expired}
use atp_python.Storage.Memory.{MemoryStore, get, sweep, garbage_collect}
use atp_python.Storage.Memory.Retention.{get_state}

contains-keys :
    (k : String) (d : Dict StoredProof) (p : StoredProof)
    → lookup k d ≡ some p
    → contains k (keys d) ≡ true
unfolding contains lookup keys
contains-keys k [] p h = cc
contains-keys k ((j, w) ∷ d) p h = ground (arith, contains-keys k d p)

lookup-get :
    (k j : String) (now : DateTime) (s : MemoryStore)
    → lookup k (get j now s).1.proofs
      ≡ (if j == k && is_expired now (lookup k s.proofs) then none else lookup k s.proofs)
lookup-get k j now s = rw get_state (elim (Bool-cases (is_expired now (lookup j s.proofs))) [
  | inl e ↦ rw (e, lookup-erase) (ground (arith, eq_iff j k))
  | inr e ↦ rw e (ground (arith, eq_iff j k))
])

module _ (clock : ℕ → DateTime) (k : String) where
  sweep-none :
      (i : ℕ) (ids : List String) (s : MemoryStore)
      → lookup k s.proofs ≡ none
      → lookup k (sweep clock i ids s).1.proofs ≡ none
  unfolding sweep
  sweep-none i [] s h = h
  sweep-none i (j ∷ ids) s h =
      sweep-none (suc i) ids (get j (clock i) s).1 (rw lookup-get (ground arith))

  sweep-kept :
      (i : ℕ) (ids : List String) (s : MemoryStore)
      → ((n : ℕ) → is_expired (clock n) (lookup k s.proofs) ≡ false)
      → lookup k (sweep clock i ids s).1.proofs ≡ lookup k s.proofs
  unfolding sweep
  sweep-kept i [] s h = refl
  sweep-kept i (j ∷ ids) s h =
      let same : lookup k (get j (clock i) s).1.proofs ≡ lookup k s.proofs =
        rw lookup-get (ground (arith, h i)) in
      sweep-kept (suc i) ids (get j (clock i) s).1 (λ n. rw same (h n)) ∙ same

  sweep-dropped :
      (i : ℕ) (ids : List String) (s : MemoryStore)
      → ((n : ℕ) → is_expired (clock n) (lookup k s.proofs) ≡ true)
      → contains k ids ≡ true
      → lookup k (sweep clock i ids s).1.proofs ≡ none
  unfolding sweep contains
  sweep-dropped i [] s h m = cc
  sweep-dropped i (j ∷ ids) s h m = elim (Bool-cases (j == k)) [
    | inl e ↦ sweep-none (suc i) ids (get j (clock i) s).1 (rw lookup-get (ground (arith, e, h i)))
    | inr e ↦
        let same : lookup k (get j (clock i) s).1.proofs ≡ lookup k s.proofs =
          rw lookup-get (ground (arith, e)) in
        sweep-dropped (suc i) ids (get j (clock i) s).1 (λ n. rw same (h n)) (ground (arith, e))
  ]

-- A cleanup cycle deletes a proof that is expired at every reading of the cycle, and keeps a proof
-- that is expired at none of them; what is stored for a task without a proof stays nothing.
pub lookup-garbage_collect :
    (clock : ℕ → DateTime) (k : String) (s : MemoryStore) (expired : Bool)
    → ((n : ℕ) → is_expired (clock n) (lookup k s.proofs) ≡ expired)
    → lookup k (garbage_collect clock s).1.proofs ≡ (if expired then none else lookup k s.proofs)
unfolding garbage_collect
lookup-garbage_collect clock k s false h = sweep-kept clock k 0 (keys s.proofs) s h
lookup-garbage_collect clock k s true h = elim (Option-cases (lookup k s.proofs)) [
  | inl e ↦ sweep-none clock k 0 (keys s.proofs) s e
  | inr (p, e) ↦ sweep-dropped clock k 0 (keys s.proofs) s h (contains-keys k s.proofs p e)
]
