-- ===== src/Storage/Contract.antt =====
-- What `ProofStore` promises, without a representation: a proof for each task, changed by calls.
use atp_python.Base.{
  String, ◌==◌, ◌≡◌, refl, ap₂, Bool, false, Option, none, some, List, [], ◌∷◌, Every, arith,
  if◌then◌else◌,
}
use atp_python.Python.Exceptions.{Result, ok, raised, atp_proof_expired_error, atp_storage_error}
use atp_python.Python.Exec.{pure, ◌>>◌}
use atp_python.Python.DateTime.{DateTime, is_before}
use atp_python.Models.{StoredProof}
use atp_python.Storage.{ProofStore, key}

-- What a store that holds `o` for a task answers at the reading.
abbrev pub retained : DateTime → Option StoredProof → Result (Option StoredProof)
retained now none = ok none
retained now (some p) = elim (is_before p.expires_at now) [
  | ok b ↦ if b then raised atp_proof_expired_error else ok (some p)
  | raised e ↦ raised atp_storage_error
]

abbrev pub is_expired : DateTime → Option StoredProof → Bool
is_expired now none = false
is_expired now (some p) = elim (is_before p.expires_at now) [ ok b ↦ b | raised e ↦ false ]

pub is_expired_of_before :
    (p : StoredProof) (now : DateTime) (b : Bool)
    → is_before p.expires_at now ≡ ok b
    → is_expired now (some p) ≡ b
is_expired_of_before p now b h = ground arith

pub retained_of_before :
    (p : StoredProof) (now : DateTime) (r : Result Bool)
    → is_before p.expires_at now ≡ r
    → (retained now (some p) ≡ elim r [
      | ok b ↦ if b then raised atp_proof_expired_error else ok (some p)
      | raised e ↦ raised atp_storage_error
    ])
      × (is_expired now (some p) ≡ elim r [ ok b ↦ b | raised e ↦ false ])
retained_of_before p now (ok b) h = ground arith
retained_of_before p now (raised e) h = ground arith

abbrev pub Contents : Type 0
Contents = String → Option StoredProof

abbrev pub nothing : Contents
nothing k = none

abbrev pub update : String → Option StoredProof → Contents → Contents
update k o f j = if k == j then o else f j

-- The calls of a store, with the readings of the clock. The last is a cycle of its cleanup task.
pub data Call : Type 0 where
  save : StoredProof → Call
  get : String → DateTime → Call
  delete : String → Call
  cleanup : DateTime → Call

abbrev pub Answer : Type 0
Answer = Result (Option StoredProof)

-- What a call answers, and what it leaves.
unfoldable pub respond : Call → Contents → Answer × Contents
respond (save p) f = (ok none, update (key p) (some p) f)
respond (get k now) f = (retained now (f k), if is_expired now (f k) then update k none f else f)
respond (delete k) f = (ok none, update k none f)
respond (cleanup now) f = (ok none, λ j. if is_expired now (f j) then none else f j)

unfoldable pub respond_all : List Call → Contents → List Answer × Contents
respond_all [] f = ([], f)
respond_all (c ∷ calls) f =
    let (answer, g) = respond c f in let (answers, h) = respond_all calls g in (answer ∷ answers, h)

-- The same calls on a store.
module _ (P : ProofStore) (clean : DateTime → P.State → P.State) where
  unfoldable pub perform : Call → P.State → Answer × P.State
  perform (save p) s = (do P.save p; pure none) s
  perform (get k now) s = P.get k now s
  perform (delete k) s = (do P.delete k; pure none) s
  perform (cleanup now) s = (ok none, clean now s)

  unfoldable pub perform_all : List Call → P.State → List Answer × P.State
  perform_all [] s = ([], s)
  perform_all (c ∷ calls) s =
      let (answer, t) = perform c s in
      let (answers, u) = perform_all calls t in (answer ∷ answers, u)

  -- Where every call answers like its description, so does every sequence of calls.
  module _ (Fits : Call → Type 0) (Shows : P.State → Contents → Type 0)
      (step : (c : Call) (s : P.State) (f : Contents)
        → Fits c
        → Shows s f
        → ((perform c s).0 ≡ (respond c f).0) × Shows (perform c s).1 (respond c f).1) where
    pub simulates :
        (calls : List Call) (s : P.State) (f : Contents)
        → Every Fits calls
        → Shows s f
        → ((perform_all calls s).0 ≡ (respond_all calls f).0)
          × Shows (perform_all calls s).1 (respond_all calls f).1
    unfolding perform_all respond_all
    simulates [] s f fits shows = (refl, shows)
    simulates (c ∷ calls) s f (fit, fits) shows =
        let (same, next) = step c s f fit shows in
        let (rest, last) = simulates calls (perform c s).1 (respond c f).1 fits next in
        (ap₂ (λ (a : Answer) (l : List Answer). a ∷ l) same rest, last)
