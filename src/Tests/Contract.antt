-- ===== src/Tests/Contract.antt =====
-- Both stores under sequences of calls, and the schema under interleavings, at concrete inputs.
use atp_python.Base.{
  ℕ, ◌≡◌, refl, ◌⊎◌, ltb, true, none, some, String, List, [], ◌∷◌, arith, if◌then◌else◌,
}
use atp_python.Base.Dict.{contains, lookup, lookup-nil}
use atp_python.Python.Exceptions.{Result, ok, raised, exception, atp_proof_expired_error}
use atp_python.Python.DateTime.{is_before}
use atp_python.Storage.Contract.{
  Call, save, get, delete, cleanup, nothing, respond, respond_all, perform_all,
}
use atp_python.Storage.Memory.{empty}
use atp_python.Storage.Memory.Interface.{memory}
use atp_python.Storage.Memory.Refinement.{view, collect, memory-respond_all}
use atp_python.Storage.Sqlite.{SqliteStore, list, row_of}
use atp_python.Storage.Sqlite
use atp_python.Storage.Sqlite.Listing.{list-get}
use atp_python.Storage.Sqlite.Refinement.{sqlite, clean, no_rows, sqlite-memory}
use atp_python.Storage.Sqlite.Schema.{
  Caller, Setup, entering, returned, failed, init, step, advance, interleave,
}
use atp_python.Storage.Sqlite.Schema.Once.{
  count, inside, through, alone, ensure_schema_once, ensure_schema_alone,
}
use atp_python.Tests.Fixtures.{at, noon, stored}
use atp_python.Tests.Sqlite.{codec, one_row}

-- The proof is served at noon, expired a second later, and gone after that.
abbrev calls : List Call
calls =
    save stored
    ∷ get "t" noon
    ∷ get "t" (at 43201000001)
    ∷ get "t" (at 43201000001)
    ∷ cleanup (at 43201000001)
    ∷ delete "t"
    ∷ []

contract_answers :
    (respond_all calls nothing).0
    ≡ ok none ∷ ok (some stored) ∷ raised atp_proof_expired_error ∷ ok none ∷ ok none ∷ ok none ∷ []
unfolding respond_all respond is_before
contract_answers = refl

memory-respond_all_example :
    ((perform_all memory collect calls empty).0 ≡ (respond_all calls (view empty)).0)
    × (view (perform_all memory collect calls empty).1 ≡ (respond_all calls (view empty)).1)
memory-respond_all_example = memory-respond_all calls empty

sqlite-memory_example :
    ((perform_all (sqlite codec) clean calls no_rows).0 ≡ (respond_all calls nothing).0)
    × ((perform_all (sqlite codec) clean calls no_rows).0
        ≡ (perform_all memory collect calls empty).0)
sqlite-memory_example =
    sqlite-memory codec calls
      ((refl, refl, (refl, omega arith)), (tt, (tt, (tt, ((refl, omega arith), (tt, tt))))))

one_row_found : lookup "t" one_row.table ≡ some (row_of codec stored)
unfolding lookup
one_row_found = refl

-- A proof that expires at the reading is returned and not listed.
list-get_example :
    ((ids : List String) × (list stored.expires_at one_row ≡ (ok ids, one_row))
      × (contains "t" ids ≡ ltb 43201000000 43201000000))
    × ((Sqlite.get codec "t" stored.expires_at one_row).0 ≡ (
        if ltb 43201000000 43201000000 then raised atp_proof_expired_error else ok (some stored)))
list-get_example =
    list-get codec "t" stored.expires_at stored one_row (lookup-nil "t", tt) one_row_found
      (refl, refl, (refl, omega arith)) (refl, omega arith)

-- The first of two callers fails at the statements, after the second has come to the lock; then the
-- second runs them.
abbrev schedule : List (ℕ × Result (Unit {0}))
schedule =
    (0, ok tt)
    ∷ (1, ok tt)
    ∷ (0, ok tt)
    ∷ (1, ok tt)
    ∷ (0, ok tt)
    ∷ (0, raised exception)
    ∷ (1, ok tt)
    ∷ (1, ok tt)
    ∷ (1, ok tt)
    ∷ []

abbrev callers : List Caller
callers = entering ∷ entering ∷ []

abbrev ended : List Caller × Setup
ended = interleave schedule callers (init (λ p. p) none "db")

ended_states : ended.0 ≡ failed exception ∷ returned ∷ []
unfolding interleave init step advance
ended_states = refl

ensure_schema_once_example :
    (ended.1.created ≡ (if ended.1.schema_ready then 1 else 0))
    × (count inside ended.0 ≡ (if ended.1.schema_lock then 1 else 0))
    × ((ended.1.created ≡ 1) ⊎ (count through ended.0 ≡ 0))
ensure_schema_once_example =
    ensure_schema_once schedule callers (λ p. p) none "db" (refl, (refl, tt))

nobody_inside : count inside ended.0 ≡ 0
unfolding interleave init step advance
nobody_inside = refl

ensure_schema_alone_example : alone (ok tt) ended.1 ≡ (
    if ended.1.schema_ready
    then (returned, ended.1)
    else (returned, record (ended.1) { schema_ready = true; created = 1 }))
ensure_schema_alone_example =
    ensure_schema_alone schedule callers (λ p. p) none "db" (ok tt) (refl, (refl, tt)) nobody_inside
