-- ===== src/Tests/Store.antt =====
-- The store, at concrete inputs.
use atp_python.Base.{◌+◌, ◌*◌, ◌≡◌, refl, true, false, none, some, ltb, if◌then◌else◌}
use atp_python.Base.Dict.{lookup, insert}
use atp_python.Python.Exceptions.{ok, raised, is_a, atp_proof_expired_error}
use atp_python.Python.DateTime.{add_seconds, is_before}
use atp_python.Storage.Memory.{save, get, garbage_collect, empty}
use atp_python.Storage.Contract.{is_expired}
use atp_python.Storage.Memory.Retention.{get-save}
use atp_python.Storage.Memory.Collection.{lookup-garbage_collect}
use atp_python.Tests.Fixtures.{at, noon, stored, store}

expiry : add_seconds noon 1 ≡ ok stored.expires_at
unfolding add_seconds
expiry = refl

get-save_example : (get "t" (at 43200000001) (save stored empty).1).0 ≡ (
    if ltb (43200000000 + 1 * 1000000) 43200000001
    then raised atp_proof_expired_error
    else ok (some stored))
get-save_example = get-save stored 43200000000 1 43200000001 empty expiry

served : (get "t" noon store).0 ≡ ok (some stored)
unfolding get is_before lookup insert save is_a
served = refl

expired : (get "t" (at 43201000001) store).0 ≡ raised atp_proof_expired_error
unfolding get is_before lookup insert save is_a
expired = refl

late : is_expired (at 43201000001) (lookup "t" store.proofs) ≡ true
unfolding is_before lookup save insert
late = refl

lookup-garbage_collect_example :
    lookup "t" (garbage_collect (λ _. at 43201000001) store).1.proofs
    ≡ (if true then none else lookup "t" store.proofs)
lookup-garbage_collect_example =
    lookup-garbage_collect (λ _. at 43201000001) "t" store true λ n. late

saved_run : (save stored empty).0 ≡ ok tt
unfolding save
saved_run = refl

fresh : is_before stored.expires_at noon ≡ ok false
unfolding is_before
fresh = refl
