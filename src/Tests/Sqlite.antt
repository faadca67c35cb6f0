-- ===== src/Tests/Sqlite.antt =====
-- `SQLiteProofStore`, at a concrete input.
use atp_python.Base.{◌∷◌, [], ◌≡◌, refl, true, false, none, some, inr, if◌then◌else◌}
use atp_python.Base.Dict.{lookup}
use atp_python.Python.Exceptions.{
  ok, raised, is_a, exception, atp_storage_error, atp_proof_expired_error,
}
use atp_python.Python.DateTime.{is_before}
use atp_python.Storage.Memory.{absent}
use atp_python.Storage.Sqlite.{delete, list, Codec, SqliteStore, save, get, row_of}
use atp_python.Storage.Sqlite.Expiry.{sqlite-get-save}
use atp_python.Storage.Sqlite.Faults.{
  Database, sound, save_on, get_on, delete_on, list_on, IsFaulty, get_on-undeleted,
}
use atp_python.Storage.Sqlite.Race.{select, resume, get_race}
use atp_python.Tests.Fixtures.{at, noon, stored}

abbrev pub codec : Codec
codec = record {
  dump_json = λ p. "proof";
  validate_json = λ s. ok stored;
  fromisoformat = λ s. ok stored.expires_at;
}

abbrev no_rows : SqliteStore
no_rows = record { table = []; gc_task = absent }

compared : is_before stored.expires_at noon ≡ ok false
unfolding is_before
compared = refl

sqlite-get-save_example :
    ((get codec "t" noon (save codec stored no_rows).1).0
      ≡ (if false then raised atp_proof_expired_error else ok (some stored)))
    × (lookup "t" (get codec "t" noon (save codec stored no_rows).1).1.table
        ≡ (if false then none else some (row_of codec stored)))
sqlite-get-save_example = sqlite-get-save codec stored noon false no_rows refl refl compared

abbrev pub one_row : SqliteStore
one_row = record { table = ("t", row_of codec stored) ∷ []; gc_task = absent }

late : is_before stored.expires_at (at 43201000001) ≡ ok true
unfolding is_before
late = refl

selected : select "t" one_row ≡ some (row_of codec stored)
unfolding lookup
selected = refl

get_race_example :
    (get codec "t" (at 43201000001) one_row
      ≡ resume codec "t" (at 43201000001) (select "t" one_row) one_row)
    × ((resume codec "t" (at 43201000001) (select "t" one_row) (save codec stored one_row).1).0
        ≡ raised atp_proof_expired_error)
    × (lookup "t"
          (resume codec "t"
            (at 43201000001)
            (select "t" one_row)
            (save codec stored one_row).1).1.table
        ≡ none)
    × (lookup "t" (save codec stored (get codec "t" (at 43201000001) one_row).1).1.table
        ≡ some (row_of codec stored))
get_race_example =
    get_race codec stored (at 43201000001) stored.expires_at (row_of codec stored) one_row selected
      refl late

-- A database whose statements fail
abbrev locked : Database
locked = record { opened = ok tt; executed = raised exception }

locked-IsFaulty : IsFaulty locked
unfolding IsFaulty is_a
locked-IsFaulty = (exception, refl, refl, inr (refl, refl))

get_on-undeleted_example :
    ((save_on codec sound stored one_row ≡ save codec stored one_row)
      × (get_on codec sound sound "t" (at 43201000001) one_row
          ≡ get codec "t" (at 43201000001) one_row)
      × (delete_on sound "t" one_row ≡ delete "t" one_row)
      × (list_on sound (at 43201000001) one_row ≡ list (at 43201000001) one_row))
    × (get_on codec sound locked "t" (at 43201000001) one_row ≡ (raised atp_storage_error, one_row))
get_on-undeleted_example =
    get_on-undeleted codec locked stored "t" (at 43201000001) stored.expires_at
      (row_of codec stored) one_row locked-IsFaulty selected refl late
