-- ===== src/Storage/Sqlite/Listing.antt =====
-- Which tasks `SQLiteProofStore.list` names, beside those whose proofs `get` returns.
use atp_python.Base.{
  ◌≡◌, refl, ap, ◌∙◌, String, eq_iff, arith, ltb, Bool, false, not, Option, none, some, List, [],
  ◌∷◌, if◌then◌else◌,
}
use atp_python.Base.Dict.{Dict, NodupKeys, contains, lookup}
use atp_python.Python.Exceptions.{ok, raised, atp_proof_expired_error}
use atp_python.Python.DateTime.{DateTime, isoformat}
use atp_python.Python.DateTime.Utc.{IsUtc, is_before-utc, str_leb-utc}
use atp_python.Python.Sorting.{str_leb}
use atp_python.Models.{StoredProof}
use atp_python.Storage.Contract.{retained_of_before}
use atp_python.Storage.Sqlite.{Codec, Row, SqliteStore, row_of, later_rows, list, get}
use atp_python.Storage.Sqlite.Reading.{IsReadable, get_row_of}

abbrev is_later : String → Option Row → Bool
is_later now none = false
is_later now (some row) = not (str_leb row.expires_at now)

contains-later_rows :
    (now k : String) (rows : Dict Row)
    → NodupKeys rows
    → contains k (later_rows now rows) ≡ is_later now (lookup k rows)
unfolding contains lookup
contains-later_rows now k [] h = refl
contains-later_rows now k ((j, row) ∷ rows) (fresh, h) =
    ground (arith, eq_iff j k, contains-later_rows now k rows h)

-- In a table with one row for a task, for the row of a proof whose texts read back as they were and
-- whose expiry is a time of UTC within the calendar, and a reading of such a clock: `list` names the
-- task exactly if the expiry is after the reading, and `get` returns the proof exactly if the expiry
-- is not before it, so that a proof which expires at the reading is returned and not listed.
pub list-get :
    (C : Codec) (k : String) (now : DateTime) (p : StoredProof) (s : SqliteStore)
    → NodupKeys s.table
    → lookup k s.table ≡ some (row_of C p)
    → IsReadable C p
    → IsUtc now
    → ((ids : List String) × (list now s ≡ (ok ids, s))
        × (contains k ids ≡ ltb now.micros p.expires_at.micros))
      × ((get C k now s).0 ≡ (
          if ltb p.expires_at.micros now.micros
          then raised atp_proof_expired_error
          else ok (some p)))
unfolding list
list-get C k now p s unique found readable at_now = (
  (
    later_rows (isoformat now) s.table,
    refl,
    contains-later_rows (isoformat now) k s.table unique
        ∙ ap (is_later (isoformat now)) found
        ∙ str_leb-utc now p.expires_at at_now readable.2,
  ),
  (get_row_of C k now p s found readable).0
      ∙ (retained_of_before p now (ok (ltb p.expires_at.micros now.micros))
          (is_before-utc p.expires_at now readable.2 at_now)).0,
)
