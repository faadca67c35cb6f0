-- ===== src/Storage/Sqlite/Reading.antt =====
-- What `SQLiteProofStore` makes of the row of a proof whose texts read back as they were and whose
-- expiry is a time of UTC, as those of the SDK's own tasks are.
use atp_python.Base.{
  ◌≡◌, refl, sym, ap, ◌∙◌, String, arith, Bool, true, false, not, Option, none, some, if◌then◌else◌,
}
use atp_python.Base.Dict.{lookup, erase}
use atp_python.Python.Exceptions.{
  Exception, Result, ok, raised, is_a, atp_proof_expired_error, atp_storage_error, type_error,
}
use atp_python.Python.DateTime.{DateTime, utc, is_before, isoformat}
use atp_python.Python.DateTime.Printed.{isoformat-is_before}
use atp_python.Python.DateTime.Utc.{IsUtc}
use atp_python.Python.Sorting.{str_leb}
use atp_python.Models.{StoredProof}
use atp_python.Storage.Contract.{retained, is_expired, is_expired_of_before, retained_of_before}
use atp_python.Storage.Sqlite.{Codec, Row, SqliteStore, row_of, gc_cycle, current_rows, as_aware}
use atp_python.Storage.Sqlite
use atp_python.Storage.Sqlite.Cleanup.{kept}
use atp_python.Storage.Sqlite.Expiry.{get_row, answer}

-- The reading finds the proof expired exactly if its row is deleted by a cleanup cycle.
pub kept-row_of :
    (C : Codec) (now : DateTime) (p : StoredProof)
    → IsUtc p.expires_at
    → IsUtc now
    → kept now (some (row_of C p)) ≡ (if is_expired now (some p) then none else some (row_of C p))
kept-row_of C now p (at_p, in_p) (at_now, in_now) =
    by_text (str_leb (isoformat now) (isoformat p.expires_at))
    ∙ ap (λ b. if b then none else some (row_of C p)) (sym expired)
  where
    expired : is_expired now (some p) ≡ not (str_leb (isoformat now) (isoformat p.expires_at))
    expired =
        is_expired_of_before p now (not (str_leb (isoformat now) (isoformat p.expires_at)))
          (isoformat-is_before utc p.expires_at now at_p at_now in_p in_now)

    by_text :
        (b : Bool)
        → (if b then some (row_of C p) else none) ≡ (if not b then none else some (row_of C p))
    by_text true = refl
    by_text false = refl

as_aware-utc : (d : DateTime) → d.utcoffset ≡ some utc → as_aware d ≡ d
as_aware-utc d h = ground arith

is_before_type_error : (d e : DateTime) (x : Exception) → is_before d e ≡ raised x → x ≡ type_error
unfolding is_before
is_before_type_error d e x h = ground arith

module _ (C : Codec) where
  -- The texts of the proof's row read back as they were, and its expiry is a time of UTC.
  abbrev pub IsReadable : StoredProof → Type 0
  IsReadable p =
      (C.fromisoformat (isoformat p.expires_at) ≡ ok p.expires_at)
      × (C.validate_json (C.dump_json p) ≡ ok p)
      × IsUtc p.expires_at

  get_uncompared :
      (k : String) (now : DateTime) (p : StoredProof) (s : SqliteStore)
      → lookup k s.table ≡ some (row_of C p)
      → C.fromisoformat (isoformat p.expires_at) ≡ ok p.expires_at
      → is_before (as_aware p.expires_at) now ≡ raised type_error
      → Sqlite.get C k now s ≡ (raised atp_storage_error, s)
  unfolding Sqlite.get is_a
  get_uncompared k now p s found parsed compared = rw (found, parsed, compared) refl

  -- How `get` ends for the row of a readable proof
  pub get_row_of :
      (k : String) (now : DateTime) (p : StoredProof) (s : SqliteStore)
      → lookup k s.table ≡ some (row_of C p)
      → IsReadable p
      → ((Sqlite.get C k now s).0 ≡ retained now (some p))
        × ((Sqlite.get C k now s).1.table
            ≡ (if is_expired now (some p) then erase k s.table else s.table))
  get_row_of k now p s found (parsed, valid, at_p) = by_result (is_before p.expires_at now) refl
    where
      aware : is_before (as_aware p.expires_at) now ≡ is_before p.expires_at now
      aware = ap (λ d. is_before d now) (as_aware-utc p.expires_at at_p.0)

      ends :
          (r : Result Bool) (x : Result (Option StoredProof) × SqliteStore)
          → is_before p.expires_at now ≡ r
          → Sqlite.get C k now s ≡ x
          → x.0 ≡ elim r [
            | ok b ↦ if b then raised atp_proof_expired_error else ok (some p)
            | raised e ↦ raised atp_storage_error
          ]
          → x.1.table
            ≡ (if elim r [ ok b ↦ b | raised e ↦ false ] then erase k s.table else s.table)
          → ((Sqlite.get C k now s).0 ≡ retained now (some p))
            × ((Sqlite.get C k now s).1.table
                ≡ (if is_expired now (some p) then erase k s.table else s.table))
      ends r x e same outcome table =
          let (kept_as, gone) = retained_of_before p now r e in
          (
            ap (λ y. y.0) same ∙ outcome ∙ sym kept_as,
            ap (λ y. y.1.table) same
                ∙ table
                ∙ sym (ap (λ b. if b then erase k s.table else s.table) gone),
          )

      found_row :
          (b : Bool) → is_before p.expires_at now ≡ ok b → Sqlite.get C k now s ≡ answer C k p s b
      found_row b e = get_row C k now p.expires_at (row_of C p) p b s found parsed valid (aware ∙ e)

      by_result :
          (r : Result Bool)
          → is_before p.expires_at now ≡ r
          → ((Sqlite.get C k now s).0 ≡ retained now (some p))
            × ((Sqlite.get C k now s).1.table
                ≡ (if is_expired now (some p) then erase k s.table else s.table))
      by_result (ok true) e = ends (ok true) (answer C k p s true) e (found_row true e) refl refl
      by_result (ok false) e =
          ends (ok false) (answer C k p s false) e (found_row false e) refl refl
      by_result (raised x) e =
          let compared : is_before (as_aware p.expires_at) now ≡ raised type_error =
            aware ∙ e ∙ ap raised (is_before_type_error p.expires_at now x e) in
          ends (raised x) (raised atp_storage_error, s) e
            (get_uncompared k now p s found parsed compared) refl refl

  pub get_absent :
      (k : String) (now : DateTime) (s : SqliteStore)
      → lookup k s.table ≡ none
      → Sqlite.get C k now s ≡ (ok none, s)
  unfolding Sqlite.get
  get_absent k now s found = rw found refl
