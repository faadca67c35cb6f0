-- ===== src/Storage/Sqlite/Expiry.antt =====
-- What `SQLiteProofStore.get` returns of a proof that was saved.
use atp_python.Base.{
  ◌≡◌, refl, ap, ◌∙◌, arith, eq_refl, Bool, true, false, Option, none, some, if◌then◌else◌, String,
}
use atp_python.Base.Dict.{lookup, insert, erase, lookup-insert, lookup-erase}
use atp_python.Python.Exceptions.{Result, ok, raised, is_a, atp_proof_expired_error}
use atp_python.Python.DateTime.{DateTime, is_before, isoformat}
use atp_python.Models.{StoredProof}
use atp_python.Storage.{key}
use atp_python.Storage.Sqlite.{Codec, Row, SqliteStore, save, get, row_of, as_aware}

module _ (C : Codec) where
  pub table-save :
      (p : StoredProof) (s : SqliteStore)
      → (save C p s).1.table ≡ insert (key p) (row_of C p) s.table
  unfolding save
  table-save p s = ground arith

  abbrev pub answer :
      String → StoredProof → SqliteStore → Bool → Result (Option StoredProof) × SqliteStore
  answer k p s true = (raised atp_proof_expired_error, record s { table = erase k s.table })
  answer k p s false = (ok (some p), s)

  pub get_row :
      (k : String) (now expiry : DateTime) (row : Row) (p : StoredProof) (expired : Bool)
      (s : SqliteStore)
      → lookup k s.table ≡ some row
      → C.fromisoformat row.expires_at ≡ ok expiry
      → C.validate_json row.proof_json ≡ ok p
      → is_before (as_aware expiry) now ≡ ok expired
      → get C k now s ≡ answer k p s expired
  unfolding get is_a
  get_row k now expiry row p expired s found parsed valid compared = ground arith

  answer_outcome :
      (k : String) (p : StoredProof) (row : Row) (s : SqliteStore) (expired : Bool)
      → lookup k s.table ≡ some row
      → ((answer k p s expired).0
          ≡ (if expired then raised atp_proof_expired_error else ok (some p)))
        × (lookup k (answer k p s expired).1.table ≡ (if expired then none else some row))
  answer_outcome k p row s true found = (refl, rw (lookup-erase, eq_refl k) refl)
  answer_outcome k p row s false found = (refl, found)

  -- A saved proof whose texts read back as they were is returned at every reading that its expiry,
  -- taken as UTC if it is naive, is not before; at every other one the expiry error is raised and
  -- the row is deleted.
  pub sqlite-get-save :
      (p : StoredProof) (now : DateTime) (expired : Bool) (s : SqliteStore)
      → C.fromisoformat (isoformat p.expires_at) ≡ ok p.expires_at
      → C.validate_json (C.dump_json p) ≡ ok p
      → is_before (as_aware p.expires_at) now ≡ ok expired
      → ((get C (key p) now (save C p s).1).0
          ≡ (if expired then raised atp_proof_expired_error else ok (some p)))
        × (lookup (key p) (get C (key p) now (save C p s).1).1.table
            ≡ (if expired then none else some (row_of C p)))
  sqlite-get-save p now expired s parsed valid compared =
      let after : SqliteStore = (save C p s).1 in
      let found : lookup (key p) after.table ≡ some (row_of C p) =
        rw (table-save, lookup-insert, eq_refl (key p)) refl in
      let same =
        get_row (key p) now p.expires_at (row_of C p) p expired after found parsed valid compared in
      let (outcome, kept) = answer_outcome (key p) p (row_of C p) after expired found in
      (ap (λ x. x.0) same ∙ outcome, ap (λ x. lookup (key p) x.1.table) same ∙ kept)
