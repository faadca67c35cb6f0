-- ===== src/Storage/Sqlite/Race.antt =====
-- `SQLiteProofStore.get` between its SELECT and its DELETE, where other tasks may run.
use atp_python.Base.{
  ◌≡◌, refl, ap, ◌∙◌, eq_refl, arith, String, true, Option, none, some, ◌||◌, if◌then◌else◌,
}
use atp_python.Base.Dict.{lookup, erase, lookup-insert, lookup-erase}
use atp_python.Python.Exceptions.{ok, raised, is_a, atp_proof_expired_error, atp_storage_error}
use atp_python.Python.Exec.{Exec, raise, try_except}
use atp_python.Python.DateTime.{DateTime, is_before}
use atp_python.Models.{StoredProof}
use atp_python.Storage.{key}
use atp_python.Storage.Sqlite.{
  Codec, Row, SqliteStore, save, get, delete, read_row, row_of, as_aware,
}
use atp_python.Storage.Sqlite.Expiry.{table-save}

-- The SELECT
abbrev pub select : String → SqliteStore → Option Row
select task_id s = lookup task_id s.table

module _ (C : Codec) where
  -- What `get` does with the row that the SELECT gave, in whatever state it is resumed.
  unfoldable pub resume : String → DateTime → Option Row → Exec SqliteStore (Option StoredProof)
  unfolding delete
  resume task_id now found = try_except (read_row C task_id now found) (λ e.
      if is_a e atp_proof_expired_error || is_a e atp_storage_error
      then raise e
      else raise atp_storage_error)

  -- `get` is its two parts, one after the other.
  get-resume :
      (task_id : String) (now : DateTime) (s : SqliteStore)
      → get C task_id now s ≡ resume task_id now (select task_id s) s
  unfolding get resume
  get-resume task_id now s = refl

  resume_expired :
      (task_id : String) (now expiry : DateTime) (row : Row) (s : SqliteStore)
      → C.fromisoformat row.expires_at ≡ ok expiry
      → is_before (as_aware expiry) now ≡ ok true
      → resume task_id now (some row) s
        ≡ (raised atp_proof_expired_error, record s { table = erase task_id s.table })
  unfolding resume is_a delete
  resume_expired task_id now expiry row s parsed compared = ground arith

  -- `get` is its SELECT followed by the rest. Where a row of the task has expired, if another task saves a new proof for it between the SELECT
  -- and the DELETE of a `get`, the `get` raises the expiry error and the new proof is gone. Had the
  -- `get` run to its end first, the table would have the new proof.
  pub get_race :
      (p : StoredProof) (now expiry : DateTime) (row : Row) (s : SqliteStore)
      → select (key p) s ≡ some row
      → C.fromisoformat row.expires_at ≡ ok expiry
      → is_before (as_aware expiry) now ≡ ok true
      → (get C (key p) now s ≡ resume (key p) now (select (key p) s) s)
        × ((resume (key p) now (select (key p) s) (save C p s).1).0
            ≡ raised atp_proof_expired_error)
        × (lookup (key p) (resume (key p) now (select (key p) s) (save C p s).1).1.table ≡ none)
        × (lookup (key p) (save C p (get C (key p) now s).1).1.table ≡ some (row_of C p))
  get_race p now expiry row s found parsed compared =
      let last = (save C p s).1 in
      let same : resume (key p) now (select (key p) s) last
          ≡ (raised atp_proof_expired_error, record last { table = erase (key p) last.table }) =
        ap (λ r. resume (key p) now r last) found
        ∙ resume_expired (key p) now expiry row last parsed compared in
      (
        get-resume (key p) now s,
        ap (λ x. x.0) same,
        ap (λ x. lookup (key p) x.1.table) same ∙ rw (lookup-erase, eq_refl (key p)) refl,
        rw (table-save C p (get C (key p) now s).1, lookup-insert, eq_refl (key p)) refl,
      )
