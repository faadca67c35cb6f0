-- ===== src/Storage/Sqlite.antt =====
-- `SQLiteProofStore` of atp/core/storage.py, where the database answers every statement. A row holds
-- texts; pydantic's dump and the parsers are a parameter. The order in which SQLite lists rows is not
-- modelled: it is that of the table.
pub mod Expiry
pub mod Cleanup
pub mod Race
pub mod Faults
pub mod Reading
pub mod Refinement
pub mod Listing
pub mod Schema
use atp_python.Base.{
  String, Bool, true, false, Option, none, some, List, [], ◌∷◌, not, ◌||◌, if◌then◌else◌,
}
use atp_python.Base.Dict
use atp_python.Base.Dict.{Dict}
use atp_python.Python.Exceptions.{Result, is_a, atp_storage_error, atp_proof_expired_error}
use atp_python.Python.Exec.{Exec, pure, raise, lift, gets, modify, try_except, ◌>>=◌, ◌>>◌}
use atp_python.Python.DateTime.{DateTime, utc, is_before, isoformat}
use atp_python.Python.Sorting.{str_leb}
use atp_python.Models.{StoredProof}
use atp_python.Storage.{ProofStore, key}
use atp_python.Storage.Memory.{GcTask, absent, running, done}

pub record Codec : Type 0 where
  pub dump_json : StoredProof → String
  pub validate_json : String → Result StoredProof
  pub fromisoformat : String → Result DateTime

pub record Row : Type 0 where
  pub proof_json : String
  pub expires_at : String

pub record SqliteStore : Type 0 where
  pub table : Dict Row
  pub gc_task : GcTask

-- `_ensure_gc`, within a running event loop
abbrev ensure_gc : SqliteStore → SqliteStore
ensure_gc s = elim s.gc_task [
  | running ↦ s
  | absent ↦ record s { gc_task = running }
  | done ↦ record s { gc_task = running }
]

abbrev update_table : (Dict Row → Dict Row) → Exec SqliteStore (Unit {0})
update_table f = modify (λ s. record s { table = f s.table })

-- `DELETE FROM atp_proofs WHERE task_id = ?`
unfoldable pub delete : String → Exec SqliteStore (Unit {0})
delete task_id = update_table (Dict.erase task_id)

-- The task ids of the rows whose expiry is a later text than the reading's.
abbrev later_rows : String → Dict Row → List String
later_rows now [] = []
later_rows now ((task_id, row) ∷ rows) =
    let rest = later_rows now rows in
    if not (str_leb row.expires_at now) then task_id ∷ rest else rest

unfoldable pub list : DateTime → Exec SqliteStore (List String)
list now = gets (λ s. later_rows (isoformat now) s.table)

-- The rows whose expiry is no earlier text than the reading's.
abbrev pub current_rows : String → Dict Row → Dict Row
current_rows now [] = []
current_rows now ((task_id, row) ∷ rows) =
    let rest = current_rows now rows in
    if str_leb now row.expires_at then (task_id, row) ∷ rest else rest

-- One cycle of `_gc_loop`
unfoldable pub gc_cycle : DateTime → Exec SqliteStore (Unit {0})
gc_cycle now = update_table (current_rows (isoformat now))

unfoldable pub stop : SqliteStore → SqliteStore
stop s = elim s.gc_task [ absent ↦ s | running ↦ record s { gc_task = done } | done ↦ s ]

-- A naive reading counts as one of UTC.
abbrev pub as_aware : DateTime → DateTime
as_aware d = elim d.utcoffset [ none ↦ record d { utcoffset = some utc } | some x ↦ d ]

module _ (C : Codec) where
  abbrev pub row_of : StoredProof → Row
  row_of proof = record { proof_json = C.dump_json proof; expires_at = isoformat proof.expires_at }

  -- `INSERT OR REPLACE`
  unfoldable pub save : StoredProof → Exec SqliteStore (Unit {0})
  save proof = do modify ensure_gc; update_table (Dict.insert (key proof) (row_of proof))

  abbrev pub read_row : String → DateTime → Option Row → Exec SqliteStore (Option StoredProof)
  read_row task_id now none = pure none
  read_row task_id now (some row) = do
    expires_at ← lift (C.fromisoformat row.expires_at)
    expired ← lift (is_before (as_aware expires_at) now)
    if expired
        then (do delete task_id; raise atp_proof_expired_error)
        else (do proof ← lift (C.validate_json row.proof_json); pure (some proof))

  -- The expiry error and storage errors go through; any other error becomes a storage error.
  unfoldable pub get : String → DateTime → Exec SqliteStore (Option StoredProof)
  unfolding delete
  get task_id now =
      try_except (do found ← gets (λ s. Dict.lookup task_id s.table); read_row task_id now found)
        (λ e.
          if is_a e atp_proof_expired_error || is_a e atp_storage_error
          then raise e
          else raise atp_storage_error)
