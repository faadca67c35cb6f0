-- ===== src/Storage/Sqlite/Faults.antt =====
-- `SQLiteProofStore` over a database that may fail. A connection that cannot be opened raises outside
-- the `try` of a method.
use atp_python.Base.{
  ◌≡◌, refl, ◌∙◌, String, true, false, Option, none, some, List, ◌||◌, ◌⊎◌, inl, inr, if◌then◌else◌,
}
use atp_python.Base.Dict
use atp_python.Base.Dict.{lookup}
use atp_python.Python.Exceptions.{
  Exception, Result, ok, raised, is_a, atp_proof_expired_error, atp_storage_error,
}
use atp_python.Python.Exec.{Exec, pure, raise, lift, gets, modify, try_except, ◌>>=◌, ◌>>◌}
use atp_python.Python.DateTime.{DateTime, is_before}
use atp_python.Models.{StoredProof}
use atp_python.Storage.{key}
use atp_python.Storage.Sqlite.{
  Codec, Row, SqliteStore, ensure_gc, update_table, save, get, delete, list, row_of, as_aware,
}

-- How one use of the database ends: opening the connection, and executing the statement.
pub record Database : Type 0 where
  pub opened : Result (Unit {0})
  pub executed : Result (Unit {0})

abbrev pub sound : Database
sound = record { opened = ok tt; executed = ok tt }

-- A method's statement, and what follows it within the `try`
abbrev pub statement {ℓ} : {A : Type ℓ} → Database → Exec SqliteStore A → Exec SqliteStore A
statement D work = do
  lift D.opened
  try_except (do lift D.executed; work) (λ e. raise atp_storage_error)

-- Opening the connection or executing the statement raises, and not an error of the store's own.
unfoldable pub IsFaulty : Database → Type 0
IsFaulty E =
    (e : Exception) × (is_a e atp_proof_expired_error ≡ false)
    × (is_a e atp_storage_error ≡ false)
    × ((E.opened ≡ raised e) ⊎ ((E.opened ≡ ok tt) × (E.executed ≡ raised e)))

unfoldable pub delete_on : Database → String → Exec SqliteStore (Unit {0})
unfolding delete
delete_on D task_id = statement D (delete task_id)

unfoldable pub list_on : Database → DateTime → Exec SqliteStore (List String)
unfolding list
list_on D now = statement D (list now)

module _ (C : Codec) where
  unfoldable pub save_on : Database → StoredProof → Exec SqliteStore (Unit {0})
  save_on D proof = do
    modify ensure_gc
    statement D (update_table (Dict.insert (key proof) (row_of C proof)))

  -- The row that the SELECT gave; `E` is the database that the DELETE meets.
  abbrev pub read_row_on :
      Database → String → DateTime → Option Row → Exec SqliteStore (Option StoredProof)
  read_row_on E task_id now none = pure none
  read_row_on E task_id now (some row) = do
    expires_at ← lift (C.fromisoformat row.expires_at)
    expired ← lift (is_before (as_aware expires_at) now)
    if expired
        then (do delete_on E task_id; raise atp_proof_expired_error)
        else (do proof ← lift (C.validate_json row.proof_json); pure (some proof))

  unfoldable pub get_on :
      Database → Database → String → DateTime → Exec SqliteStore (Option StoredProof)
  unfolding delete_on
  get_on D E task_id now = do
    lift D.opened
    try_except
        (do
          lift D.executed
          found ← gets (λ s. lookup task_id s.table)
          read_row_on E task_id now found)
        (λ e.
          if is_a e atp_proof_expired_error || is_a e atp_storage_error
          then raise e
          else raise atp_storage_error)

  -- Over a database that answers, the methods are those of the store.
  on-sound :
      (p : StoredProof) (task_id : String) (now : DateTime) (s : SqliteStore)
      → (save_on sound p s ≡ save C p s)
        × (get_on sound sound task_id now s ≡ get C task_id now s)
        × (delete_on sound task_id s ≡ delete task_id s)
        × (list_on sound now s ≡ list now s)
  unfolding save_on save get_on get delete_on delete list_on list
  on-sound p task_id now s = (refl, refl, refl, refl)

  -- The `except` clauses of `get`
  abbrev translated : Exception → Exec SqliteStore (Option StoredProof)
  translated e =
      if is_a e atp_proof_expired_error || is_a e atp_storage_error
      then raise e
      else raise atp_storage_error

  get_on-expired :
      (E : Database) (task_id : String) (now expiry : DateTime) (row : Row) (s : SqliteStore)
      → lookup task_id s.table ≡ some row
      → C.fromisoformat row.expires_at ≡ ok expiry
      → is_before (as_aware expiry) now ≡ ok true
      → get_on sound E task_id now s
        ≡ try_except (delete_on E task_id >> raise atp_proof_expired_error) translated s
  unfolding get_on
  get_on-expired E task_id now expiry row s found parsed compared =
      rw (found, parsed, compared) refl

  translated-opened :
      (e : Exception) (s : SqliteStore)
      → is_a e atp_proof_expired_error ≡ false
      → is_a e atp_storage_error ≡ false
      → translated e s ≡ (raised atp_storage_error, s)
  translated-opened e s h g = rw (h, g) refl

  undeleted :
      (E : Database) (task_id : String) (s : SqliteStore)
      → IsFaulty E
      → try_except (delete_on E task_id >> raise atp_proof_expired_error) translated s
        ≡ (raised atp_storage_error, s)
  unfolding IsFaulty delete_on is_a
  undeleted E task_id s (e, other, other', inl opened) =
      rw opened (translated-opened e s other other')
  undeleted E task_id s (e, other, other', inr (opened, executed)) = rw (opened, executed) refl

  -- Over a database that answers, the four methods are those that the other theorems are about. When
  -- the row of an expired proof is found but cannot be deleted, `get` raises the storage error in
  -- place of the expiry error, and the row stays.
  pub get_on-undeleted :
      (E : Database) (p : StoredProof) (task_id : String) (now expiry : DateTime) (row : Row)
      (s : SqliteStore)
      → IsFaulty E
      → lookup task_id s.table ≡ some row
      → C.fromisoformat row.expires_at ≡ ok expiry
      → is_before (as_aware expiry) now ≡ ok true
      → ((save_on sound p s ≡ save C p s)
          × (get_on sound sound task_id now s ≡ get C task_id now s)
          × (delete_on sound task_id s ≡ delete task_id s)
          × (list_on sound now s ≡ list now s))
        × (get_on sound E task_id now s ≡ (raised atp_storage_error, s))
  get_on-undeleted E p task_id now expiry row s faulty found parsed compared = (
    on-sound p task_id now s,
    get_on-expired E task_id now expiry row s found parsed compared ∙ undeleted E task_id s faulty,
  )
