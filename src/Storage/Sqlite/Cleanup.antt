-- ===== src/Storage/Sqlite/Cleanup.antt =====
-- What one cleanup cycle of `SQLiteProofStore` keeps.
use atp_python.Base.{
  ◌≡◌, refl, ap, ◌∙◌, Bool, true, false, arith, eq_iff, String, Option, none, some, [], ◌∷◌,
  if◌then◌else◌,
}
use atp_python.Base.Dict.{Dict, NodupKeys, lookup}
use atp_python.Python.Sorting.{str_leb}
use atp_python.Python.DateTime.{DateTime, isoformat}
use atp_python.Storage.Sqlite.{Row, SqliteStore, gc_cycle, current_rows}

-- A row stays if its expiry is not an earlier text than the reading's.
abbrev pub kept : DateTime → Option Row → Option Row
kept now none = none
kept now (some row) = if str_leb (isoformat now) row.expires_at then some row else none

lookup-current_rows :
    (now : DateTime) (k : String) (rows : Dict Row)
    → NodupKeys rows
    → lookup k (current_rows (isoformat now) rows) ≡ kept now (lookup k rows)
unfolding lookup
lookup-current_rows now k [] h = refl
lookup-current_rows now k ((j, row) ∷ rows) (fresh, h) =
    ground (arith, eq_iff j k, lookup-current_rows now k rows h)

pub current_rows-NodupKeys :
    (now : DateTime) (rows : Dict Row)
    → NodupKeys rows
    → NodupKeys (current_rows (isoformat now) rows)
current_rows-NodupKeys now [] h = tt
current_rows-NodupKeys now ((j, row) ∷ rows) (fresh, h) =
    row_NodupKeys (str_leb (isoformat now) row.expires_at)
      (lookup-current_rows now j rows h ∙ ap (kept now) fresh) (current_rows-NodupKeys now rows h)
  where
    row_NodupKeys :
        (b : Bool)
        → lookup j (current_rows (isoformat now) rows) ≡ none
        → NodupKeys (current_rows (isoformat now) rows)
        → NodupKeys
            (let rest = current_rows (isoformat now) rows in if b then (j, row) ∷ rest else rest)
    row_NodupKeys true absent rest = (absent, rest)
    row_NodupKeys false absent rest = rest

-- In a table with one row for a task, a cleanup cycle keeps the row of every task whose printed
-- expiry is not an earlier text than the printed reading, and deletes every other.
pub lookup-gc_cycle :
    (now : DateTime) (k : String) (s : SqliteStore)
    → NodupKeys s.table
    → lookup k (gc_cycle now s).1.table ≡ kept now (lookup k s.table)
unfolding gc_cycle
lookup-gc_cycle now k s h = lookup-current_rows now k s.table h
