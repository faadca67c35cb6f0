-- ===== src/Storage/Sqlite/Schema.antt =====
-- How `SQLiteProofStore` sets its schema up: `_ensure_schema` and `_open`, by any number of callers at
-- once. A caller may be suspended wherever the code awaits; the lines between are one step.
pub mod Once
use atp_python.Base.{
  ℕ, zero, suc, ◌+◌, ◌≤◌, ◌≡◌, refl, String, ◌==◌, Bool, true, false, Option, none, some, List, [],
  ◌∷◌, arith, if◌then◌else◌, Every,
}
use atp_python.Python.Exceptions.{Exception, Result, ok, raised}

-- `created` counts how often the statements that create the schema were run to their end.
pub record Setup : Type 0 where
  pub db_path : String
  pub schema_lock : Bool
  pub schema_ready : Bool
  pub created : ℕ

-- Where a caller stands: before the first test, before the lock, with the lock, at the statements, or
-- at its end.
pub data Caller : Type 0 where
  entering : Caller
  waiting : Caller
  locked : Caller
  creating : Caller
  returned : Caller
  failed : Exception → Caller

-- `__init__`: an empty path counts as none. `resolve` expands and resolves a path.
unfoldable pub init : (String → String) → Option String → String → Setup
init resolve db_path proof_db_path = record {
  db_path = resolve (elim db_path [
    | none ↦ proof_db_path
    | some path ↦ if path == "" then proof_db_path else path
  ]);
  schema_lock = false;
  schema_ready = false;
  created = 0;
}

-- One step of `_ensure_schema`. `statements` is how the connection and its statements end, when they
-- are run.
unfoldable pub advance : Result (Unit {0}) → Caller → Setup → Caller × Setup
advance statements entering s = if s.schema_ready then (returned, s) else (waiting, s)
advance statements waiting s =
    if s.schema_lock then (waiting, s) else (locked, record s { schema_lock = true })
advance statements locked s =
    if s.schema_ready then (returned, record s { schema_lock = false }) else (creating, s)
advance (ok _) creating s =
    (returned, record s { schema_lock = false; schema_ready = true; created = suc s.created })
advance (raised e) creating s = (failed e, record s { schema_lock = false })
advance statements returned s = (returned, s)
advance statements (failed e) s = (failed e, s)

-- One step of the caller at place `i`; a place that no caller has is passed over.
unfoldable pub step : ℕ → Result (Unit {0}) → List Caller → Setup → List Caller × Setup
step i statements [] s = ([], s)
step zero statements (c ∷ callers) s = let (d, t) = advance statements c s in (d ∷ callers, t)
step (suc i) statements (c ∷ callers) s =
    let (rest, t) = step i statements callers s in (c ∷ rest, t)

-- Any interleaving of the callers' steps
unfoldable pub interleave : List (ℕ × Result (Unit {0})) → List Caller → Setup → List Caller × Setup
interleave [] callers s = (callers, s)
interleave ((i, statements) ∷ schedule) callers s =
    let (next, t) = step i statements callers s in interleave schedule next t
