-- ===== src/Storage/Sqlite/Schema/Once.antt =====
-- The schema of `SQLiteProofStore` under any interleaving of callers: the lock and the second test.
use atp_python.Base.{
  ℕ, zero, suc, ◌+◌, ◌≤◌, ◌≡◌, refl, ap, sym, ◌∙◌, ◌⊎◌, inl, inr, Bool-cases, String, Bool, true,
  false, Option, List, [], ◌∷◌, arith, if◌then◌else◌, Every,
}
use atp_python.Python.Exceptions.{Result, ok, raised}
use atp_python.Storage.Sqlite.Schema.{
  Setup, Caller, entering, waiting, locked, creating, returned, failed, init, advance, step,
  interleave,
}

abbrev pub inside : Caller → ℕ
inside locked = 1
inside creating = 1
inside _ = 0

abbrev at_statements : Caller → ℕ
at_statements creating = 1
at_statements _ = 0

abbrev pub through : Caller → ℕ
through returned = 1
through _ = 0

-- How many callers are so
abbrev pub count : (Caller → ℕ) → List Caller → ℕ
count f [] = 0
count f (c ∷ callers) = f c + count f callers

-- With `i` callers inside the lock, `c` of them at the statements, and `d` that returned
record IsSound (i c d : ℕ) (s : Setup) : Type 0 where
  one : i ≡ (if s.schema_lock then 1 else 0)
  within : c ≤ i
  idle : c ≤ (if s.schema_ready then 0 else 1)
  once : s.created ≡ (if s.schema_ready then 1 else 0)
  early : (if s.schema_ready then 0 else d) ≡ 0

advance-IsSound :
    (i c d : ℕ) (statements : Result (Unit {0})) (caller : Caller) (s : Setup)
    → c ≤ i
    → IsSound (i + inside caller) (c + at_statements caller) (d + through caller) s
    → IsSound
        (i + inside (advance statements caller s).0)
        (c + at_statements (advance statements caller s).0)
        (d + through (advance statements caller s).0)
        (advance statements caller s).1
unfolding advance
advance-IsSound i c d statements entering s le h = ground arith
advance-IsSound i c d statements waiting s le h = ground arith
advance-IsSound i c d statements locked s le h = ground arith
advance-IsSound i c d (ok x) creating s le h = ground arith
advance-IsSound i c d (raised e) creating s le h = ground arith
advance-IsSound i c d statements returned s le h = h
advance-IsSound i c d statements (failed e) s le h = h

-- Equal counts are as good.
recount :
    {i c d i' c' d' : ℕ} {s : Setup}
    → i ≡ i'
    → c ≡ c'
    → d ≡ d'
    → IsSound i c d s
    → IsSound i' c' d' s
recount p q r h = ground arith

at_statements-inside : (x : Caller) → at_statements x ≤ inside x
at_statements-inside creating = omega arith
at_statements-inside _ = omega arith

at_statements-le-inside :
    (callers : List Caller) → count at_statements callers ≤ count inside callers
at_statements-le-inside [] = omega arith
at_statements-le-inside (c ∷ callers) = ground (arith, at_statements-le-inside callers)

abbrev Sound : ℕ → ℕ → ℕ → List Caller → Setup → Type 0
Sound i c d callers s =
    IsSound (i + count inside callers) (c + count at_statements callers) (d + count through callers)
      s

step-IsSound :
    (i c d k : ℕ) (statements : Result (Unit {0})) (callers : List Caller) (s : Setup)
    → c ≤ i
    → Sound i c d callers s
    → Sound i c d (step k statements callers s).0 (step k statements callers s).1
unfolding step
step-IsSound i c d k statements [] s le h = h
step-IsSound i c d zero statements (x ∷ callers) s le h =
    recount (omega arith) (omega arith) (omega arith) (
      advance-IsSound (i + count inside callers) (c + count at_statements callers)
        (d + count through callers) statements x s (omega (arith, at_statements-le-inside callers))
        (recount (omega arith) (omega arith) (omega arith) h))
step-IsSound i c d (suc k) statements (x ∷ callers) s le h =
    recount (omega arith) (omega arith) (omega arith) (
      step-IsSound (i + inside x) (c + at_statements x) (d + through x) k statements callers s
        (omega (arith, at_statements-inside x))
        (recount (omega arith) (omega arith) (omega arith) h))

interleave-IsSound :
    (schedule : List (ℕ × Result (Unit {0}))) (callers : List Caller) (s : Setup)
    → Sound 0 0 0 callers s
    → Sound 0 0 0 (interleave schedule callers s).0 (interleave schedule callers s).1
unfolding interleave
interleave-IsSound [] callers s h = h
interleave-IsSound ((i, statements) ∷ schedule) callers s h =
    interleave-IsSound schedule (step i statements callers s).0 (step i statements callers s).1
      (step-IsSound 0 0 0 i statements callers s (omega arith) h)

starting :
    (callers : List Caller) (f : Caller → ℕ)
    → f entering ≡ 0
    → Every (λ c. c ≡ entering) callers
    → count f callers ≡ 0
starting [] f h all = refl
starting (c ∷ callers) f h (e, all) = omega (arith, ap f e, starting callers f h all)

shown :
    (callers : List Caller) (s : Setup)
    → Sound 0 0 0 callers s
    → (s.created ≡ (if s.schema_ready then 1 else 0))
      × (count inside callers ≡ (if s.schema_lock then 1 else 0))
      × ((s.created ≡ 1) ⊎ (count through callers ≡ 0))
shown callers s h = (
  h.once,
  omega (arith, h.one),
  elim (Bool-cases s.schema_ready) [
    | inl e ↦ inl (ground (arith, h.once))
    | inr e ↦ inr (ground (arith, h.early))
  ],
)

-- From a new store, however many callers enter `_ensure_schema`, in whatever order they take their
-- steps and however the connections and statements end: the statements are run to their end at most
-- once, and once exactly if the schema is marked ready; one caller is between taking the lock and
-- releasing it if the lock is taken, and none if it is not; and if a caller has returned, the
-- statements were run to their end.
pub ensure_schema_once :
    (schedule : List (ℕ × Result (Unit {0}))) (callers : List Caller) (resolve : String → String)
    (db_path : Option String) (proof_db_path : String)
    → Every (λ c. c ≡ entering) callers
    → let (ends, s) = interleave schedule callers (init resolve db_path proof_db_path) in
      (s.created ≡ (if s.schema_ready then 1 else 0))
      × (count inside ends ≡ (if s.schema_lock then 1 else 0))
      × ((s.created ≡ 1) ⊎ (count through ends ≡ 0))
unfolding init
ensure_schema_once schedule callers resolve db_path proof_db_path all =
    let new : Setup = init resolve db_path proof_db_path in
    let sound : Sound 0 0 0 callers new =
      recount {i = 0} {c = 0} {d = 0} (omega (arith, none_are inside refl))
        (omega (arith, none_are at_statements refl)) (omega (arith, none_are through refl))
        (record {
          one = refl;
          within = omega arith;
          idle = omega arith;
          once = refl;
          early = refl;
        }) in
    shown (interleave schedule callers new).0 (interleave schedule callers new).1
      (interleave-IsSound schedule callers new sound)
  where
    none_are : (f : Caller → ℕ) → f entering ≡ 0 → count f callers ≡ 0
    none_are f h = starting callers f h all

-- The steps of one more caller, while no other takes one
abbrev pub alone : Result (Unit {0}) → Setup → Caller × Setup
alone statements s =
    let (c, t) = advance statements entering s in
    let (d, u) = advance statements c t in
    let (e, v) = advance statements d u in advance statements e v

alone_ends :
    (statements : Result (Unit {0})) (s : Setup)
    → s.schema_lock ≡ false
    → s.created ≡ (if s.schema_ready then 1 else 0)
    → alone statements s ≡ (
        if s.schema_ready then (returned, s) else elim statements [
          | ok _ ↦ (returned, record s { schema_ready = true; created = 1 })
          | raised e ↦ (failed e, s)
        ])
unfolding advance
alone_ends (ok x) s free once = ground arith
alone_ends (raised e) s free once = ground arith

-- After whatever interleaving of callers, when none of them is left inside the lock: one more caller,
-- with the steps to itself, returns at once if the schema is ready; otherwise it runs the statements
-- itself, and so a schema that earlier callers failed to create is created by the next one whose
-- statements end well.
pub ensure_schema_alone :
    (schedule : List (ℕ × Result (Unit {0}))) (callers : List Caller) (resolve : String → String)
    (db_path : Option String) (proof_db_path : String) (statements : Result (Unit {0}))
    → Every (λ c. c ≡ entering) callers
    → count inside (interleave schedule callers (init resolve db_path proof_db_path)).0 ≡ 0
    → let s = (interleave schedule callers (init resolve db_path proof_db_path)).1 in
      alone statements s ≡ (
        if s.schema_ready then (returned, s) else elim statements [
          | ok _ ↦ (returned, record s { schema_ready = true; created = 1 })
          | raised e ↦ (failed e, s)
        ])
ensure_schema_alone schedule callers resolve db_path proof_db_path statements all left =
    let (once, one, _) = ensure_schema_once schedule callers resolve db_path proof_db_path all in
    alone_ends statements (interleave schedule callers (init resolve db_path proof_db_path)).1
      (unlocked _ (sym left ∙ one)) once
  where
    unlocked : (b : Bool) → ◌≡◌ {A = ℕ} 0 (if b then 1 else 0) → b ≡ false
    unlocked true h = absurd (omega (arith, h))
    unlocked false h = refl
