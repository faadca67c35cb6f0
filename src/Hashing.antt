-- ===== src/Hashing.antt =====
-- atp/core/hashing.py. SHA-256 (the hexadecimal digest of a UTF-8 text) is the parameter `sha256`.
pub mod Content
pub mod Binding
pub mod Dependencies
use atp_python.Base.{
  String, ◌<>◌, Bool, true, false, Option, none, some, List, [], ◌∷◌, eqb, if◌then◌else◌,
}
use atp_python.Base.Dict.{lookup}
use atp_python.Base.Texts.{rstrip}
use atp_python.Python.Exceptions.{
  Result, ok, raised, ◌>>=◌, key_error, type_error, attribute_error, value_error,
}
use atp_python.Python.Json.{
  Json, null, bool, int, str, arr, obj, Items, nil, cons, Fields, end, field, fields, items, truthy,
  integer, to_items,
}
use atp_python.Python.Canonical.{dumps}
use atp_python.Python.DateTime.{DateTime, microsecond, strftime, pad6, astimezone_utc}
use atp_python.Models.{DependencyEvaluation, Dependency, ProofSketch}

-- The text of a reading, with the fraction that `rstrip("0")` leaves.
abbrev stamp : DateTime → String
stamp d =
    strftime d
    <> (if eqb (microsecond d) 0 then "Z" else "." <> (rstrip b'0' (pad6 (microsecond d)) <> "Z"))

-- `_format_datetime_rfc3339nano`
unfoldable pub format_datetime_rfc3339nano : DateTime → Result String
format_datetime_rfc3339nano d = elim d.utcoffset [
  | none ↦ ok (stamp d)
  | some x ↦ do u ← astimezone_utc d.micros x; ok (stamp u)
]

-- `d[k]`
abbrev pub get_item : String → Fields → Result Json
get_item k fs = elim (lookup k (fields fs)) [ none ↦ raised key_error | some v ↦ ok v ]

-- The key is there only if the value is not empty.
abbrev omit_empty : String → Option Json → Fields → Fields
omit_empty k none fs = fs
omit_empty k (some v) fs = if truthy v then field k v fs else fs

abbrev option_json : Option String → Json
option_json none = null
option_json (some s) = str s

-- `_dep_eval_to_canonical` of a `DependencyEvaluation`
unfoldable pub dep_eval_to_canonical : DependencyEvaluation → Result Json
dep_eval_to_canonical ev = do
  at ← format_datetime_rfc3339nano ev.evaluated_at
  ok (
      obj (
        field "evaluation_type" (str ev.evaluation_type) (
          omit_empty "evaluation_policy" (some (option_json ev.evaluation_policy)) (
            field "evaluation_result" (str ev.evaluation_result)
              (field "evaluated_at" (str at) end)))))

-- `_dep_eval_to_canonical` of a dict. What is no dict has no such attributes.
unfoldable pub raw_eval_to_canonical : Json → Result Json
raw_eval_to_canonical (obj ev) = do
  type ← get_item "evaluation_type" ev
  result ← get_item "evaluation_result" ev
  at ← get_item "evaluated_at" ev
  ok (
      obj (
        field "evaluation_type" type (
          omit_empty "evaluation_policy" (lookup "evaluation_policy" (fields ev))
            (field "evaluation_result" result (field "evaluated_at" at end)))))
raw_eval_to_canonical _ = raised attribute_error

unfoldable pub traverse {ℓ κ} :
    {A : Type ℓ} {B : Type κ} → (A → Result B) → List A → Result (List B)
traverse f [] = ok []
traverse f (a ∷ as') = do b ← f a; bs ← traverse f as'; ok (b ∷ bs)

abbrev with_evaluations : Json → Json → List Json → Json
with_evaluations uri task evals = obj (
    field "system_uri" uri
      (field "task_id" task (omit_empty "evaluations" (some (arr (to_items evals))) end)))

-- The items of `for ev in evals`, for a value that is not empty; those of a text or of a dict are texts.
abbrev iterate : Json → Result (List Json)
iterate (arr vs) = ok (items vs)
iterate (str _) = raised attribute_error
iterate (obj _) = raised attribute_error
iterate _ = raised type_error

-- `dep.get("evaluations") or []`, canonical
abbrev raw_evaluations : Option Json → Result (List Json)
raw_evaluations none = ok []
raw_evaluations (some v) =
    if truthy v then (do evals ← iterate v; traverse raw_eval_to_canonical evals) else ok []

pub data DependencyArg : Type 0 where
  model : Dependency → DependencyArg
  raw : Fields → DependencyArg

-- `_dep_to_canonical`
unfoldable pub dep_to_canonical : DependencyArg → Result Json
dep_to_canonical (model dep) = do
  evals ← traverse dep_eval_to_canonical dep.evaluations
  ok (with_evaluations (option_json dep.system_uri) (str dep.task_id) evals)
dep_to_canonical (raw dep) = do
  uri ← get_item "system_uri" dep
  task ← get_item "task_id" dep
  evals ← raw_evaluations (lookup "evaluations" (fields dep))
  ok (with_evaluations uri task evals)

-- What `compute_proof_hash` takes besides a sketch.
pub record ProofParts : Type 0 where
  pub system_uri : String
  pub task_id : String
  pub invocation_hash : String
  pub outcome_hash : String
  pub dependencies_hash : Option String
  pub timestamp : DateTime

-- `if dependencies_hash:`
abbrev non_empty : Option String → Option String
non_empty none = none
non_empty (some s) = if truthy (str s) then some s else none

-- The text that `_compute_proof_hash_parts` hashes. The timestamp is not converted to UTC.
unfoldable pub proof_message : ProofParts → String
proof_message p =
    p.system_uri
    <> ("|"
        <> (p.task_id
            <> ("|"
                <> (p.invocation_hash
                    <> ("|"
                        <> (p.outcome_hash
                            <> ("|" <> elim (non_empty p.dependencies_hash) [
                              | some h ↦ h <> ("|" <> stamp p.timestamp)
                              | none ↦ stamp p.timestamp
                            ])))))))

abbrev pub sketch_parts : ProofSketch → ProofParts
sketch_parts s = record {
  system_uri = s.metadata.system_uri;
  task_id = s.metadata.task_id;
  invocation_hash = s.cryptography.invocation_hash;
  outcome_hash = s.cryptography.outcome_hash;
  dependencies_hash = s.cryptography.dependencies_hash;
  timestamp = s.timestamp;
}

module _ (sha256 : String → String) where
  unfoldable pub compute_data_hash : Json → String
  unfolding dumps integer
  compute_data_hash (str s) = sha256 s
  compute_data_hash (obj fs) = sha256 (dumps (obj fs))
  compute_data_hash (arr vs) = sha256 (dumps (arr vs))
  compute_data_hash null = sha256 "None"
  compute_data_hash (bool true) = sha256 "True"
  compute_data_hash (bool false) = sha256 "False"
  compute_data_hash (int n) = sha256 (integer n)

  unfoldable pub hash_with_prefix : Json → String
  hash_with_prefix v = "sha256:" <> compute_data_hash v

  -- `None` and an empty list are the same list.
  unfoldable pub compute_dependencies_hash : Option (List DependencyArg) → Result String
  compute_dependencies_hash none = ok ("sha256:" <> sha256 (dumps (arr nil)))
  compute_dependencies_hash (some deps) = do
    canonical ← traverse dep_to_canonical deps
    ok ("sha256:" <> sha256 (dumps (arr (to_items canonical))))

  unfoldable pub compute_proof_hash : ProofParts → String
  compute_proof_hash p = sha256 (proof_message p)

  unfoldable pub compute_sketch_hash : ProofSketch → String
  compute_sketch_hash s = compute_proof_hash (sketch_parts s)

  -- The call with separate arguments, of which all but the dependencies hash are required.
  unfoldable pub compute_proof_hash_args :
      String
      → Option String
      → Option String
      → Option String
      → Option String
      → Option DateTime
      → Result String
  compute_proof_hash_args uri (some task) (some inv) (some out) deps (some ts) = ok (
      compute_proof_hash (record {
        system_uri = uri;
        task_id = task;
        invocation_hash = inv;
        outcome_hash = out;
        dependencies_hash = deps;
        timestamp = ts;
      }))
  compute_proof_hash_args uri _ _ _ deps _ = raised value_error
