-- ===== src/Gather/Reading.antt =====
-- The `ProofData` that is gathered has the parts of the task that was verified.
use atp_python.Base.{◌≡◌, refl, subst, sym, ap, ◌∙◌, String, Option, []}
use atp_python.Python.Exceptions.{ok, ok_injective, bind_returned}
use atp_python.Python.Json.{Json, str, obj, Fields}
use atp_python.Python.DateTime.{DateTime}
use atp_python.Models.{ProofData, ProofDataTask, TrustLevel}
use atp_python.Wire.{Runtime, item, get_key, as_str}
use atp_python.Wire.RawProof.{RawTask, raw_task, read_task}
use atp_python.Wire.Gathered.{gathered, task_data, as_fields, value_or, timestamp_or}

as_str_inv : (v : Json) (s : String) → as_str v ≡ ok s → v ≡ str s
as_str_inv (str t) s h = ap str (ok_injective h)
as_str_inv Json.null s h = cc
as_str_inv (Json.bool b) s h = cc
as_str_inv (Json.int n) s h = cc
as_str_inv (Json.arr vs) s h = cc
as_str_inv (obj fs) s h = cc

as_fields_inv : (v : Json) (fs : Fields) → as_fields v ≡ ok fs → v ≡ obj fs
as_fields_inv (obj gs) fs h = ap obj (ok_injective h)
as_fields_inv Json.null fs h = cc
as_fields_inv (Json.bool b) fs h = cc
as_fields_inv (Json.int n) fs h = cc
as_fields_inv (Json.arr vs) fs h = cc
as_fields_inv (str s) fs h = cc

-- The task as it was sent, when it has the types that the model asks for.
abbrev pub raw_of : ProofDataTask → RawTask
raw_of t = record {
  system_uri = t.system_uri;
  task_id = str t.task_id;
  invocation = obj t.invocation;
  invocation_hash = str t.invocation_hash;
  outcome = obj t.outcome;
  outcome_hash = str t.outcome_hash;
}

-- The parts of the task, under their keys
record Parts (task : Json) (t : RawTask) : Type 0 where
  at_uri : item "system_uri" task ≡ ok (str t.system_uri)
  at_id : item "task_id" task ≡ ok t.task_id
  at_inv : item "invocation" task ≡ ok t.invocation
  at_inv_hash : item "invocation_hash" task ≡ ok t.invocation_hash
  at_out : item "outcome" task ≡ ok t.outcome
  at_out_hash : item "outcome_hash" task ≡ ok t.outcome_hash

read_task-Parts :
    (v task : Json) (t : RawTask) → raw_task v ≡ ok task → Parts task t → read_task v ≡ ok t
unfolding read_task
read_task-Parts v task t read p =
    rw (read, p.at_uri, p.at_id, p.at_inv, p.at_inv_hash, p.at_out, p.at_out_hash) refl

module _ (R : Runtime) (now : DateTime) where
  -- The proof is dated by the task's timestamp, or by the clock where the task has no text that is a
  -- date, and it has the task's type of system, or "agent" where the task has none.
  pub record IsLabelled (task : Json) (p : ProofData) : Type 0 where
    pub timestamp : Option Json
    pub at_timestamp : get_key "timestamp" task ≡ ok timestamp
    pub is_dated : timestamp_or R now timestamp ≡ ok p.task.timestamp
    pub system_type : Option Json
    pub at_type : get_key "system_type" task ≡ ok system_type
    pub is_typed : value_or "agent" system_type ≡ str p.task.system_type

  task_data-Parts :
      (task : Json) (p : ProofData)
      → task_data R now task ≡ ok p
      → Parts task (raw_of p.task)
        × (p.task.trust_level ≡ TrustLevel.verified)
        × (p.dependencies ≡ [])
        × IsLabelled task p
  unfolding task_data
  task_data-Parts task p h =
      let (timestamp, e7, h0) = bind_returned (get_key "timestamp" task) _ h in
      let (at, e8, h1) = bind_returned (timestamp_or R now timestamp) _ h0 in
      let (uri, e1, h2) = bind_returned (item "system_uri" task) _ h1 in
      let (type, e9, h3) = bind_returned (get_key "system_type" task) _ h2 in
      let (id, e2, h4) = bind_returned (item "task_id" task) _ h3 in
      let (inv, e3, h5) = bind_returned (item "invocation" task) _ h4 in
      let (inv_hash, e4, h6) = bind_returned (item "invocation_hash" task) _ h5 in
      let (out, e5, h7) = bind_returned (item "outcome" task) _ h6 in
      let (out_hash, e6, h8) = bind_returned (item "outcome_hash" task) _ h7 in
      let (u, f1, h9) = bind_returned (as_str uri) _ h8 in
      let (ty, f7, h10) = bind_returned (as_str (value_or "agent" type)) _ h9 in
      let (i, f2, h11) = bind_returned (as_str id) _ h10 in
      let (v, f3, h12) = bind_returned (as_fields inv) _ h11 in
      let (vh, f4, h13) = bind_returned (as_str inv_hash) _ h12 in
      let (o, f5, h14) = bind_returned (as_fields out) _ h13 in
      let (oh, f6, h15) = bind_returned (as_str out_hash) _ h14 in
      let same = ok_injective h15 in
      (
        subst (λ (q : ProofData). Parts task (raw_of q.task)) same
            (record {
              at_uri = e1 ∙ ap ok (as_str_inv uri u f1);
              at_id = e2 ∙ ap ok (as_str_inv id i f2);
              at_inv = e3 ∙ ap ok (as_fields_inv inv v f3);
              at_inv_hash = e4 ∙ ap ok (as_str_inv inv_hash vh f4);
              at_out = e5 ∙ ap ok (as_fields_inv out o f5);
              at_out_hash = e6 ∙ ap ok (as_str_inv out_hash oh f6);
            }),
        sym (ap (λ (q : ProofData). q.task.trust_level) same),
        sym (ap (λ (q : ProofData). q.dependencies) same),
        subst (IsLabelled task) same (record {
          timestamp = timestamp;
          at_timestamp = e7;
          is_dated = e8;
          system_type = type;
          at_type = e9;
          is_typed = as_str_inv (value_or "agent" type) ty f7;
        }),
      )

  -- What is gathered is the task that is read.
  pub gathered-read :
      (v : Json) (p : ProofData)
      → gathered R now v ≡ ok p
      → (read_task v ≡ ok (raw_of p.task))
        × (p.task.trust_level ≡ TrustLevel.verified)
        × (p.dependencies ≡ [])
        × (task : Json) × (raw_task v ≡ ok task)
        × IsLabelled task p
  unfolding gathered
  gathered-read v p h =
      let (task, read, h') = bind_returned (raw_task v) (task_data R now) h in
      let (parts, trusted, alone, labelled) = task_data-Parts task p h' in
      (read_task-Parts v task (raw_of p.task) read parts, trusted, alone, task, read, labelled)
