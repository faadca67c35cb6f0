-- ===== src/Upstream/Complete.antt =====
-- `challenge_and_verify` says true of every sound proof.
use atp_python.Base.{◌≡◌, ◌≢◌, ◌↔◌, refl, ap, ◌∙◌, String, true, false, Option, some}
use atp_python.Python.Exceptions.{Exception, Result, ok, raised, ok_injective}
use atp_python.Python.Exec.{pure, continue, handle, quietly-value, ◌>>=◌}
use atp_python.Python.Json.{Json, str}
use atp_python.Python.DateTime.{DateTime}
use atp_python.Models.{Commit, CommitStatus, confirmed, failed, verified}
use atp_python.Hashing.{hash_with_prefix}
use atp_python.Wire.{Runtime}
use atp_python.Wire.Records.{text_of}
use atp_python.Wire.RawProof.{RawTask}
use atp_python.Client.{World}
use atp_python.Client.Queries.{get_commit_by_system_and_task}
use atp_python.Client.Reports.{first_entry, report_assessment}
use atp_python.Client.Challenge.{Message, exchange_failed, verified_and_confirmed, system_id_of}
use atp_python.Upstream.{
  Compared, agreed, ended, agrees, replied, integrity_of, compare_hashes, ask_exchange, by_status,
  settle, check_task, check_proof, check_answer, request_proof, own_identity, challenge_from,
  challenge_and_verify,
}
use atp_python.Upstream.Verdicts.{IsSound, is_text_refl}
use atp_python.Upstream.Soundness.{ask_agent, challenge_and_verify-IsSound}

module _ (R : Runtime) (sent : Json) (task : RawTask) (now : DateTime) where
  compare_hashes-agreed :
      (c : Commit) (w : World R)
      → task.invocation_hash ≡ str c.proof_sketch.cryptography.invocation_hash
      → task.outcome_hash ≡ str c.proof_sketch.cryptography.outcome_hash
      → compare_hashes R sent task now c w ≡ (ok (agreed c), w)
  compare_hashes-agreed c w inv out =
      let keys = c.proof_sketch.cryptography in
      rw
        (
          is_text_refl keys.invocation_hash task.invocation_hash inv,
          is_text_refl keys.outcome_hash task.outcome_hash out,
        )
        refl

  compared-agreed :
      (x : Result Commit × World R) (c : Commit)
      → x.0 ≡ ok c
      → task.invocation_hash ≡ str c.proof_sketch.cryptography.invocation_hash
      → task.outcome_hash ≡ str c.proof_sketch.cryptography.outcome_hash
      → handle
          (λ e. pure (ended (sent, false, exchange_failed e)))
          (continue (compare_hashes R sent task now) x)
        ≡ (ok (agreed c), x.1)
  compared-agreed (raised e, w) c found inv out = cc
  compared-agreed (ok d, w) c found inv out =
      ap (λ k. handle stop (compare_hashes R sent task now k w)) (ok_injective found)
      ∙ ap (handle stop) (compare_hashes-agreed c w inv out)
    where
      stop : Exception → World R → Result Compared × World R
      stop e = pure (ended (sent, false, exchange_failed e))

  by_status-true :
      (s : CommitStatus) (w : World R)
      → s ≡ confirmed
      → (by_status R sent task now s w).0 ≡ ok (sent, true, verified_and_confirmed)
  by_status-true confirmed w h =
      quietly-value (report_assessment R (integrity_of R task now verified) w)
        (sent, true, verified_and_confirmed)
  by_status-true failed w h = cc

  settle-true :
      (invocation outcome : Option Json) (c : Commit) (w : World R)
      → agrees invocation task.invocation ≡ true
      → agrees outcome task.outcome ≡ true
      → c.status ≡ confirmed
      → (settle R sent task invocation outcome now (agreed c) w).0
        ≡ ok (sent, true, verified_and_confirmed)
  unfolding settle
  settle-true invocation outcome c w inv out done = rw (inv, out) (by_status-true c.status w done)

  check_task-true :
      (invocation outcome : Option Json) (c : Commit) (w : World R)
      → task.invocation_hash ≡ str (hash_with_prefix R.sha256 task.invocation)
      → task.outcome_hash ≡ str (hash_with_prefix R.sha256 task.outcome)
      → ask_exchange R sent task now w ≡ (ok (agreed c), (ask_exchange R sent task now w).1)
      → agrees invocation task.invocation ≡ true
      → agrees outcome task.outcome ≡ true
      → c.status ≡ confirmed
      → (check_task R sent task invocation outcome now w).0
        ≡ ok (sent, true, verified_and_confirmed)
  unfolding check_task
  check_task-true invocation outcome c w inv out asked expected expected' done =
      let same =
        is_text_refl (hash_with_prefix R.sha256 task.invocation) task.invocation_hash inv in
      let same' = is_text_refl (hash_with_prefix R.sha256 task.outcome) task.outcome_hash out in
      rw (same, same', asked)
        (settle-true invocation outcome c (ask_exchange R sent task now w).1 expected expected'
          done)

  ask_exchange-agreed :
      (c : Commit) (w : World R)
      → (get_commit_by_system_and_task R
          (system_id_of task.system_uri)
          (text_of R task.task_id)
          w).0
        ≡ ok c
      → task.invocation_hash ≡ str c.proof_sketch.cryptography.invocation_hash
      → task.outcome_hash ≡ str c.proof_sketch.cryptography.outcome_hash
      → (ask_exchange R sent task now w).0 ≡ ok (agreed c)
  unfolding ask_exchange
  ask_exchange-agreed c w found inv out =
      ap (λ x. x.0)
        (compared-agreed
          (get_commit_by_system_and_task R (system_id_of task.system_uri) (text_of R task.task_id)
            w)
          c found inv out)

module _ (R : Runtime) (invocation outcome : Option Json) (now : DateTime) (sent : Json) where
  -- The check of a sound proof says true.
  pub check_proof-true :
      (w : World R)
      → IsSound R sent invocation outcome w
      → (check_proof R invocation outcome now sent w).0 ≡ ok (sent, true, verified_and_confirmed)
  unfolding check_proof
  check_proof-true w sound = rw sound.read (
      check_task-true R sent sound.task now invocation outcome sound.commit w sound.invocation_hash
        sound.outcome_hash
        (λ i. (
          ask_exchange-agreed R sent sound.task now sound.commit w sound.fetched
              sound.same_invocation sound.same_outcome i,
          (ask_exchange R sent sound.task now w).1,
        ))
        sound.expected_invocation sound.expected_outcome sound.is_confirmed)

  asked-true :
      (url task_id : String) (x : Result Json × World R)
      → let y = continue (request_proof R url task_id) x in
        y.0 ≡ ok (ok (replied sent))
        → IsSound R sent invocation outcome y.1
        → (continue
            (λ challenger.
              request_proof R url task_id challenger >>= check_answer R invocation outcome now)
            x).0
          ≡ ok (sent, true, verified_and_confirmed)
  asked-true url task_id (raised e, w) h sound = cc
  asked-true url task_id (ok challenger, w) h sound =
      ap
        (λ r.
          (continue (check_answer R invocation outcome now)
            (r, (request_proof R url task_id challenger w).1)).0)
        h
      ∙ check_proof-true (request_proof R url task_id challenger w).1 sound

  from-true :
      (url task_id : String) (w : World R) (system_id : String)
      → system_id ≢ ""
      → (ask_agent R url task_id system_id w).0 ≡ ok (ok (replied sent))
      → IsSound R sent invocation outcome (ask_agent R url task_id system_id w).1
      → (name : String)
      → (challenge_from R url task_id invocation outcome now (some (name, system_id)) w).0
        ≡ ok (sent, true, verified_and_confirmed)
  from-true url task_id w String.[] given answered sound name = absurd (given refl)
  from-true url task_id w (String.◌∷◌ c s) given answered sound name =
      asked-true url task_id (own_identity R (String.◌∷◌ c s) w) answered sound

  -- `challenge_and_verify` returns a proof as verified exactly when the caller has a registered system
  -- with an id that is not empty, the agent has answered the challenge with this proof, and in the
  -- world after that answer the proof is sound: it has a task whose content has the declared hashes
  -- and equals what the caller expected, and the Exchange has a confirmed commit of the same two
  -- hashes for that task's own system and id.
  pub challenge_and_verify_iff :
      (url task_id : String) (w : World R)
      → ((m : Message) × ((challenge_and_verify R url task_id invocation outcome now w).0
            ≡ ok (sent, true, m)))
        ↔ ((name : String) × (system_id : String) × (first_entry w.client.registered_systems
              ≡ some (name, system_id))
            × (system_id ≢ "")
            × ((ask_agent R url task_id system_id w).0 ≡ ok (ok (replied sent)))
            × IsSound R sent invocation outcome (ask_agent R url task_id system_id w).1)
  unfolding challenge_and_verify
  challenge_and_verify_iff url task_id w = (
    λ (m, h). challenge_and_verify-IsSound R invocation outcome now url task_id w sent m h,
    λ (name, system_id, first, given, answered, sound). (
      verified_and_confirmed,
      ap (λ e. (challenge_from R url task_id invocation outcome now e w).0) first
          ∙ from-true url task_id w system_id given answered sound name,
    ),
  )
