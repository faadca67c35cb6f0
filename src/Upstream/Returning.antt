-- ===== src/Upstream/Returning.antt =====
-- What `challenge_and_verify` does without raising.
use atp_python.Base.{◌≢◌, sym, String, true, false, Option}
use atp_python.Python.Exceptions.{Exception, Result, ok, raised, raised≢ok}
use atp_python.Python.Exec
use atp_python.Python.Exec.{
  pure, lift, attempt-returns, continue, continue-raised, through, guards-all, quietly-returns,
  continue-returns, handle-returns,
}
use atp_python.Python.Json.{Json}
use atp_python.Python.DateTime.{DateTime}
use atp_python.Models.{CommitStatus, confirmed, failed, compromised, verified}
use atp_python.Hashing.{hash_with_prefix}
use atp_python.Wire.{Runtime}
use atp_python.Wire.Records.{text_of}
use atp_python.Client.Queries.{get_system, get_commit_by_system_and_task}
use atp_python.Wire.RawProof.{RawTask, is_text}
use atp_python.Client.{World, transmit, or_text}
use atp_python.Client.Reports.{report_assessment}
use atp_python.Client.Challenge.{
  Message, identity, to_agent, rpc_payload, exchange_failed, unexpected_state,
  verified_and_confirmed, system_id_of, invocation_hash_mismatch, outcome_hash_mismatch,
  invocation_content_mismatch, outcome_content_mismatch,
}
use atp_python.Upstream.{
  Compared, agreed, ended, agrees, integrity_of, flag, compare_hashes, ask_exchange, by_status,
  settle, check_task, own_identity, request_proof, read_answer,
}

module _ (R : Runtime) where
  -- Nothing is raised.
  unfoldable pub Returns : {A : Type 0} → Result A × World R → Type 0
  Returns x = (e : Exception) → x.0 ≢ raised e

  pub pure-returns : {A : Type 0} (a : A) (e : Exception) → ok a ≢ raised e
  pure-returns a e h = raised≢ok (sym h)

  pub own_identity-Returns :
      (system_id : String) (w : World R) → Returns (own_identity R system_id w)
  unfolding Returns own_identity
  own_identity-Returns system_id w =
      let url = or_text w.client.config.exchange_url "http://localhost:80" in
      attempt-returns
        (Exec.◌>>=◌ (get_system R system_id)
          (λ system. pure (identity R url system_id system.type system.name)))
        (λ d. identity R url system_id "agent" "ATPClient") w

  pub request_proof-Returns :
      (url task_id : String) (challenger : Json) (w : World R)
      → Returns (request_proof R url task_id challenger w)
  unfolding Returns request_proof
  request_proof-Returns url task_id challenger w =
      attempt-returns
        (Exec.◌>>=◌ (transmit R (to_agent R url (rpc_payload R task_id challenger)))
          (λ response. Exec.◌>>=◌ (lift (read_answer R response)) (λ answer. pure (ok answer))))
        (λ d. raised d) w

  module _ (sent : Json) (task : RawTask) (now : DateTime) where
    flag-Returns : (why : Message) (w : World R) → Returns (flag R sent task now why w)
    unfolding Returns
    flag-Returns why w =
        quietly-returns (report_assessment R (integrity_of R task now compromised) w)
          (sent, false, why)

    ask_exchange-Returns : (w : World R) → Returns (ask_exchange R sent task now w)
    unfolding Returns ask_exchange
    ask_exchange-Returns w =
        attempt-returns
          (Exec.◌>>=◌
            (get_commit_by_system_and_task R (system_id_of task.system_uri)
              (text_of R task.task_id))
            (compare_hashes R sent task now))
          (λ d. ended (sent, false, exchange_failed d)) w

    by_status-Returns : (s : CommitStatus) (w : World R) → Returns (by_status R sent task now s w)
    unfolding Returns
    by_status-Returns confirmed w e h =
        quietly-returns (report_assessment R (integrity_of R task now verified) w)
          (sent, true, verified_and_confirmed) e h
    by_status-Returns failed w e h = pure-returns (sent, false, unexpected_state failed) e h

    module _ (invocation outcome : Option Json) where
      settle-Returns :
          (c : Compared) (w : World R) → Returns (settle R sent task invocation outcome now c w)
      unfolding settle Returns
      settle-Returns (ended v) w e h = raised≢ok {a = v} (sym h)
      settle-Returns (agreed c) w e h =
          guards-all Returns (agrees invocation task.invocation) (agrees outcome task.outcome)
            (flag R sent task now (invocation_content_mismatch task.invocation))
            (flag R sent task now (outcome_content_mismatch task.outcome))
            (by_status R sent task now c.status) w
            (flag-Returns (invocation_content_mismatch task.invocation) w)
            (flag-Returns (outcome_content_mismatch task.outcome) w)
            (λ same same'. by_status-Returns c.status w) e h

      pub check_task-Returns :
          (w : World R) → Returns (check_task R sent task invocation outcome now w)
      unfolding check_task Returns
      check_task-Returns w =
          guards-all Returns
            (is_text (hash_with_prefix R.sha256 task.invocation) task.invocation_hash)
            (is_text (hash_with_prefix R.sha256 task.outcome) task.outcome_hash)
            (flag R sent task now invocation_hash_mismatch)
            (flag R sent task now outcome_hash_mismatch)
            (Exec.◌>>=◌ (ask_exchange R sent task now) (settle R sent task invocation outcome now))
            w (flag-Returns invocation_hash_mismatch w) (flag-Returns outcome_hash_mismatch w)
            (λ same same' e.
              continue-returns (λ c. settle R sent task invocation outcome now c)
                (ask_exchange R sent task now w) e (ask_exchange-Returns w e)
                (λ c. settle-Returns c (ask_exchange R sent task now w).1 e))
