-- ===== src/Upstream/Errors.antt =====
-- What goes wrong inside `challenge_and_verify`, and what comes of it.
use atp_python.Base.{
  ◌≡◌, ◌≢◌, refl, sym, ap, ◌∙◌, false≢true, String, false, ◌||◌, Option, none, some, inl, inr,
}
use atp_python.Python.Exceptions.{
  Exception, Result, ok, raised, is_a, key_error, type_error, attribute_error,
}
use atp_python.Python.Exec
use atp_python.Python.Exec.{
  pure, lift, attempt-returns, continue, continue-raised, through, guards-all, quietly-returns,
  continue-returns, handle-returns,
}
use atp_python.Python.Json.{Json, str}
use atp_python.Python.DateTime.{DateTime}
use atp_python.Hashing.{hash_with_prefix}
use atp_python.Wire.{Runtime}
use atp_python.Wire.Records.{text_of}
use atp_python.Client.Queries.{get_commit_by_system_and_task}
use atp_python.Wire.RawProof.{RawTask, read_task}
use atp_python.Client.{World}
use atp_python.Client.Reports.{first_entry}
use atp_python.Client.Challenge.{
  no_registered_system, challenge_request_failed, challenge_refused, exchange_failed,
  invalid_structure, system_id_of,
}
use atp_python.Upstream.Soundness.{ask_agent}
use atp_python.Upstream.{
  ask_exchange, settle, check_task, check_read, check_proof, Answer, refused, replied, own_identity,
  request_proof, check_answer, no_proof, challenge_from, challenge_and_verify,
}
use atp_python.Upstream.Verdicts.{is_text_refl}
use atp_python.Upstream.Reading.{Readable, read_task-Readable}
use atp_python.Upstream.Returning.{
  Returns, pure-returns, own_identity-Returns, request_proof-Returns, check_task-Returns,
}

module _ (R : Runtime) where
  module _ (invocation outcome : Option Json) (now : DateTime) where
    check_read-raises :
        (sent : Json) (r : Result RawTask) (w : World R) (e : Exception)
        → ((d : Exception) → r ≡ raised d → Readable d)
        → (check_read R invocation outcome now sent r w).0 ≡ raised e
        → (r ≡ raised e) × (e ≡ attribute_error)
    unfolding Readable Returns
    check_read-raises sent (ok task) w e readable h =
        absurd (check_task-Returns R sent task now invocation outcome w e h)
    check_read-raises sent (raised d) w e readable h =
        let (uncaught, same) =
          through (is_a d key_error || is_a d type_error) (sent, false, invalid_structure d) d e w
            h in
        elim (readable d refl) [
          | inl caught ↦ absurd (false≢true (sym uncaught ∙ caught))
          | inr plain ↦ (ap raised same, sym same ∙ plain)
        ]

    -- The proof that the agent sent names its system by what is no text.
    Unreadable : Result Answer → Exception → Type 0
    Unreadable r e =
        (e ≡ attribute_error)
        × (sent : Json) × (r ≡ ok (replied sent))
        × (read_task sent ≡ raised attribute_error)

    check_answer-raises :
        (r : Result Answer) (w : World R) (e : Exception)
        → (check_answer R invocation outcome now r w).0 ≡ raised e
        → Unreadable r e
    unfolding check_proof Unreadable
    check_answer-raises (raised d) w e h =
        absurd (pure-returns R (no_proof, false, challenge_request_failed d) e h)
    check_answer-raises (ok (refused v)) w e h =
        absurd (pure-returns R (no_proof, false, challenge_refused v) e h)
    check_answer-raises (ok (replied v)) w e h =
        let (unread, same) = check_read-raises v (read_task v) w e (read_task-Readable v) h in
        (same, v, refl, unread ∙ ap raised same)

    asked-raises :
        (url task_id : String) (x : Result Json × World R) (e : Exception)
        → x.0 ≢ raised e
        → (continue
            (λ challenger.
              Exec.◌>>=◌
                (request_proof R url task_id challenger)
                (check_answer R invocation outcome now))
            x).0
          ≡ raised e
        → (r : Result Answer) × ((continue (request_proof R url task_id) x).0 ≡ ok r)
          × Unreadable r e
    unfolding Returns
    asked-raises url task_id (raised d, w) e known h = absurd (known cc)
    asked-raises url task_id (ok challenger, w) e known h =
        let y = request_proof R url task_id challenger w in
        let (r, answered, h') =
          continue-raised (check_answer R invocation outcome now) y e
            (request_proof-Returns R url task_id challenger w e) h in
        (r, answered, check_answer-raises r y.1 e h')

    from-raises :
        (url task_id : String) (w : World R) (first : Option (String × String)) (e : Exception)
        → (challenge_from R url task_id invocation outcome now first w).0 ≡ raised e
        → (name : String) × (system_id : String) × (first ≡ some (name, system_id))
          × (e ≡ attribute_error)
          × (sent : Json) × ((ask_agent R url task_id system_id w).0 ≡ ok (ok (replied sent)))
          × (read_task sent ≡ raised attribute_error)
    unfolding Unreadable Returns
    from-raises url task_id w none e h =
        absurd (pure-returns R (no_proof, false, no_registered_system) e h)
    from-raises url task_id w (some (name, String.[])) e h =
        absurd (pure-returns R (no_proof, false, no_registered_system) e h)
    from-raises url task_id w (some (name, String.◌∷◌ c s)) e h =
        let id = String.◌∷◌ c s in
        let (r, answered, unreadable) =
          asked-raises url task_id (own_identity R id w) e (own_identity-Returns R id w e) h in
        let (what, sent, reply, unread) = unreadable in
        (name, id, refl, what, sent, answered ∙ ap ok reply, unread)

    -- On texts that UTF-8 can encode, which are all the texts of the model (so none with a lone
    -- surrogate, which `.encode` would refuse), `challenge_and_verify` raises nothing but
    -- AttributeError, and this only where the caller has a registered system and the agent has answered
    -- with a proof that has all the parts of a task but names its system by a value that is no text.
    -- Every other failure of the caller's registry, of the request, of the Exchange or of the proof's
    -- structure that the model has ends in a verdict.
    pub challenge_and_verify-raises :
        (url task_id : String) (w : World R) (e : Exception)
        → (challenge_and_verify R url task_id invocation outcome now w).0 ≡ raised e
        → (name : String) × (system_id : String) × (first_entry w.client.registered_systems
            ≡ some (name, system_id))
          × (e ≡ attribute_error)
          × (sent : Json) × ((ask_agent R url task_id system_id w).0 ≡ ok (ok (replied sent)))
          × (read_task sent ≡ raised attribute_error)
    unfolding challenge_and_verify
    challenge_and_verify-raises url task_id w =
        from-raises url task_id w (first_entry w.client.registered_systems)

    -- When the hashes of the content agree but the query of the Exchange raises, the verdict is
    -- negative with that exception, and the world is the one the query left.
    pub check_proof-exchange_failed :
        (sent : Json) (task : RawTask) (w x : World R) (e : Exception)
        → read_task sent ≡ ok task
        → task.invocation_hash ≡ str (hash_with_prefix R.sha256 task.invocation)
        → task.outcome_hash ≡ str (hash_with_prefix R.sha256 task.outcome)
        → get_commit_by_system_and_task R (system_id_of task.system_uri) (text_of R task.task_id) w
          ≡ (raised e, x)
        → check_proof R invocation outcome now sent w ≡ (ok (sent, false, exchange_failed e), x)
    unfolding check_proof check_task ask_exchange settle
    check_proof-exchange_failed sent task w x e read inv out asked =
        let same =
          is_text_refl (hash_with_prefix R.sha256 task.invocation) task.invocation_hash inv in
        let same' = is_text_refl (hash_with_prefix R.sha256 task.outcome) task.outcome_hash out in
        rw (read, same, same', asked) refl
