-- ===== src/Upstream/Soundness.antt =====
-- When `challenge_and_verify` says true.
use atp_python.Base.{
  ◌≢◌, ◌≡◌, refl, sym, ap, subst, String, true, false≢true, ◌∙◌, ◌||◌, Option, none, some,
}
use text.Mathlib.TextLemmas.{cons≢nil}
use atp_python.Python.Exceptions.{
  Result, ok, raised, is_a, key_error, type_error, raised≢ok, ok_injective,
}
use atp_python.Python.Exec.{continue, continue-ok, caught-ok, ◌>>=◌}
use atp_python.Python.Json.{Json}
use atp_python.Python.DateTime.{DateTime}
use atp_python.Wire.{Runtime}
use atp_python.Wire.RawProof.{RawTask, read_task}
use atp_python.Client.{World}
use atp_python.Client.Reports.{first_entry}
use atp_python.Client.Challenge.{Message, invalid_structure}
use atp_python.Upstream.{
  Verdict, check_read, check_proof, Answer, refused, replied, request_proof, own_identity,
  check_answer, challenge_from, challenge_and_verify,
}
use atp_python.Upstream.Verdicts.{IsSound, Holds, refusal-Holds, check_task-IsSound}

module _ (R : Runtime) where
  -- The agent is asked for the proof, by a client that says who it is.
  abbrev pub ask_agent : String → String → String → World R → Result (Result Answer) × World R
  ask_agent url task_id system_id =
      own_identity R system_id >>= λ challenger. request_proof R url task_id challenger

  module _ (invocation outcome : Option Json) (now : DateTime) where
    check_read-IsSound :
        (sent : Json) (r : Result RawTask) (w : World R) (v : Verdict)
        → read_task sent ≡ r
        → (check_read R invocation outcome now sent r w).0 ≡ ok v
        → Holds R sent (IsSound R sent invocation outcome w) v
    check_read-IsSound sent (ok task) w v read h =
        check_task-IsSound R sent task now invocation outcome w v read h
    check_read-IsSound sent (raised e) w v read h =
        subst (Holds R sent (IsSound R sent invocation outcome w))
          (caught-ok (is_a e key_error || is_a e type_error) e w h)
          (refusal-Holds R sent (IsSound R sent invocation outcome w) (invalid_structure e))

    check_answer-IsSound :
        (r : Result Answer) (w : World R) (sent : Json) (m : Message)
        → (check_answer R invocation outcome now r w).0 ≡ ok (sent, true, m)
        → (r ≡ ok (replied sent)) × IsSound R sent invocation outcome w
    unfolding check_proof Holds
    check_answer-IsSound (raised e) w sent m h =
        absurd (false≢true (ap (λ (t : Verdict). t.1) (ok_injective h)))
    check_answer-IsSound (ok (refused v)) w sent m h =
        absurd (false≢true (ap (λ (t : Verdict). t.1) (ok_injective h)))
    check_answer-IsSound (ok (replied v)) w sent m h =
        let (about, rests) = check_read-IsSound v (read_task v) w (sent, true, m) refl h in
        (
          ap (λ x. ok (replied x)) (sym about),
          subst (λ x. IsSound R x invocation outcome w) (sym about) (rests refl),
        )

    asked-IsSound :
        (url task_id : String) (x : Result Json × World R) (sent : Json) (m : Message)
        → (continue
            (λ challenger.
              request_proof R url task_id challenger >>= check_answer R invocation outcome now)
            x).0
          ≡ ok (sent, true, m)
        → let y = continue (request_proof R url task_id) x in
          (y.0 ≡ ok (ok (replied sent))) × IsSound R sent invocation outcome y.1
    asked-IsSound url task_id (raised e, w) sent m h = absurd (raised≢ok h)
    asked-IsSound url task_id (ok challenger, w) sent m h =
        let y = request_proof R url task_id challenger w in
        let (r, answered, h') = continue-ok (check_answer R invocation outcome now) y h in
        let (replied', sound) = check_answer-IsSound r y.1 sent m h' in
        (answered ∙ ap ok replied', sound)

    -- What follows the registry's first entry.
    from-IsSound :
        (url task_id : String) (w : World R) (sent : Json) (m : Message)
        (first : Option (String × String))
        → (challenge_from R url task_id invocation outcome now first w).0 ≡ ok (sent, true, m)
        → (name : String) × (system_id : String) × (first ≡ some (name, system_id))
          × (system_id ≢ "")
          × ((ask_agent url task_id system_id w).0 ≡ ok (ok (replied sent)))
          × IsSound R sent invocation outcome (ask_agent url task_id system_id w).1
    from-IsSound url task_id w sent m none h =
        absurd (false≢true (ap (λ (t : Verdict). t.1) (ok_injective h)))
    from-IsSound url task_id w sent m (some (name, String.[])) h =
        absurd (false≢true (ap (λ (t : Verdict). t.1) (ok_injective h)))
    from-IsSound url task_id w sent m (some (name, String.◌∷◌ c s)) h =
        let (answered, sound) =
          asked-IsSound url task_id (own_identity R (String.◌∷◌ c s) w) sent m h in
        (name, String.◌∷◌ c s, refl, cons≢nil, answered, sound)

    -- What `challenge_and_verify` rests on when it says true.
    pub challenge_and_verify-IsSound :
        (url task_id : String) (w : World R) (sent : Json) (m : Message)
        → (challenge_and_verify R url task_id invocation outcome now w).0 ≡ ok (sent, true, m)
        → (name : String) × (system_id : String) × (first_entry w.client.registered_systems
            ≡ some (name, system_id))
          × (system_id ≢ "")
          × ((ask_agent url task_id system_id w).0 ≡ ok (ok (replied sent)))
          × IsSound R sent invocation outcome (ask_agent url task_id system_id w).1
    unfolding challenge_and_verify
    challenge_and_verify-IsSound url task_id w sent m =
        from-IsSound url task_id w sent m (first_entry w.client.registered_systems)
