-- ===== src/Client/Challenge/Soundness.antt =====
-- When a challenge ends with a verified proof.
use atp_python.Base.{
  refl, subst, ◌∙◌, ◌≢◌, Bool, true, false, Option, some, String, inl, inr, arith, false≢true, ◌≡◌,
  ap, Bool, true, false, false≢true, inl, inr, arith,
}
use atp_python.Python.Exceptions.{Result, raised, ok_injective, Exception, ok}
use atp_python.Python.Exec.{quietly-ok, continue, try_except, ◌>>=◌, continue-ok, handle-ok}
use atp_python.Python.DateTime.{DateTime}
use atp_python.Python.Json.{Json}
use atp_python.Models.{StoredProof}
use atp_python.Wire.{Response, Runtime}
use atp_python.Wire.Rpc.{read_proof}
use atp_python.Client.{World, transmit}
use atp_python.Client.Challenge.Genuine.{IsGenuine, verify-IsGenuine}
use atp_python.Client.Reports.{report_assessment, first_entry}
use atp_python.Client.Challenge.{
  integrity_report, verdict_of, conclude, challenger_identity, challenge_as, challenge_handler,
  judge, challenge, to_agent, rpc_payload, Message, verify,
}

module _ (R : Runtime) where
  judge-IsGenuine :
      (stored : StoredProof) (check : Bool) (a : Option String) (now : DateTime) (w : World R)
      (p : StoredProof) (m : Message)
      → (judge R stored check a now w).0 ≡ ok (p, true, m)
      → (check ≡ true) × IsGenuine R p w
  unfolding judge
  judge-IsGenuine stored false a now w p m h =
      absurd (false≢true (ap (λ (t : StoredProof × Bool × Message). t.1) (ok_injective h)))
  judge-IsGenuine stored true a now w p m h =
      let (v, returned, h') = continue-ok _ (verify R stored w) h in
      let same =
        quietly-ok
          (report_assessment R (integrity_report R stored (verdict_of R v.0) now a)
            (verify R stored w).1)
          h' in
      (
        refl,
        subst (λ q. IsGenuine R q w) (ap (λ (t : StoredProof × Bool × Message). t.0) same)
            (verify-IsGenuine R stored w m
              (returned ∙ ap (λ (t : StoredProof × Bool × Message). ok (t.1, t.2)) same)),
      )

  handler_raises :
      {A : Type 0} (e : Exception) (w : World R) (a : A)
      → (challenge_handler R {A = A} e w).0 ≢ ok a
  handler_raises e w a h = ground arith

  -- The world after the challenge was sent and answered.
  abbrev pub answered : (name system_id agent_url task_id : String) → World R → World R
  answered name system_id agent_url task_id w =
      ((challenger_identity R name system_id >>= λ challenger.
      transmit R (to_agent R agent_url (rpc_payload R task_id challenger)))
        w).1

  conclude-IsGenuine :
      (check : Bool) (a : Option String) (now : DateTime) (response : Response) (w : World R)
      (p : StoredProof) (m : Message)
      → (conclude R check a now response w).0 ≡ ok (p, true, m)
      → (check ≡ true) × IsGenuine R p w
  conclude-IsGenuine check a now response w p m h =
      let (stored, _, h') =
        continue-ok (λ stored. judge R stored check a now) (read_proof R response, w) h in
      judge-IsGenuine stored check a now w p m h'

  sent-IsGenuine :
      (agent_url task_id : String) (check : Bool) (a : Option String) (now : DateTime)
      (x : Result Json × World R) (p : StoredProof) (m : Message)
      → (continue
          (λ challenger.
            try_except
              (transmit R (to_agent R agent_url (rpc_payload R task_id challenger))
                >>= conclude R check a now)
              (challenge_handler R))
          x).0
        ≡ ok (p, true, m)
      → (check ≡ true)
        × IsGenuine R p
            (continue
              (λ challenger. transmit R (to_agent R agent_url (rpc_payload R task_id challenger)))
              x).1
  sent-IsGenuine agent_url task_id check a now (raised e, w) p m h = cc
  sent-IsGenuine agent_url task_id check a now (ok challenger, w) p m h =
      let answer : Result Response × World R =
        transmit R (to_agent R agent_url (rpc_payload R task_id challenger)) w in
      elim (handle-ok (challenge_handler R) (continue (conclude R check a now) answer) h) [
        | inl h' ↦
            let (response, _, h'') = continue-ok (conclude R check a now) answer h' in
            conclude-IsGenuine check a now response answer.1 p m h''
        | inr (e, _, h') ↦
            absurd (handler_raises e (continue (conclude R check a now) answer).1 (p, true, m) h')
      ]

  challenge_as-IsGenuine :
      (name system_id agent_url task_id : String) (check : Bool) (a : Option String)
      (now : DateTime) (w : World R) (p : StoredProof) (m : Message)
      → (challenge_as R name system_id agent_url task_id check a now w).0 ≡ ok (p, true, m)
      → (check ≡ true) × IsGenuine R p (answered name system_id agent_url task_id w)
  unfolding challenge_as
  challenge_as-IsGenuine name system_id agent_url task_id check a now w p m h =
      sent-IsGenuine agent_url task_id check a now (challenger_identity R name system_id w) p m h

  -- A challenge by a registered client that ends with `verified` true returns a genuine proof: in
  -- the world after the agent's answer, the proof's own content has the declared hashes, and the
  -- Exchange has a confirmed commit of the same two hashes for the proof's own system and task. With
  -- `verify` off no challenge ends so.
  pub challenge-IsGenuine :
      (agent_url task_id : String) (check : Bool) (a : Option String) (now : DateTime) (w : World R)
      (name system_id : String) (p : StoredProof) (m : Message)
      → first_entry w.client.registered_systems ≡ some (name, system_id)
      → (challenge R agent_url task_id check a now w).0 ≡ ok (p, true, m)
      → (check ≡ true) × IsGenuine R p (answered name system_id agent_url task_id w)
  unfolding challenge
  challenge-IsGenuine agent_url task_id check a now w name system_id p m first h =
      challenge_as-IsGenuine name system_id agent_url task_id check a now w p m
        (rw (first, challenge) at h)
