-- ===== src/Adapter/Enrolled.antt =====
-- What an adapter knows after `register`, and what follows for its tasks.
use atp_python.Base.{◌≡◌, refl, ap, ◌∙◌, ℕ, String, Option, some, false}
use atp_python.Python.Exceptions.{Exception, Result, ok, raised, runtime_error, ok_injective}
use atp_python.Python.Exec.{continue}
use atp_python.Python.DateTime.{DateTime, is_before, shift_seconds}
use atp_python.Models.{SystemRegistration}
use atp_python.Wire.{Runtime}
use atp_python.Client.{ClientConfig, register_system}
use atp_python.Task.{type_of}
use atp_python.Adapter.{
  Adapter, Enrolment, Registered, Completion, new_adapter, in_world, registration_of, note,
  register, completion_proof, on_task_complete, on_challenge, text_or_none, kept_uri,
}
use atp_python.Adapter.Served.{on_challenge-on_task_complete}

module _ (R : Runtime) where
  noted :
      (x : Result SystemRegistration × Adapter R) (r : Registered)
      → (continue (note R) x).0 ≡ ok r
      → ((continue (note R) x).1.system_id ≡ some r.system_id)
        × ((continue (note R) x).1.system_uri ≡ some r.system_uri)
  noted (ok g, s) r h = (
    ap (λ (q : Registered). some q.system_id) (ok_injective h),
    ap (λ (q : Registered). some q.system_uri) (ok_injective h),
  )
  noted (raised e, s) r h = cc

  kept_uri-known :
      (config : ClientConfig) (uri : Option String) (id u : String)
      → text_or_none uri ≡ some u
      → kept_uri config uri id ≡ u
  kept_uri-known config uri id u h = rw (h, kept_uri) refl

  kept :
      (x : Result SystemRegistration × Adapter R) (e : Exception)
      → (continue (note R) x).0 ≡ raised e
      → (continue (note R) x).1.system_id ≡ x.1.system_id
  kept (ok g, s) e h = cc
  kept (raised d, s) e h = refl

  register-noted :
      (e : Enrolment) (t : DateTime) (s : Adapter R) (r : Registered)
      → (register R e t s).0 ≡ ok r
      → ((register R e t s).1.system_id ≡ some r.system_id)
        × ((register R e t s).1.system_uri ≡ some r.system_uri)
  unfolding register
  register-noted e t s r h = noted (in_world R (register_system R (registration_of R e) t) s) r h

  -- An adapter that has registered, under an id and a URI that are not empty, answers the challenge
  -- for a task that it completes, until the proof expires, with a proof that names the system by the
  -- URI that this call of `register` returned.
  pub on_challenge-register :
      (e : Enrolment) (t : DateTime) (s : Adapter R) (r : Registered) (c : Completion)
      (now later expiry : DateTime)
      → (register R e t s).0 ≡ ok r
      → text_or_none (some r.system_id) ≡ some r.system_id
      → text_or_none (some r.system_uri) ≡ some r.system_uri
      → shift_seconds now (register R e t s).1.config.proof_ttl_seconds ≡ ok expiry
      → is_before expiry later ≡ ok false
      → (on_challenge R c.task_id later (on_task_complete R c now (register R e t s).1).1).0
        ≡ ok (
            R.dump_stored_proof (
              completion_proof R.sha256 c r.system_uri
                (type_of (register R e t s).1.world.client r.system_id)
                now
                expiry))
  on_challenge-register e t s r c now later expiry h id uri lives fresh =
      let (noted_id, noted_uri) = register-noted e t s r h in
      let s' = (register R e t s).1 in
      on_challenge-on_task_complete R c now later s' r.system_id expiry
        (ap text_or_none noted_id ∙ id) lives fresh
      ∙ ap
          (λ u. ok (
            R.dump_stored_proof
              (completion_proof R.sha256 c u (type_of s'.world.client r.system_id) now expiry)))
          (kept_uri-known s'.config s'.system_uri r.system_id r.system_uri
            (ap text_or_none noted_uri ∙ uri))

  register-kept :
      (e : Enrolment) (t : DateTime) (s : Adapter R) (x : Exception)
      → (register R e t s).0 ≡ raised x
      → (register R e t s).1.system_id ≡ s.system_id
  unfolding register
  register-kept e t s x h = kept (in_world R (register_system R (registration_of R e) t) s) x h

  -- After a registration that failed, a new adapter refuses every task with RuntimeError: nothing is
  -- stored and nothing is sent.
  on_task_complete-unregistered :
      (config : ClientConfig) (loop : Option ℕ) (net : R.Net) (e : Enrolment) (t now : DateTime)
      (x : Exception) (c : Completion)
      → (register R e t (new_adapter R config loop net)).0 ≡ raised x
      → on_task_complete R c now (register R e t (new_adapter R config loop net)).1
        ≡ (raised runtime_error, (register R e t (new_adapter R config loop net)).1)
  unfolding on_task_complete
  on_task_complete-unregistered config loop net e t now x c h =
      rw (register-kept e t (new_adapter R config loop net) x h) refl
