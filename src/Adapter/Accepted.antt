-- ===== src/Adapter/Accepted.antt =====
-- What an adapter serves, a challenger accepts.
use atp_python.Base.{◌≡◌, refl, sym, ap, String, none, some, true, false}
use atp_python.Python.Exceptions.{ok}
use atp_python.Python.Json.{Json, str}
use atp_python.Python.DateTime.{DateTime, is_before, shift_seconds}
use atp_python.Models.{Commit, confirmed, StoredProof}
use atp_python.Wire.{Runtime}
use atp_python.Wire.RawProof.{read_task}
use atp_python.Wire.Records.{text_of}
use atp_python.Client.{World}
use atp_python.Client.Queries.{get_commit_by_system_and_task}
use atp_python.Client.Challenge.{verify, system_id_of, verified_and_confirmed}
use atp_python.Task.{type_of}
use atp_python.Gather.Reading.{raw_of}
use atp_python.Upstream.{check_proof}
use atp_python.Upstream.Verdicts.{IsSound}
use atp_python.Upstream.Complete.{check_proof-true}
use atp_python.Adapter.{
  Adapter, Completion, completion_sketch, kept_uri, text_or_none, on_task_complete, on_challenge,
}
use atp_python.Adapter.Served.{proof_of, proof_of-verified, on_challenge-on_task_complete}

module _ (R : Runtime) where
  -- If the dump of the proof can be read as its task, and the Exchange, asked in the world `w`,
  -- returns a confirmed commit of the sketch's hashes for the system that the adapter's URI ends
  -- with, then what the adapter answers to the challenge for a completed task, until the proof
  -- expires, is found verified and confirmed in that world, both by `challenge_and_verify` in the dump
  -- and by `_verify` in the proof itself.
  pub on_challenge-accepted :
      (c : Completion) (now later checked : DateTime) (s : Adapter R) (id deps : String)
      (expiry : DateTime) (w : World R) (commit : Commit)
      → text_or_none s.system_id ≡ some id
      → shift_seconds now s.config.proof_ttl_seconds ≡ ok expiry
      → is_before expiry later ≡ ok false
      → read_task (R.dump_stored_proof (proof_of R c s id now expiry))
        ≡ ok (raw_of (proof_of R c s id now expiry).proof_data.task)
      → (get_commit_by_system_and_task R
          (system_id_of (kept_uri s.config s.system_uri id))
          c.task_id
          w).0
        ≡ ok commit
      → commit.proof_sketch.cryptography
        ≡ (completion_sketch R.sha256 c
            (kept_uri s.config s.system_uri id)
            (type_of s.world.client id)
            deps
            now).cryptography
      → commit.status ≡ confirmed
      → (answer : Json) × ((on_challenge R c.task_id later (on_task_complete R c now s).1).0
          ≡ ok answer)
        × ((check_proof R none none checked answer w).0 ≡ ok (answer, true, verified_and_confirmed))
        × ((verify R (proof_of R c s id now expiry) w).0 ≡ ok (true, verified_and_confirmed))
  unfolding text_of
  on_challenge-accepted c now later checked s id deps expiry w commit known lives fresh dump fetched
        hashes status =
      let p : StoredProof = proof_of R c s id now expiry in
      let sound : IsSound R (R.dump_stored_proof p) none none w = record {
        task = raw_of p.proof_data.task;
        read = dump;
        invocation_hash = refl;
        outcome_hash = refl;
        commit = commit;
        fetched = fetched;
        same_invocation = sym (ap (λ k. str k.invocation_hash) hashes);
        same_outcome = sym (ap (λ k. str k.outcome_hash) hashes);
        is_confirmed = status;
        expected_invocation = refl;
        expected_outcome = refl;
      } in
      (
        R.dump_stored_proof p,
        on_challenge-on_task_complete R c now later s id expiry known lives fresh,
        check_proof-true R none none checked (R.dump_stored_proof p) w sound,
        proof_of-verified R c now s id deps expiry w commit fetched hashes status,
      )
