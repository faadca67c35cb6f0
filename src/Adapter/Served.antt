-- ===== src/Adapter/Served.antt =====
-- What an adapter serves to a challenger.
use atp_python.Base.{◌≡◌, refl, ap, ◌∙◌, String, some, false, true}
use atp_python.Python.Exceptions.{ok}
use atp_python.Client.Commits.{create_commit}
use atp_python.Python.Exec.{continue-pure}
use atp_python.Python.DateTime.{DateTime, is_before, shift_seconds}
use atp_python.Models.{Commit, confirmed, CommitResponse, ProofSketch, StoredProof}
use atp_python.Hashing.{compute_dependencies_hash, traverse}
use atp_python.Storage.Memory
use atp_python.Storage.Memory.Interface.{memory-ServesSaved}
use atp_python.Wire.{Runtime}
use atp_python.Client.{World}
use atp_python.Client.Queries.{get_commit_by_system_and_task}
use atp_python.Client.Challenge.{verify, system_id_of, verified_and_confirmed}
use atp_python.Client.Challenge.Genuine.{IsGenuine-verify}
use atp_python.Task.{type_of}
use atp_python.Adapter.{
  Adapter, Completion, in_world, in_store, receipt_of, completion_sketch, completion_proof,
  kept_uri, text_or_none, store_and_commit, on_task_complete, on_challenge,
}

module _ (R : Runtime) where
  -- The proof of a task, as an adapter with this registration makes it
  abbrev pub proof_of : Completion → Adapter R → String → DateTime → DateTime → StoredProof
  proof_of c s system_id now expiry =
      completion_proof R.sha256 c (kept_uri s.config s.system_uri system_id)
        (type_of s.world.client system_id) now expiry

  store_and_commit-store :
      (id task_id : String) (k : ProofSketch) (p : StoredProof) (s : Adapter R)
      → (store_and_commit R id task_id k p s).1.proof_store ≡ (Memory.save p s.proof_store).1
  unfolding Memory.save
  store_and_commit-store id task_id k p s =
      ap (λ (t : Adapter R). t.proof_store)
        (continue-pure (λ (c : CommitResponse). receipt_of task_id c)
          (in_world R (create_commit R id task_id k) (in_store R (Memory.save p) s).1))

  save_returns : (p : StoredProof) (t : Memory.MemoryStore) → (Memory.save p t).0 ≡ ok tt
  unfolding Memory.save
  save_returns p t = refl

  on_task_complete-store :
      (c : Completion) (now : DateTime) (s : Adapter R) (id : String) (expiry : DateTime)
      → text_or_none s.system_id ≡ some id
      → shift_seconds now s.config.proof_ttl_seconds ≡ ok expiry
      → (on_task_complete R c now s).1.proof_store
        ≡ (Memory.save (proof_of c s id now expiry) s.proof_store).1
  unfolding on_task_complete compute_dependencies_hash traverse
  on_task_complete-store c now s id expiry known lives =
      rw (known, lives) (store_and_commit-store id c.task_id _ (proof_of c s id now expiry) s)

  on_challenge-dump :
      (task_id : String) (now : DateTime) (s : Adapter R) (p : StoredProof)
      → (Memory.get task_id now s.proof_store).0 ≡ ok (some p)
      → (on_challenge R task_id now s).0 ≡ ok (R.dump_stored_proof p)
  unfolding on_challenge
  on_challenge-dump task_id now s p h = rw h refl

  -- Whether or not the Exchange takes the commit, an adapter that knows its system answers the
  -- challenge for a task that was just completed, until the proof expires, with the dump of the
  -- proof that was made of the query, the response and the artifacts.
  pub on_challenge-on_task_complete :
      (c : Completion) (now later : DateTime) (s : Adapter R) (id : String) (expiry : DateTime)
      → text_or_none s.system_id ≡ some id
      → shift_seconds now s.config.proof_ttl_seconds ≡ ok expiry
      → is_before expiry later ≡ ok false
      → (on_challenge R c.task_id later (on_task_complete R c now s).1).0
        ≡ ok (R.dump_stored_proof (proof_of c s id now expiry))
  on_challenge-on_task_complete c now later s id expiry known lives fresh =
      on_challenge-dump c.task_id later (on_task_complete R c now s).1 (proof_of c s id now expiry)
        (ap (λ t. (Memory.get c.task_id later t).0)
            (on_task_complete-store c now s id expiry known lives)
          ∙ memory-ServesSaved (proof_of c s id now expiry) later s.proof_store
              (save_returns (proof_of c s id now expiry) s.proof_store) fresh)

  -- `_verify` accepts the proof against a commit of its sketch.
  pub proof_of-verified :
      (c : Completion) (now : DateTime) (s : Adapter R) (id deps : String) (expiry : DateTime)
      (w : World R) (commit : Commit)
      → (get_commit_by_system_and_task R
          (system_id_of (kept_uri s.config s.system_uri id))
          c.task_id
          w).0
        ≡ ok commit
      → commit.proof_sketch.cryptography
        ≡ (completion_sketch R.sha256 c
            (kept_uri s.config s.system_uri id)
            (type_of s.world.client id)
            deps
            now).cryptography
      → commit.status ≡ confirmed
      → (verify R (proof_of c s id now expiry) w).0 ≡ ok (true, verified_and_confirmed)
  proof_of-verified c now s id deps expiry w commit fetched hashes status =
      IsGenuine-verify R (proof_of c s id now expiry) w record {
        invocation = refl;
        outcome = refl;
        commit = commit;
        fetched = fetched;
        same_invocation = ap (λ k. k.invocation_hash) hashes;
        same_outcome = ap (λ k. k.outcome_hash) hashes;
        is_confirmed = status;
      }
