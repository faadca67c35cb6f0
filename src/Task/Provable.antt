-- ===== src/Task/Provable.antt =====
-- What `_commit` leaves: a proof that the agent can serve, of the hashes that it committed.
use Prim.Native.Char.{Char}
use text.Mathlib.TextLemmas.{append_assoc}
use atp_python.Base.{
  ◌≡◌, refl, sym, ap, ap₂, ◌∙◌, subst, map, String, ◌<>◌, true, false, Option, none, some,
}
use atp_python.Base.Texts.{Lacks, append_one, last_segment-rstrip}
use atp_python.Python.Exceptions.{ok, ok_injective, bind_returned}
use atp_python.Python.Exec.{Exec, continue, continue-ok, continue-post, modify, ◌>>◌}
use atp_python.Python.DateTime.{DateTime, is_before, shift_seconds}
use atp_python.Models.{Commit, confirmed}
use atp_python.Hashing.{compute_dependencies_hash, model}
use atp_python.Storage.{ProofStore, ServesSaved}
use atp_python.Wire.{Runtime}
use atp_python.Client.{Client, ClientConfig, or_text, World}
use atp_python.Client.Commits.{create_commit}
use atp_python.Client.Queries.{get_commit_by_system_and_task}
use atp_python.Client.Reports.{first_entry}
use atp_python.Client.Challenge.{verify, system_id_of, verified_and_confirmed}
use atp_python.Client.Challenge.Genuine.{IsGenuine-verify}
use atp_python.Task.{Task, Draft, draft, registered_system, named_system, drafted, uri_of}
use atp_python.Task.Publish.{Agent, commit, publish, commit_response, in_store, in_world}

module _ (R : Runtime) (P : ProofStore) where
  pub commit_new :
      (now : DateTime) (s : Agent R P) (c : Char) (text : String)
      → s.task.committed ≡ false
      → s.task.response ≡ some (String.◌∷◌ c text)
      → commit R P now s
        ≡ continue (publish R P) (draft R.sha256 s.world.client s.task (String.◌∷◌ c text) now, s)
  unfolding commit
  commit_new now s c text new answered = ap₂ (λ b r. commit_response R P b r now s) new answered

  pub publish-store :
      (d : Draft) (s : Agent R P)
      → (publish R P d s).0 ≡ ok tt
      → ((P.save d.stored s.store).0 ≡ ok tt)
        × ((publish R P d s).1.store ≡ (P.save d.stored s.store).1)
        × ((publish R P d s).1.task.committed ≡ true)
  publish-store d s h =
      let Done = λ (_ : Unit {0}) (t : Agent R P).
        (t.store ≡ (P.save d.stored s.store).1) × (t.task.committed ≡ true) in
      let mark : Unit {0} → Exec (Agent R P) (Unit {0}) =
        λ _. modify (λ t. record t { task = record (t.task) { committed = true } }) in
      let send = create_commit R d.system_id d.stored.proof_data.task.task_id d.sketch in
      let (_, saved, h') =
        continue-ok (λ _. in_world R P send >> (mark tt)) (in_store R P (P.save d.stored) s) h in
      let (same, marked) =
        continue-post Done (λ _. in_world R P send >> mark tt) (in_store R P (P.save d.stored) s)
          (λ _.
            continue-post Done (λ _. mark tt)
              (in_world R P send (in_store R P (P.save d.stored) s).1) λ _ _ _. (refl, refl))
          tt h in
      (saved, same, marked)

  draft_inv :
      (client : Client) (t : Task) (text : String) (now : DateTime) (d : Draft)
      → draft R.sha256 client t text now ≡ ok d
      → (system_id : String) × (deps : String) × (expiry : DateTime) × (registered_system client
          ≡ ok system_id)
        × (drafted R.sha256 client t text now system_id deps expiry ≡ d)
  unfolding draft
  draft_inv client t text now d h =
      let (system_id, found, h1) = bind_returned (registered_system client) _ h in
      let (deps, _, h2) =
        bind_returned (compute_dependencies_hash R.sha256 (some (map model t.dependencies))) _ h1 in
      let (expiry, _, h3) = bind_returned (shift_seconds now t.config.proof_ttl_seconds) _ h2 in
      (system_id, deps, expiry, found, ok_injective h3)

  draft_key :
      (client : Client) (t : Task) (text : String) (now : DateTime) (d : Draft)
      → draft R.sha256 client t text now ≡ ok d
      → d.stored.proof_data.task.task_id ≡ t.atp_task_id
  draft_key client t text now d h =
      let (_, _, _, _, drawn) = draft_inv client t text now d h in
      sym (ap (λ (e : Draft). e.stored.proof_data.task.task_id) drawn)

  -- When `_commit` returns for a task that has a response and is not committed, the task is marked,
  -- and the store, if it serves what was just saved, serves the drafted proof under the task's id
  -- until it expires.
  pub commit_served :
      (serves : ServesSaved P) (now later : DateTime) (s : Agent R P) (c : Char) (text : String)
      (d : Draft)
      → s.task.committed ≡ false
      → s.task.response ≡ some (String.◌∷◌ c text)
      → draft R.sha256 s.world.client s.task (String.◌∷◌ c text) now ≡ ok d
      → (commit R P now s).0 ≡ ok tt
      → is_before d.stored.expires_at later ≡ ok false
      → ((commit R P now s).1.task.committed ≡ true)
        × ((P.get s.task.atp_task_id later (commit R P now s).1.store).0 ≡ ok (some d.stored))
  commit_served serves now later s c text d new answered drawn returned fresh =
      let steps : commit R P now s ≡ publish R P d s =
        commit_new now s c text new answered ∙ ap (λ r. continue (publish R P) (r, s)) drawn in
      let (saved, same, marked) = publish-store d s (subst (λ x. x.0 ≡ ok tt) steps returned) in
      (
        ap (λ x. x.1.task.committed) steps ∙ marked,
        ap₂ (λ k st. (P.get k later st).0)
              (sym (draft_key s.world.client s.task (String.◌∷◌ c text) now d drawn))
              (ap (λ x. x.1.store) steps ∙ same)
            ∙ serves d.stored later s.store saved fresh,
      )

  named_system_nonempty :
      (o : Option (String × String)) (id : String)
      → named_system o ≡ ok id
      → (c : Char) × (s : String) × (String.◌∷◌ c s ≡ id)
  named_system_nonempty none id h = cc
  named_system_nonempty (some (_, String.[])) id h = cc
  named_system_nonempty (some (_, String.◌∷◌ c s)) id h = (c, s, ok_injective h)

  system_id_of-uri_of :
      (config : ClientConfig) (c : Char) (s : String)
      → Lacks b'/' (String.◌∷◌ c s)
      → system_id_of (uri_of config (String.◌∷◌ c s)) ≡ String.◌∷◌ c s
  unfolding system_id_of
  system_id_of-uri_of config c s plain =
      let host = or_text config.exchange_url "http://localhost:8080" in
      let id = String.◌∷◌ c s in
      ap system_id_of (
        ap (λ u. host <> u) (append_assoc "/systems" "/" id)
        ∙ sym (append_assoc host "/systems" ("/" <> id))
        ∙ ap (λ u. (host <> "/systems") <> u) (append_one "/" id))
      ∙ last_segment-rstrip "/" (host <> "/systems") c s plain

  system_id_of-registered :
      (client : Client) (config : ClientConfig) (id : String)
      → registered_system client ≡ ok id
      → Lacks b'/' id
      → system_id_of (uri_of config id) ≡ id
  unfolding registered_system
  system_id_of-registered client config id found plain =
      let (c, s, cons) = named_system_nonempty (first_entry client.registered_systems) id found in
      subst (λ k. system_id_of (uri_of config k) ≡ k) cons
        (system_id_of-uri_of config c s (subst (Lacks b'/') (sym cons) plain))

  -- A drafted proof of a system whose id has no slash is verified, and confirmed, in every world in
  -- which the Exchange returns, for that system and task, a confirmed commit of the drafted sketch's
  -- hashes.
  pub draft_verified :
      (client : Client) (t : Task) (text : String) (now : DateTime) (d : Draft) (w : World R)
      (c : Commit)
      → draft R.sha256 client t text now ≡ ok d
      → Lacks b'/' d.system_id
      → (get_commit_by_system_and_task R d.system_id t.atp_task_id w).0 ≡ ok c
      → c.proof_sketch.cryptography ≡ d.sketch.cryptography
      → c.status ≡ confirmed
      → (verify R d.stored w).0 ≡ ok (true, verified_and_confirmed)
  draft_verified client t text now d w c h plain fetched hashes status =
      let (id, deps, expiry, found, drawn) = draft_inv client t text now d h in
      subst (λ (d : Draft). (verify R d.stored w).0 ≡ ok (true, verified_and_confirmed)) drawn
        (IsGenuine-verify R (drafted R.sha256 client t text now id deps expiry).stored w record {
          invocation = refl;
          outcome = refl;
          commit = c;
          fetched =
              subst (λ k. (get_commit_by_system_and_task R k t.atp_task_id w).0 ≡ ok c)
                (ap (λ (e : Draft). e.system_id) (sym drawn)
                  ∙ sym (
                      system_id_of-registered client t.config id found
                        (subst (λ (e : Draft). Lacks b'/' e.system_id) (sym drawn) plain)))
                fetched;
          same_invocation =
              ap (λ k. k.invocation_hash) hashes
              ∙ sym (ap (λ (e : Draft). e.sketch.cryptography.invocation_hash) drawn);
          same_outcome =
              ap (λ k. k.outcome_hash) hashes
              ∙ sym (ap (λ (e : Draft). e.sketch.cryptography.outcome_hash) drawn);
          is_confirmed = status;
        })
