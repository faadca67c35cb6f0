-- ===== src/Upstream/Verdicts.antt =====
-- What a verdict of `challenge_and_verify` rests on.
use atp_python.Base.{
  ◌≡◌, refl, sym, ap, subst, String, eq_iff, true, false, false≢true, Option, inl, inr,
}
use atp_python.Python.Exceptions.{Result, ok, ok_injective}
use atp_python.Python.Exec.{pure, continue, continue-ok, handle-ok, quietly-ok, guards-post, ◌>>=◌}
use atp_python.Python.Json.{Json, str}
use atp_python.Python.DateTime.{DateTime}
use atp_python.Models.{Commit, CommitStatus, confirmed, failed, compromised, verified}
use atp_python.Hashing.{hash_with_prefix}
use atp_python.Wire.{Runtime}
use atp_python.Wire.Records.{text_of}
use atp_python.Wire.RawProof.{RawTask, read_task, is_text}
use atp_python.Client.{World}
use atp_python.Client.Reports.{report_assessment}
use atp_python.Client.Queries.{get_commit_by_system_and_task}
use atp_python.Client.Challenge.{
  Message, system_id_of, exchange_failed, exchange_invocation_mismatch, exchange_outcome_mismatch,
  invocation_content_mismatch, outcome_content_mismatch, unexpected_state, invocation_hash_mismatch,
  outcome_hash_mismatch,
}
use atp_python.Upstream.{
  Verdict, by_status, integrity_of, flag, Compared, agreed, ended, compare_hashes, ask_exchange,
  agrees, settle, check_task,
}

pub str_injective : {s t : String} → str s ≡ str t → s ≡ t
str_injective e = cc

pub is_text_refl : (h : String) (v : Json) → v ≡ str h → is_text h v ≡ true
is_text_refl h (str t) e = (eq_iff h t).1 (sym (str_injective e))
is_text_refl h Json.null e = cc
is_text_refl h (Json.bool b) e = cc
is_text_refl h (Json.int n) e = cc
is_text_refl h (Json.arr vs) e = cc
is_text_refl h (Json.obj fs) e = cc

pub is_text_eq : (h : String) (v : Json) → is_text h v ≡ true → v ≡ str h
is_text_eq h (str t) e = ap str (sym ((eq_iff h t).0 e))
is_text_eq h (Json.null) e = cc
is_text_eq h (Json.bool b) e = cc
is_text_eq h (Json.int n) e = cc
is_text_eq h (Json.arr vs) e = cc
is_text_eq h (Json.obj fs) e = cc

module _ (R : Runtime) where
  -- The proof, as it was sent, has a task whose content has the declared hashes and is what was
  -- expected, and the Exchange, asked in the world `w`, has a confirmed commit of the same hashes.
  pub record IsSound (sent : Json) (invocation outcome : Option Json) (w : World R) : Type 0 where
    pub task : RawTask
    pub read : read_task sent ≡ ok task
    pub invocation_hash : task.invocation_hash ≡ str (hash_with_prefix R.sha256 task.invocation)
    pub outcome_hash : task.outcome_hash ≡ str (hash_with_prefix R.sha256 task.outcome)
    pub commit : Commit
    pub fetched :
        (get_commit_by_system_and_task R
          (system_id_of task.system_uri)
          (text_of R task.task_id)
          w).0
        ≡ ok commit
    pub same_invocation :
        task.invocation_hash ≡ str commit.proof_sketch.cryptography.invocation_hash
    pub same_outcome : task.outcome_hash ≡ str commit.proof_sketch.cryptography.outcome_hash
    pub is_confirmed : commit.status ≡ confirmed
    pub expected_invocation : agrees invocation task.invocation ≡ true
    pub expected_outcome : agrees outcome task.outcome ≡ true

  module _ (sent : Json) where
    -- A verdict is about what was sent, and a true one rests on `A`.
    unfoldable pub Holds : Type 0 → Verdict → Type 0
    Holds A v = (v.0 ≡ sent) × (v.1 ≡ true → A)

    pub refusal-Holds : (A : Type 0) (why : Message) → Holds A (sent, false, why)
    unfolding Holds
    refusal-Holds A why = (refl, λ e. absurd (false≢true e))

    module _ (task : RawTask) (now : DateTime) where
      flag-Holds :
          (A : Type 0) (why : Message) (w : World R) (v : Verdict)
          → (flag R sent task now why w).0 ≡ ok v
          → Holds A v
      flag-Holds A why w v h =
          subst (Holds A)
            (quietly-ok (report_assessment R (integrity_of R task now compromised) w) h)
            (refusal-Holds A why)

      -- What a comparison with the commit, if there is one, has found.
      Fits : Result Commit → Compared → Type 0
      Fits found (ended v) = Holds ⊥ v
      Fits found (agreed c) =
          (found ≡ ok c)
          × (task.invocation_hash ≡ str c.proof_sketch.cryptography.invocation_hash)
          × (task.outcome_hash ≡ str c.proof_sketch.cryptography.outcome_hash)

      flag-Fits :
          (found : Result Commit) (why : Message) (w : World R) (c : Compared)
          → ((flag R sent task now why >>= λ v. pure (ended v)) w).0 ≡ ok c
          → Fits found c
      unfolding Fits
      flag-Fits found why w c h =
          let (v, h', e) = continue-ok (λ v. pure (ended v)) (flag R sent task now why w) h in
          subst (Fits found) (ok_injective e) (flag-Holds ⊥ why w v h')

      compare_hashes-Fits :
          (commit : Commit) (w : World R) (c : Compared)
          → (compare_hashes R sent task now commit w).0 ≡ ok c
          → Fits (ok commit) c
      unfolding Fits
      compare_hashes-Fits commit w c =
          let keys = commit.proof_sketch.cryptography in
          let stop : Message → World R → Result Compared × World R =
            λ why. flag R sent task now why >>= λ v. pure (ended v) in
          guards-post (Fits (ok commit)) (is_text keys.invocation_hash task.invocation_hash)
            (is_text keys.outcome_hash task.outcome_hash) (stop exchange_invocation_mismatch)
            (stop exchange_outcome_mismatch) (pure (agreed commit)) w c
            (flag-Fits (ok commit) exchange_invocation_mismatch w c)
            (flag-Fits (ok commit) exchange_outcome_mismatch w c)
            (λ same same' h. subst (Fits (ok commit)) (ok_injective h) (
              refl,
              is_text_eq keys.invocation_hash task.invocation_hash same,
              is_text_eq keys.outcome_hash task.outcome_hash same',
            ))

      -- The commit that the Exchange has for the task.
      abbrev asked : World R → Result Commit × World R
      asked w =
          get_commit_by_system_and_task R (system_id_of task.system_uri) (text_of R task.task_id) w

      ask_exchange-Fits :
          (w : World R) (c : Compared)
          → (ask_exchange R sent task now w).0 ≡ ok c
          → Fits (asked w).0 c
      unfolding Fits ask_exchange
      ask_exchange-Fits w c h =
          elim (handle-ok _ (continue (compare_hashes R sent task now) (asked w)) h) [
            | inl h' ↦
                let (commit, found, h'') =
                  continue-ok (compare_hashes R sent task now) (asked w) h' in
                subst (λ r. Fits r c) (sym found) (compare_hashes-Fits commit (asked w).1 c h'')
            | inr (e, _, h') ↦
                subst (Fits (asked w).0) (ok_injective h') (refusal-Holds ⊥ (exchange_failed e))
          ]

      -- What is found and agrees with what was expected, if the verdict is true
      IsSettled : Option Json → Option Json → Result Commit → Type 0
      IsSettled invocation outcome found =
          (c : Commit) × Fits found (agreed c)
          × (agrees invocation task.invocation ≡ true)
          × (agrees outcome task.outcome ≡ true)
          × (c.status ≡ confirmed)

      by_status-Holds :
          (A : Type 0) (s : CommitStatus) (w : World R) (v : Verdict)
          → (s ≡ confirmed → A)
          → (by_status R sent task now s w).0 ≡ ok v
          → Holds A v
      unfolding Holds
      by_status-Holds A confirmed w v rests h =
          subst (Holds A) (quietly-ok (report_assessment R (integrity_of R task now verified) w) h)
            (refl, λ _. rests refl)
      by_status-Holds A failed w v rests h =
          subst (Holds A) (ok_injective h) (refusal-Holds A (unexpected_state failed))

      module _ (invocation outcome : Option Json) where
        settle-Holds :
            (found : Result Commit) (w : World R) (c : Compared) (v : Verdict)
            → Fits found c
            → (settle R sent task invocation outcome now c w).0 ≡ ok v
            → Holds (IsSettled invocation outcome found) v
        unfolding Holds Fits settle IsSettled
        settle-Holds found w (ended u) v (about, never) h =
            subst (Holds (IsSettled invocation outcome found)) (ok_injective h)
              (about, λ e. absurd (never e))
        settle-Holds found w (agreed c) v fits h =
            let A = IsSettled invocation outcome found in
            let stop : Message → World R → Result Verdict × World R = flag R sent task now in
            guards-post (Holds A) (agrees invocation task.invocation) (agrees outcome task.outcome)
              (stop (invocation_content_mismatch task.invocation))
              (stop (outcome_content_mismatch task.outcome)) (by_status R sent task now c.status) w
              v (flag-Holds A (invocation_content_mismatch task.invocation) w v)
              (flag-Holds A (outcome_content_mismatch task.outcome) w v)
              (λ same same'. by_status-Holds A c.status w v (λ done. (c, fits, same, same', done)))
              h

        -- The check of a task that was read.
        pub check_task-IsSound :
            (w : World R) (v : Verdict)
            → read_task sent ≡ ok task
            → (check_task R sent task invocation outcome now w).0 ≡ ok v
            → Holds (IsSound sent invocation outcome w) v
        unfolding check_task Holds IsSettled Fits
        check_task-IsSound w v read =
            let A = IsSound sent invocation outcome w in
            let stop : Message → World R → Result Verdict × World R = flag R sent task now in
            let ask : World R → Result Compared × World R = ask_exchange R sent task now in
            let decide : Compared → World R → Result Verdict × World R =
              settle R sent task invocation outcome now in
            guards-post (Holds A)
              (is_text (hash_with_prefix R.sha256 task.invocation) task.invocation_hash)
              (is_text (hash_with_prefix R.sha256 task.outcome) task.outcome_hash)
              (stop invocation_hash_mismatch) (stop outcome_hash_mismatch) (ask >>= decide) w v
              (flag-Holds A invocation_hash_mismatch w v) (flag-Holds A outcome_hash_mismatch w v)
              (λ same same' h.
                let (c, asked', h') = continue-ok decide (ask w) h in
                let (about, rests) =
                  settle-Holds (asked w).0 (ask w).1 c v (ask_exchange-Fits w c asked') h' in
                (
                  about,
                  λ e.
                      let (commit, (found, inv, out), inv', out', done) = rests e in
                      record {
                        task = task;
                        read = read;
                        invocation_hash = is_text_eq _ task.invocation_hash same;
                        outcome_hash = is_text_eq _ task.outcome_hash same';
                        commit = commit;
                        fetched = found;
                        same_invocation = inv;
                        same_outcome = out;
                        is_confirmed = done;
                        expected_invocation = inv';
                        expected_outcome = out';
                      },
                ))
