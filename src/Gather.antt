-- ===== src/Gather.antt =====
-- `pre_challenge_dependencies` of atp/core/utils.py: the dependencies that a request declares are
-- challenged, one after the other, and what is verified is appended to the agent's list.
pub mod Reading
pub mod Vouched
pub mod Genuine
pub mod Malformed
pub mod Origin
use atp_python.Base.{
  ℕ, suc, String, Bool, true, false, Option, none, some, List, [], ◌∷◌, ◌++◌, ◌&&◌, if◌then◌else◌,
}
use atp_python.Python.Exceptions.{Result, ok, raised}
use atp_python.Python.Exec.{Exec, pure, lift, modify, continue, try_except, ◌>>=◌}
use atp_python.Python.Json.{Fields, truthy}
use atp_python.Python.DateTime.{DateTime}
use atp_python.Models.{Dependency, ProofData}
use atp_python.Wire.{Runtime}
use atp_python.Wire.Gathered.{gathered}
use atp_python.Client.{World}
use atp_python.Upstream.{Verdict, challenge_and_verify}

-- An entry of the request: an object, or a dict that is not checked yet.
pub data Declared : Type 0 where
  dependency : Dependency → Declared
  raw : Fields → Declared

module _ (R : Runtime) where
  -- The agent: the world of its client, and its list of dependencies.
  pub record Gathering : Type 0 where
    pub world : World R
    pub dependencies : List ProofData

  abbrev pub in_world {ℓ} : {A : Type ℓ} → Exec (World R) A → Exec Gathering A
  in_world m s = let (r, w) = m s.world in (r, record s { world = w })

  abbrev pub append : ProofData → Exec Gathering (Unit {0})
  append p = modify (λ s. record s { dependencies = s.dependencies ++ (p ∷ []) })

  -- `if verified and proof_dict`
  abbrev pub keep : DateTime → Verdict → Exec Gathering (Unit {0})
  keep now (proof, verified, message) =
      if verified && truthy proof then (do p ← lift (gathered R now proof); append p) else pure tt

  -- An entry that is challenged: no failure goes through.
  unfoldable pub challenge_one : String → String → DateTime → Exec Gathering (Unit {0})
  challenge_one url task_id now =
      try_except
        (do verdict ← in_world (challenge_and_verify R url task_id none none now); keep now verdict)
        (λ e. pure tt)

  abbrev with_task_id : String → String → DateTime → Exec Gathering (Unit {0})
  with_task_id url String.[] now = pure tt
  with_task_id url (String.◌∷◌ c s) now = challenge_one url (String.◌∷◌ c s) now

  -- An entry without a URL or without a task id is passed over.
  abbrev with_url : Option String → String → DateTime → Exec Gathering (Unit {0})
  with_url none task_id now = pure tt
  with_url (some String.[]) task_id now = pure tt
  with_url (some (String.◌∷◌ c s)) task_id now = with_task_id (String.◌∷◌ c s) task_id now

  unfoldable pub turn : DateTime → Dependency → Exec Gathering (Unit {0})
  turn now d = with_url d.challenge_url d.task_id now

  abbrev pub declared : Declared → Result Dependency
  declared (dependency d) = ok d
  declared (raw fs) = R.validate_dependency fs

  -- A dict that is no dependency ends the loop: it is checked outside the `try`. The clock is read in
  -- every turn.
  unfoldable pub pre_challenge_dependencies :
      (ℕ → DateTime) → ℕ → List Declared → Exec Gathering (Unit {0})
  unfolding turn
  pre_challenge_dependencies clock i [] = pure tt
  pre_challenge_dependencies clock i (entry ∷ entries) =
      let rest = pre_challenge_dependencies clock (suc i) entries in
      do d ← lift (declared entry); _ ← turn (clock i) d; rest
