-- ===== src/Gather/Origin.antt =====
-- What `pre_challenge_dependencies` appends, entry by entry.
use mathlib.Core.List.{append-nil, append_assoc}
use atp_python.Base.{◌≡◌, refl, sym, ap, subst, ◌∙◌, ℕ, suc, Option, List, [], ◌∷◌, ◌++◌}
use atp_python.Python.Exceptions.{Exception, Result, ok, raised}
use atp_python.Python.DateTime.{DateTime}
use atp_python.Models.{Dependency, ProofData}
use atp_python.Wire.{Runtime}
use atp_python.Gather.{Declared, declared, Gathering, turn, pre_challenge_dependencies}
use atp_python.Gather.Genuine.{IsAnswer, Exactly, Grown, none_or_one, turn-Grown}
use atp_python.Gather.Malformed.{step}

module _ (R : Runtime) (clock : ℕ → DateTime) where
  -- How a call goes through the entries from the `i`th on: how it ends, and the proofs it finds, in
  -- the order of the entries. Of one entry it finds the proof that its agent answered, or none where
  -- there is no such proof.
  pub data Gathers
      : ℕ → List Declared → Gathering R → Result (Unit {0}) → List ProofData → Type 0 where
    all_done : (i : ℕ) (s : Gathering R) → Gathers i [] s (ok tt) []
    stopped :
        (i : ℕ) (entry : Declared) (entries : List Declared) (s : Gathering R) (e : Exception)
        → declared R entry ≡ raised e
        → Gathers i (entry ∷ entries) s (raised e) []
    challenged :
        (i : ℕ) (entry : Declared) (entries : List Declared) (s : Gathering R) (d : Dependency)
        (found : Option ProofData) (r : Result (Unit {0})) (new : List ProofData)
        → declared R entry ≡ ok d
        → Exactly R (IsAnswer R (clock i) d s.world) found
        → Gathers (suc i) entries (turn R (clock i) d s).1 r new
        → Gathers i (entry ∷ entries) s r (none_or_one R found ++ new)

  Finds : ℕ → List Declared → Gathering R → Result (Unit {0}) × Gathering R → Type 0
  Finds i entries s x =
      (new : List ProofData) × (x.1.dependencies ≡ s.dependencies ++ new)
      × Gathers i entries s x.0 new

  entry-Finds :
      (i : ℕ) (entry : Declared) (entries : List Declared) (s : Gathering R) (r : Result Dependency)
      → declared R entry ≡ r
      → ((d : Dependency)
          → Finds
              (suc i)
              entries
              (turn R (clock i) d s).1
              (pre_challenge_dependencies R clock (suc i) entries (turn R (clock i) d s).1))
      → Finds i (entry ∷ entries) s (pre_challenge_dependencies R clock i (entry ∷ entries) s)
  unfolding Finds pre_challenge_dependencies Grown
  entry-Finds i entry entries s (raised e) read rest =
      rw read ([], sym (append-nil s.dependencies), stopped i entry entries s e read)
  entry-Finds i entry entries s (ok d) read rest =
      let t = (turn R (clock i) d s).1 in
      let (found, exactly, one) = turn-Grown R (clock i) d s in
      let (new, others, gathers) = rest d in
      subst (Finds i (entry ∷ entries) s) (sym (step R clock i entry entries s d read)) (
        none_or_one R found ++ new,
        others ∙ ap (λ l. l ++ new) one ∙ append_assoc s.dependencies (none_or_one R found) new,
        challenged i entry entries s d found _ new read exactly gathers,
      )

  -- However `pre_challenge_dependencies` ends, the agent's list is the old one with new proofs
  -- appended, found entry by entry and in the order of the entries: of each entry at most one. An
  -- entry gives the proof `p` exactly when it has a URL and a task id, the agent at the URL, asked for
  -- this task by the caller's first registered system when the entries before it were done, answered
  -- with a proof that is sound in the world after that answer, and `p` is read from this answer; it has
  -- the answer's texts, hashes, type and timestamp (or the clock's reading), the trust level "verified"
  -- and no dependencies of its own. The first entry that is no dependency ends the call with its
  -- exception; without one the call returns.
  pub pre_challenge_dependencies-Gathers :
      (i : ℕ) (entries : List Declared) (s : Gathering R)
      → (new : List ProofData) × ((pre_challenge_dependencies R clock i entries s).1.dependencies
          ≡ s.dependencies ++ new)
        × Gathers i entries s (pre_challenge_dependencies R clock i entries s).0 new
  unfolding Finds pre_challenge_dependencies Grown
  pre_challenge_dependencies-Gathers i [] s = ([], sym (append-nil s.dependencies), all_done i s)
  pre_challenge_dependencies-Gathers i (entry ∷ entries) s =
      entry-Finds i entry entries s (declared R entry) refl
        (λ d. pre_challenge_dependencies-Gathers (suc i) entries (turn R (clock i) d s).1)
