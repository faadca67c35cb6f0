-- ===== src/Gather/Malformed.antt =====
-- How `pre_challenge_dependencies` ends: a malformed dict ends it, and nothing else does.
use atp_python.Base.{
  ◌≡◌, refl, sym, ◌∙◌, ap, ℕ, suc, String, Option, none, some, List, [], ◌∷◌, ◌++◌, Every,
}
use atp_python.Python.Exceptions.{Exception, Result, ok, raised, ok_injective}
use atp_python.Python.Exec.{Exec, pure, handle, continue}
use atp_python.Python.DateTime.{DateTime}
use atp_python.Models.{Dependency}
use atp_python.Wire.{Runtime}
use atp_python.Gather.{
  Declared, declared, Gathering, challenge_one, with_url, turn, pre_challenge_dependencies,
}

handled-tt {ℓ} : {S : Type ℓ} (x : Result (Unit {0}) × S) → (handle (λ e. pure tt) x).0 ≡ ok tt
handled-tt (ok a, s) = refl
handled-tt (raised e, s) = refl

module _ (R : Runtime) where
  -- An object, or a dict that is a dependency
  unfoldable pub WellFormed : Declared → Type 0
  WellFormed entry = (d : Dependency) × (declared R entry ≡ ok d)

  with_url-ok :
      (now : DateTime) (url : Option String) (task_id : String) (s : Gathering R)
      → (with_url R url task_id now s).0 ≡ ok tt
  unfolding challenge_one
  with_url-ok now none task_id s = refl
  with_url-ok now (some String.[]) task_id s = refl
  with_url-ok now (some (String.◌∷◌ c t)) String.[] s = refl
  with_url-ok now (some (String.◌∷◌ c t)) (String.◌∷◌ b u) s = handled-tt _

  continue-same {ℓ κ} :
      {S : Type ℓ} {A : Type κ} {B : Type 0} (f : A → Exec S B) (x : Result A × S) (a : A)
      → x.0 ≡ ok a
      → continue f x ≡ f a x.1
  continue-same f (ok b, s) a h = ap (λ c. f c s) (ok_injective h)
  continue-same f (raised e, s) a h = cc

  -- One turn, of an entry that is well formed
  pub step :
      (clock : ℕ → DateTime) (i : ℕ) (entry : Declared) (entries : List Declared) (s : Gathering R)
      (d : Dependency)
      → declared R entry ≡ ok d
      → pre_challenge_dependencies R clock i (entry ∷ entries) s
        ≡ pre_challenge_dependencies R clock (suc i) entries (turn R (clock i) d s).1
  unfolding pre_challenge_dependencies turn
  step clock i entry entries s d h = rw h (
      continue-same (λ _. pre_challenge_dependencies R clock (suc i) entries) (turn R (clock i) d s)
        tt (with_url-ok (clock i) d.challenge_url d.task_id s))

  -- The number of the turn after the entries, which start with the `i`th.
  abbrev pub turn_after : ℕ → List Declared → ℕ
  turn_after i [] = i
  turn_after i (entry ∷ entries) = turn_after (suc i) entries

  -- Entries that are well formed are all gone through, whatever their challenges come to: the call
  -- returns, and with more entries behind them, well formed or not, it goes on as a call with these
  -- would that is made after it.
  pub pre_challenge_dependencies-append :
      (clock : ℕ → DateTime) (i : ℕ) (entries more : List Declared) (s : Gathering R)
      → Every WellFormed entries
      → ((pre_challenge_dependencies R clock i entries s).0 ≡ ok tt)
        × (pre_challenge_dependencies R clock i (entries ++ more) s
            ≡ pre_challenge_dependencies R clock
                (turn_after i entries)
                more
                (pre_challenge_dependencies R clock i entries s).1)
  unfolding pre_challenge_dependencies WellFormed
  pre_challenge_dependencies-append clock i [] more s h = (refl, refl)
  pre_challenge_dependencies-append clock i (entry ∷ entries) more s ((d, valid), h) =
      let t = (turn R (clock i) d s).1 in
      let first = step clock i entry entries s d valid in
      let (ends, others) = pre_challenge_dependencies-append clock (suc i) entries more t h in
      (
        ap (λ (x : Result (Unit {0}) × Gathering R). x.0) first ∙ ends,
        step clock i entry (entries ++ more) s d valid
            ∙ others
            ∙ ap
                (λ (x : Result (Unit {0}) × Gathering R).
                  pre_challenge_dependencies R clock (turn_after (suc i) entries) more x.1)
                (sym first),
      )

  -- A dict that is no dependency, after entries that are well formed, ends the call with its
  -- exception: what the entries before it appended stays, and the entries after it are not looked at.
  pub pre_challenge_dependencies-malformed :
      (clock : ℕ → DateTime) (i : ℕ) (entries : List Declared) (bad : Declared)
      (more : List Declared) (s : Gathering R) (e : Exception)
      → Every WellFormed entries
      → declared R bad ≡ raised e
      → pre_challenge_dependencies R clock i (entries ++ (bad ∷ more)) s
        ≡ (raised e, (pre_challenge_dependencies R clock i entries s).1)
  unfolding pre_challenge_dependencies WellFormed
  pre_challenge_dependencies-malformed clock i [] bad more s e h malformed = rw malformed refl
  pre_challenge_dependencies-malformed clock i (entry ∷ entries) bad more s e ((d, valid), h)
        malformed =
      step clock i entry (entries ++ (bad ∷ more)) s d valid
      ∙ pre_challenge_dependencies-malformed clock (suc i) entries bad more (turn R (clock i) d s).1
          e h malformed
      ∙ ap (λ (x : Result (Unit {0}) × Gathering R). (raised e, x.1))
          (sym (step clock i entry entries s d valid))
