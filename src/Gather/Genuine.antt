-- ===== src/Gather/Genuine.antt =====
-- What one entry of `pre_challenge_dependencies` appends: at most one proof, which its agent answered.
use atp_python.Base.{
  ◌≡◌, ◌≢◌, refl, sym, ap, subst, ◌∙◌, String, Bool, true, false, false≢true, Option, none, some,
  List, [], ◌∷◌, ◌++◌,
}
use mathlib.Core.List.{append-nil}
use text.Mathlib.TextLemmas.{cons≢nil}
use atp_python.Python.Exceptions.{Result, ok, raised, ok_injective, raised≢ok}
use atp_python.Python.Exec.{pure, continue, handle, handle-quiet}
use atp_python.Python.Json.{Json, truthy}
use atp_python.Python.DateTime.{DateTime}
use atp_python.Models.{ProofData, Dependency}
use atp_python.Wire.{Runtime}
use atp_python.Wire.RawProof.{raw_task}
use atp_python.Wire.Gathered.{gathered}
use atp_python.Client.{World}
use atp_python.Client.Challenge.{Message}
use atp_python.Upstream.{replied, Verdict, challenge_and_verify}
use atp_python.Upstream.Verdicts.{IsSound}
use atp_python.Upstream.Soundness.{ask_agent}
use atp_python.Gather.{Gathering, append, keep, challenge_one, with_url, turn}
use atp_python.Upstream.Complete.{challenge_and_verify_iff}
use atp_python.Client.Reports.{first_entry}
use atp_python.Gather.Reading.{IsLabelled, gathered-read}
use atp_python.Gather.Vouched.{IsVouched, sound-IsVouched}

some_injective : {s t : String} → some s ≡ some t → s ≡ t
some_injective e = cc

some≢none : {s : String} → some s ≢ none
some≢none e = cc

module _ (R : Runtime) where
  -- The entry has a URL and a task id, the agent at the URL was asked for the task in the world `w` by
  -- the caller's first registered system, and `p` is read from what it answered, which is sound.
  pub record IsAnswer (now : DateTime) (d : Dependency) (w : World R) (p : ProofData) : Type 0 where
    pub url : String
    pub at_url : d.challenge_url ≡ some url
    pub has_url : url ≢ ""
    pub has_task_id : d.task_id ≢ ""
    pub name : String
    pub system_id : String
    pub caller : first_entry w.client.registered_systems ≡ some (name, system_id)
    pub has_id : system_id ≢ ""
    pub sent : Json
    pub answered : (ask_agent R url d.task_id system_id w).0 ≡ ok (ok (replied sent))
    pub is_given : truthy sent ≡ true
    pub sound : IsSound R sent none none (ask_agent R url d.task_id system_id w).1
    pub is_read : gathered R now sent ≡ ok p
    pub task : Json
    pub at_task : raw_task sent ≡ ok task
    pub labelled : IsLabelled R now task p
    pub vouched : IsVouched R p (ask_agent R url d.task_id system_id w).1

  -- The proof that has a property, or that there is none.
  unfoldable pub Exactly : (ProofData → Type 0) → Option ProofData → Type 0
  Exactly Q none = (p : ProofData) → Q p → ⊥
  Exactly Q (some p) = Q p

  abbrev pub none_or_one : Option ProofData → List ProofData
  none_or_one none = []
  none_or_one (some p) = p ∷ []

  -- The list has grown by the proof that has a property, if there is one.
  unfoldable pub Grown : (ProofData → Type 0) → List ProofData → List ProofData → Type 0
  unfolding Exactly
  Grown Q before after =
      (found : Option ProofData) × Exactly Q found × (after ≡ before ++ none_or_one found)

  unchanged :
      (Q : ProofData → Type 0) (d : List ProofData) → ((p : ProofData) → Q p → ⊥) → Grown Q d d
  unfolding Grown Exactly
  unchanged Q d h = (none, h, sym (append-nil d))

  map-Grown :
      (Q Q' : ProofData → Type 0) (a b : List ProofData)
      → ((p : ProofData) → Q p → Q' p)
      → ((p : ProofData) → Q' p → Q p)
      → Grown Q a b
      → Grown Q' a b
  unfolding Grown Exactly
  map-Grown Q Q' a b f g (none, h, e) = (none, (λ p q. h p (g p q)), e)
  map-Grown Q Q' a b f g (some p, h, e) = (some p, f p h, e)

  -- The verdict is true of a proof that is given and can be read as `p`.
  IsKept : DateTime → Result Verdict → ProofData → Type 0
  IsKept now r p =
      (sent : Json) × (m : Message) × (r ≡ ok (sent, true, m))
      × (truthy sent ≡ true)
      × (gathered R now sent ≡ ok p)

  gathered-Grown :
      (Q : ProofData → Type 0) (r : Result ProofData) (s : Gathering R)
      → ((p : ProofData) → r ≡ ok p → Q p)
      → ((p : ProofData) → Q p → r ≡ ok p)
      → Grown Q s.dependencies (continue (append R) (r, s)).1.dependencies
  unfolding Grown Exactly
  gathered-Grown Q (ok p) s f g = (some p, f p refl, refl)
  gathered-Grown Q (raised e) s f g = unchanged Q s.dependencies (λ p q. raised≢ok (g p q))

  keep-Grown :
      (now : DateTime) (sent : Json) (b : Bool) (m : Message) (s : Gathering R)
      → b ≡ truthy sent
      → Grown
          (IsKept now (ok (sent, true, m)))
          s.dependencies
          (keep R now (sent, true, m) s).1.dependencies
  unfolding IsKept
  keep-Grown now sent true m s t = rw (sym t) (
      gathered-Grown (IsKept now (ok (sent, true, m))) (gathered R now sent) s
        (λ p read. (sent, m, refl, sym t, read))
        (λ p (sent', m', same, given, read).
          ap (λ (v : Verdict). gathered R now v.0) (ok_injective same) ∙ read))
  keep-Grown now sent false m s t = rw (sym t) (
      unchanged (IsKept now (ok (sent, true, m))) s.dependencies
        (λ p (sent', m', same, given, read).
          false≢true (t ∙ ap (λ (v : Verdict). truthy v.0) (ok_injective same) ∙ given)))

  attempt-Grown :
      (now : DateTime) (x : Result Verdict × World R) (d : List ProofData)
      → Grown
          (IsKept now x.0)
          d
          (handle {S = Gathering R}
            (λ e. pure tt)
            (continue (keep R now) (x.0, record { world = x.1; dependencies = d }))).1.dependencies
  unfolding IsKept
  attempt-Grown now (raised e, w) d =
      unchanged (IsKept now (raised e)) d (λ p (sent, m, same, _, _). raised≢ok same)
  attempt-Grown now (ok (sent, false, m), w) d =
      unchanged (IsKept now (ok (sent, false, m))) d
        (λ p (sent', m', same, _, _). false≢true (ap (λ (v : Verdict). v.1) (ok_injective same)))
  attempt-Grown now (ok (sent, true, m), w) d =
      let s : Gathering R = record { world = w; dependencies = d } in
      rw (handle-quiet tt (keep R now (sent, true, m) s))
        (keep-Grown now sent (truthy sent) m s refl)

  module _ (now : DateTime) (d : Dependency) (w : World R) (url : String) where
    IsKept-IsAnswer :
        (p : ProofData)
        → d.challenge_url ≡ some url
        → url ≢ ""
        → d.task_id ≢ ""
        → IsKept now (challenge_and_verify R url d.task_id none none now w).0 p
        → IsAnswer now d w p
    unfolding IsKept
    IsKept-IsAnswer p at_url has_url has_task_id (sent, m, verdict, given, read) =
        let (name, id, caller, has_id, answered, sound) =
          (challenge_and_verify_iff R none none now sent url d.task_id w).0 (m, verdict) in
        let (_, _, _, task, at_task, labelled) = gathered-read R now sent p read in
        record {
          url = url;
          at_url = at_url;
          has_url = has_url;
          has_task_id = has_task_id;
          name = name;
          system_id = id;
          caller = caller;
          has_id = has_id;
          sent = sent;
          answered = answered;
          is_given = given;
          sound = sound;
          is_read = read;
          task = task;
          at_task = at_task;
          labelled = labelled;
          vouched = sound-IsVouched R sent (ask_agent R url d.task_id id w).1 now p sound read;
        }

    IsAnswer-IsKept :
        (p : ProofData)
        → d.challenge_url ≡ some url
        → IsAnswer now d w p
        → IsKept now (challenge_and_verify R url d.task_id none none now w).0 p
    unfolding IsKept
    IsAnswer-IsKept p at_url a =
        let (m, verdict) =
          (challenge_and_verify_iff R none none now a.sent a.url d.task_id w).1
            (a.name, a.system_id, a.caller, a.has_id, a.answered, a.sound) in
        let same = some_injective (sym a.at_url ∙ at_url) in
        (
          a.sent,
          m,
          subst (λ u. (challenge_and_verify R u d.task_id none none now w).0 ≡ ok (a.sent, true, m))
              same verdict,
          a.is_given,
          a.is_read,
        )

  from-Grown :
      (now : DateTime) (d : Dependency) (s : Gathering R) (address : Option String)
      (task_id : String)
      → d.challenge_url ≡ address
      → d.task_id ≡ task_id
      → Grown
          (IsAnswer now d s.world)
          s.dependencies
          (with_url R address task_id now s).1.dependencies
  unfolding challenge_one
  from-Grown now d s none task_id e f =
      unchanged (IsAnswer now d s.world) s.dependencies (λ p a. some≢none (sym a.at_url ∙ e))
  from-Grown now d s (some String.[]) task_id e f =
      unchanged (IsAnswer now d s.world) s.dependencies
        (λ p a. a.has_url (some_injective (sym a.at_url ∙ e)))
  from-Grown now d s (some (String.◌∷◌ c t)) String.[] e f =
      unchanged (IsAnswer now d s.world) s.dependencies (λ p a. a.has_task_id f)
  from-Grown now d s (some (String.◌∷◌ c t)) (String.◌∷◌ b u) e f =
      let url = String.◌∷◌ c t in
      let x = challenge_and_verify R url (String.◌∷◌ b u) none none now s.world in
      map-Grown (IsKept now x.0) (IsAnswer now d s.world) s.dependencies _
        (λ p k.
          IsKept-IsAnswer now d s.world url p e cons≢nil (λ g. cons≢nil (sym f ∙ g))
            (subst (λ i. IsKept now (challenge_and_verify R url i none none now s.world).0 p)
              (sym f) k))
        (λ p a.
          subst (λ i. IsKept now (challenge_and_verify R url i none none now s.world).0 p) f
            (IsAnswer-IsKept now d s.world url p e a))
        (attempt-Grown now x s.dependencies)

  pub turn-Grown :
      (now : DateTime) (d : Dependency) (s : Gathering R)
      → Grown (IsAnswer now d s.world) s.dependencies (turn R now d s).1.dependencies
  unfolding turn
  turn-Grown now d s = from-Grown now d s d.challenge_url d.task_id refl refl
