-- ===== src/Hashing/Binding.antt =====
-- What a proof hash binds: the fields that are joined by bars, in both formulas.
use Prim.Native.Char.{Char}
use atp_python.Base.{
  String, ◌<>◌, ◌≡◌, refl, sym, ap, ◌∙◌, Option, none, some, ◌↔◌, inl, inr, Bool-cases, eqb, arith,
}
use atp_python.Base.Texts.{
  Lacks, Lacks-append, cut_unique, cut_absent, rstrip, rstrip-Lacks, append_one,
}
use atp_python.Python.DateTime.{DateTime, microsecond, strftime, strftime-Lacks, pad6, pad6-Lacks}
use atp_python.Hashing.{ProofParts, stamp, non_empty, proof_message, compute_proof_hash}

abbrev bar : Char
bar = "|"

abbrev pub NoBar : String → Type 0
NoBar = Lacks b'|'

pub cut_bar :
    (s t u v : String) → NoBar s → NoBar t → s <> ("|" <> u) ≡ t <> ("|" <> v) → (s ≡ t) × (u ≡ v)
cut_bar s t u v h g e =
    cut_unique bar s t h g
      (ap (λ x. s <> x) (sym (append_one bar u)) ∙ e ∙ ap (λ x. t <> x) (append_one bar v))

uncut_bar : (s t u : String) → NoBar t → s <> ("|" <> u) ≡ t → ⊥
uncut_bar s t u h e = cut_absent bar s t u h (ap (λ x. s <> x) (sym (append_one bar u)) ∙ e)

stamp-NoBar : (d : DateTime) → NoBar (stamp d)
stamp-NoBar d =
    Lacks-append b'|' (strftime d) _
      (strftime-Lacks b'|' (omega arith) d (omega arith) (omega arith) (omega arith))
      (elim (Bool-cases (eqb (microsecond d) 0)) [
        | inl e ↦ rw e (omega arith)
        | inr e ↦ rw e (
            Lacks-append b'|' "." _ (omega arith) (
              Lacks-append b'|' (rstrip b'0' (pad6 (microsecond d))) "Z"
                (rstrip-Lacks b'|' b'0' _ (pad6-Lacks b'|' (omega arith) (microsecond d)))
                (omega arith)))
      ])

abbrev OptionNoBar : Option String → Type 0
OptionNoBar none = Unit
OptionNoBar (some s) = NoBar s

-- No field that is joined holds a bar. Identifiers, URIs and prefixed digests hold none.
pub record IsPlain (p : ProofParts) : Type 0 where
  pub system_uri : NoBar p.system_uri
  pub task_id : NoBar p.task_id
  pub invocation_hash : NoBar p.invocation_hash
  pub outcome_hash : NoBar p.outcome_hash
  pub dependencies_hash : OptionNoBar p.dependencies_hash

-- The two agree in all that is hashed; an absent dependencies hash and an empty one are the same.
pub record SameParts (p q : ProofParts) : Type 0 where
  pub system_uri : p.system_uri ≡ q.system_uri
  pub task_id : p.task_id ≡ q.task_id
  pub invocation_hash : p.invocation_hash ≡ q.invocation_hash
  pub outcome_hash : p.outcome_hash ≡ q.outcome_hash
  pub dependencies_hash : non_empty p.dependencies_hash ≡ non_empty q.dependencies_hash
  pub timestamp : stamp p.timestamp ≡ stamp q.timestamp

abbrev tail : Option String → DateTime → String
tail o ts = elim o [ some h ↦ h <> ("|" <> stamp ts) | none ↦ stamp ts ]

tail_unique :
    (o o' : Option String) (ts ts' : DateTime)
    → OptionNoBar o
    → OptionNoBar o'
    → tail o ts ≡ tail o' ts'
    → (o ≡ o') × (stamp ts ≡ stamp ts')
tail_unique none none ts ts' h g e = (refl, e)
tail_unique none (some s) ts ts' h g e =
    absurd (uncut_bar s (stamp ts) (stamp ts') (stamp-NoBar ts) (sym e))
tail_unique (some s) none ts ts' h g e =
    absurd (uncut_bar s (stamp ts') (stamp ts) (stamp-NoBar ts') e)
tail_unique (some s) (some s') ts ts' h g e =
    let (p, q) = cut_bar s s' (stamp ts) (stamp ts') h g e in (ap some p, q)

non_empty-NoBar : (o : Option String) → OptionNoBar o → OptionNoBar (non_empty o)
non_empty-NoBar none h = tt
non_empty-NoBar (some String.[]) h = tt
non_empty-NoBar (some (String.◌∷◌ c s)) h = h

proof_message_injective :
    (p q : ProofParts) → IsPlain p → IsPlain q → proof_message p ≡ proof_message q → SameParts p q
unfolding proof_message
proof_message_injective p q h g e =
    let (uri, e₁) = cut_bar p.system_uri q.system_uri _ _ h.system_uri g.system_uri e in
    let (task, e₂) = cut_bar p.task_id q.task_id _ _ h.task_id g.task_id e₁ in
    let (inv, e₃) =
      cut_bar p.invocation_hash q.invocation_hash _ _ h.invocation_hash g.invocation_hash e₂ in
    let (out, e₄) = cut_bar p.outcome_hash q.outcome_hash _ _ h.outcome_hash g.outcome_hash e₃ in
    let (deps, ts) =
      tail_unique (non_empty p.dependencies_hash) (non_empty q.dependencies_hash) p.timestamp
        q.timestamp (non_empty-NoBar _ h.dependencies_hash) (non_empty-NoBar _ g.dependencies_hash)
        e₄ in
    record {
      system_uri = uri;
      task_id = task;
      invocation_hash = inv;
      outcome_hash = out;
      dependencies_hash = deps;
      timestamp = ts;
    }

proof_message-SameParts : (p q : ProofParts) → SameParts p q → proof_message p ≡ proof_message q
unfolding proof_message
proof_message-SameParts p q h = λ i.
    h.system_uri i
    <> ("|"
        <> (h.task_id i
            <> ("|"
                <> (h.invocation_hash i
                    <> ("|"
                        <> (h.outcome_hash i
                            <> ("|" <> elim (h.dependencies_hash i) [
                              | some deps ↦ deps <> ("|" <> h.timestamp i)
                              | none ↦ h.timestamp i
                            ])))))))

-- The digest function tells the two texts apart, if they differ.
abbrev pub Separates : (String → String) → String → String → Type 0
Separates sha256 s t = sha256 s ≡ sha256 t → s ≡ t

-- For parts without bars whose two messages the digest function tells apart, the proof hashes are
-- equal exactly when the two agree in the system URI, the task, both content hashes, the
-- dependencies hash (an absent one and an empty one are the same, and no other hash stands for
-- them) and the printed timestamp.
pub compute_proof_hash_iff :
    (sha256 : String → String) (p q : ProofParts)
    → IsPlain p
    → IsPlain q
    → Separates sha256 (proof_message p) (proof_message q)
    → (compute_proof_hash sha256 p ≡ compute_proof_hash sha256 q) ↔ SameParts p q
unfolding compute_proof_hash
compute_proof_hash_iff sha256 p q h g separates = (
  λ e. proof_message_injective p q h g (separates e),
  λ same. ap sha256 (proof_message-SameParts p q same),
)
