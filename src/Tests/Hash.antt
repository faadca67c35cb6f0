-- ===== src/Tests/Hash.antt =====
-- Hashes, at concrete inputs.
use atp_python.Base.{◌≡◌, refl, ◌↔◌, arith, String, Option, none, some}
use atp_python.Python.Exceptions.{ok}
use atp_python.Python.Json.{Json, null, int, str, obj, Fields, end, field, ℤ}
use atp_python.Models.{DependencyEvaluation}
use atp_python.Base.Dict.{lookup}
use atp_python.Python.Canonical.{dumps, SameJson}
use atp_python.Python.Canonical.Told.{IsProper}
use atp_python.Hashing.{
  ProofParts, compute_proof_hash, hash_with_prefix, raw_eval_to_canonical, dep_eval_to_canonical,
  format_datetime_rfc3339nano,
}
use atp_python.Hashing.Binding.{IsPlain, SameParts, compute_proof_hash_iff}
use atp_python.Hashing.Content.{hash_with_prefix_iff}
use atp_python.Hashing.Dependencies.{eval_dict, eval_to_canonical_iff}
use atp_python.Tests.Fixtures.{noon}

abbrev digest : String → String
digest s = s

abbrev parts : Option String → ProofParts
parts d = record {
  system_uri = "u";
  task_id = "t";
  invocation_hash = "i";
  outcome_hash = "o";
  dependencies_hash = d;
  timestamp = noon;
}

parts-IsPlain : IsPlain (parts none)
parts-IsPlain = record {
  system_uri = omega arith;
  task_id = omega arith;
  invocation_hash = omega arith;
  outcome_hash = omega arith;
  dependencies_hash = tt;
}

linked-IsPlain : IsPlain (parts (some "d"))
linked-IsPlain = record {
  system_uri = omega arith;
  task_id = omega arith;
  invocation_hash = omega arith;
  outcome_hash = omega arith;
  dependencies_hash = omega arith;
}

compute_proof_hash_iff_example :
    (compute_proof_hash digest (parts none) ≡ compute_proof_hash digest (parts (some "d")))
    ↔ SameParts (parts none) (parts (some "d"))
compute_proof_hash_iff_example =
    compute_proof_hash_iff digest (parts none) (parts (some "d")) parts-IsPlain linked-IsPlain
      λ e. e

abbrev one : Json
one = int (ℤ.pos 1)

abbrev ab : Fields
ab = field "a" one (field "b" null end)

abbrev ba : Fields
ba = field "b" null (field "a" one end)

ab-IsProper : IsProper (obj ab)
unfolding IsProper lookup
ab-IsProper = (refl, tt, (refl, tt, tt))

ba-IsProper : IsProper (obj ba)
unfolding IsProper lookup
ba-IsProper = (refl, tt, (refl, tt, tt))

hash_with_prefix_iff_example :
    ((hash_with_prefix digest (obj ab) ≡ hash_with_prefix digest (obj ba))
      ↔ SameJson (obj ab) (obj ba))
    × (hash_with_prefix digest (str (dumps (obj ab))) ≡ hash_with_prefix digest (obj ab))
hash_with_prefix_iff_example = hash_with_prefix_iff digest ab ba ab-IsProper ba-IsProper λ e. e

abbrev evaluation : DependencyEvaluation
evaluation = record {
  evaluation_type = "quality";
  evaluation_policy = none;
  evaluation_result = "pass";
  evaluated_at = noon;
}

eval_to_canonical_iff_example :
    (raw_eval_to_canonical (eval_dict evaluation "0001-01-01T12:00:00+00:00")
      ≡ dep_eval_to_canonical evaluation)
    ↔ (format_datetime_rfc3339nano noon ≡ ok "0001-01-01T12:00:00+00:00")
eval_to_canonical_iff_example = eval_to_canonical_iff evaluation "0001-01-01T12:00:00+00:00"
