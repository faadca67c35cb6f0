-- ===== src/Tests/Signature.antt =====
-- Signatures of the Exchange, at concrete inputs.
use atp_python.Base.{◌≡◌, refl, ◌==◌, ◌↔◌, true, none, some, String, arith}
use atp_python.Python.Exceptions.{ok}
use atp_python.Models.{Commit, confirmed}
use atp_python.Hashing.{compute_sketch_hash, compute_proof_hash}
use atp_python.Hashing.Binding.{NoBar}
use atp_python.Client.Signature.{Signatures, verify_signature, full, signed_message}
use atp_python.Client.Signature.Accepted.{Accepted, verify_signature_iff}
use atp_python.Client.Signature.Binding.{IsJoinable, SameSigned, signed_message_iff}
use atp_python.Tests.Fixtures.{noon, sketch}

-- Every signature is accepted.
abbrev signatures : Signatures
signatures = record {
  Bytes = String;
  is_empty = λ s. s == "";
  b58decode = λ s. ok s;
  fromhex = λ s. ok s;
  verify = λ k m s. ok tt;
}

abbrev signed : Commit
signed = record {
  id = "c";
  system_id = "s";
  organization_id = none;
  task_id = "t";
  proof_sketch = sketch;
  status = confirmed;
  signature = some "g";
  cataloged_at = some noon;
  created_at = noon;
  blockchain_signature = none;
  blockchain_confirmed_at = none;
  blockchain_provider = none;
  blockchain_catalog_url = none;
  classification_occupation = none;
  classification_capabilities = none;
  classification_work_activities = none;
  classification_description = none;
}

abbrev digest : String → String
digest s = "sha256:00"

verify_signature_iff_example :
    (verify_signature digest signatures (full signed) (some "k") ≡ ok true)
    ↔ Accepted digest signatures (full signed) (some "k")
verify_signature_iff_example = verify_signature_iff digest signatures (full signed) (some "k")

-- The same commit under another id
abbrev renamed : Commit
renamed = record signed { id = "d" }

signed-IsJoinable : (id : String) → NoBar id → IsJoinable digest (record signed { id = id })
unfolding compute_sketch_hash compute_proof_hash
signed-IsJoinable id plain = record {
  id = plain;
  task_id = omega arith;
  system_id = omega arith;
  digest = omega arith;
  parts = record {
    system_uri = omega arith;
    task_id = omega arith;
    invocation_hash = omega arith;
    outcome_hash = omega arith;
    dependencies_hash = tt;
  };
}

signed_message_iff_example :
    (signed_message digest signed noon ≡ signed_message digest renamed noon)
    ↔ SameSigned digest signed renamed noon noon
signed_message_iff_example =
    signed_message_iff digest signed renamed noon noon (signed-IsJoinable "c" (omega arith))
      (signed-IsJoinable "d" (omega arith)) (refl, omega arith) (refl, omega arith) λ e. refl
