-- ===== src/Client/Signature.antt =====
-- `verify_signature` of `ATPClient`. base58 and PyNaCl are parameters.
pub mod Keyless
pub mod Binding
pub mod Accepted
use atp_python.Base.{String, ◌<>◌, Bool, true, false, ◌||◌, Option, none, some, if◌then◌else◌}
use atp_python.Python.Exceptions.{
  Result, ok, raised, is_a, value_error, bad_signature_error, atp_verification_error,
}
use atp_python.Python.DateTime.{DateTime, isoformat}
use atp_python.Models.{Commit, CommitResponse}
use atp_python.Hashing.{compute_sketch_hash}

pub record Signatures : Type 1 where
  pub Bytes : Type 0
  pub is_empty : Bytes → Bool
  pub b58decode : String → Result Bytes
  pub fromhex : String → Result Bytes
  pub verify : Bytes → String → Bytes → Result (Unit {0})

-- What `verify_signature` takes.
pub data Signed : Type 0 where
  full : Commit → Signed
  brief : CommitResponse → Signed

abbrev signature_of : Signed → Option String
signature_of (full c) = c.signature
signature_of (brief c) = c.signature

abbrev cataloged_of : Signed → Option DateTime
cataloged_of (full c) = c.cataloged_at
cataloged_of (brief c) = c.cataloged_at

-- The text that the Exchange signed.
unfoldable pub signed_message : (String → String) → Commit → DateTime → String
signed_message sha256 c at =
    c.id
    <> ("|"
        <> (c.task_id
            <> ("|"
                <> (c.system_id
                    <> ("|"
                        <> (compute_sketch_hash sha256 c.proof_sketch <> ("|" <> isoformat at)))))))

module _ (sha256 : String → String) (S : Signatures) where
  open S use {Bytes, is_empty, b58decode, fromhex, verify}

  -- The key that the caller gave, if it is not empty.
  unfoldable pub public_key : Option String → Result Bytes
  public_key none = raised value_error
  public_key (some String.[]) = raised value_error
  public_key (some (String.◌∷◌ c s)) = elim (fromhex (String.◌∷◌ c s)) [
    | raised e ↦ raised e
    | ok key ↦ if is_empty key then raised value_error else ok key
  ]

  -- The `except` clauses: a bad signature and a value error mean false.
  abbrev signature_verdict : Result (Unit {0}) → Result Bool
  signature_verdict (ok _) = ok true
  signature_verdict (raised e) =
      if is_a e bad_signature_error || is_a e value_error
      then ok false
      else raised atp_verification_error

  unfoldable pub check_signature : Commit → String → DateTime → Option String → Result (Unit {0})
  unfolding public_key
  check_signature c signature at key = elim (b58decode signature) [
    | raised e ↦ raised e
    | ok sig ↦ elim (public_key key) [
      | raised e ↦ raised e
      | ok k ↦ verify k (signed_message sha256 c at) sig
    ]
  ]

  unfoldable pub verify_signature : Signed → Option String → Result Bool
  unfolding check_signature signed_message
  verify_signature signed key = elim (signature_of signed) [
    | none ↦ raised value_error
    | some String.[] ↦ raised value_error
    | some (String.◌∷◌ x s) ↦ elim (cataloged_of signed) [
      | none ↦ raised value_error
      | some at ↦ elim signed [
        | brief _ ↦ raised value_error
        | full c ↦ signature_verdict (check_signature c (String.◌∷◌ x s) at key)
      ]
    ]
  ]
