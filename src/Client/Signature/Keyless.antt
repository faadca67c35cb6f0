-- ===== src/Client/Signature/Keyless.antt =====
-- `verify_signature` when no key is given.
use Prim.Native.Char.{Char}
use atp_python.Base.{◌≡◌, refl, String, false, none, some}
use atp_python.Python.Exceptions.{ok, is_a}
use atp_python.Python.DateTime.{DateTime}
use atp_python.Models.{Commit}
use atp_python.Client.Signature.{Signatures, full, verify_signature, check_signature, public_key}

module _ (sha256 : String → String) (S : Signatures) where
  -- Without a key, the answer for a commit with a time of cataloguing and a signature that base58
  -- decodes is false, whatever the signature is.
  pub verify_signature_keyless :
      (c : Commit) (x : Char) (s : String) (at : DateTime) (signature : S.Bytes)
      → c.signature ≡ some (String.◌∷◌ x s)
      → c.cataloged_at ≡ some at
      → S.b58decode (String.◌∷◌ x s) ≡ ok signature
      → verify_signature sha256 S (full c) none ≡ ok false
  unfolding verify_signature check_signature public_key is_a
  verify_signature_keyless c x s at signature signed cataloged decoded =
      rw (signed, cataloged, decoded, verify_signature, check_signature) refl
