-- ===== src/Client/Signature/Accepted.antt =====
-- When `verify_signature` says true, and when it raises.
use Prim.Native.Char.{Char}
use text.Mathlib.TextLemmas.{cons≢nil}
use atp_python.Base.{
  arith, String, ◌≡◌, refl, ap, sym, ◌∙◌, ◌↔◌, ◌≢◌, Bool, true, false, ◌||◌, Option, none, some,
  if◌then◌else◌,
}
use atp_python.Python.Exceptions.{
  Exception, raised≢ok, Result, ok, raised, is_a, value_error, bad_signature_error,
  atp_verification_error,
}
use atp_python.Python.DateTime.{DateTime}
use atp_python.Models.{Commit, CommitResponse}
use atp_python.Client.Signature.{
  Signatures, Signed, full, brief, signed_message, public_key, check_signature, signature_verdict,
  verify_signature,
}

module _ (sha256 : String → String) (S : Signatures) where
  -- The commit has a signature, which base58 decodes, and a time of cataloguing; the key is the
  -- hexadecimal text of a key; and PyNaCl accepts the signature of the signed text under that key.
  pub record IsSigned (c : Commit) (given : Option String) : Type 0 where
    pub signature : String
    pub cataloged_at : DateTime
    pub hex : String
    pub bytes : S.Bytes
    pub key : S.Bytes
    pub has_signature : c.signature ≡ some signature
    pub not_empty : signature ≢ ""
    pub has_time : c.cataloged_at ≡ some cataloged_at
    pub decodes : S.b58decode signature ≡ ok bytes
    pub has_key : given ≡ some hex
    pub not_blank : hex ≢ ""
    pub key_bytes : S.fromhex hex ≡ ok key
    pub key_used : S.is_empty key ≡ false
    pub accepted : S.verify key (signed_message sha256 c cataloged_at) bytes ≡ ok tt

  caught_false : (b : Bool) (e : Exception) → (if b then ok false else raised e) ≢ ok true
  caught_false true e h = cc
  caught_false false e h = cc

  verdict_true : (r : Result (Unit {0})) → signature_verdict sha256 S r ≡ ok true → r ≡ ok tt
  verdict_true (ok x) h = refl
  verdict_true (raised e) h =
      absurd
        (caught_false (is_a e bad_signature_error || is_a e value_error) atp_verification_error h)

  public_key-ok :
      (given : Option String) (key : S.Bytes)
      → public_key sha256 S given ≡ ok key
      → (hex : String) × (given ≡ some hex)
        × (hex ≢ "")
        × (S.fromhex hex ≡ ok key)
        × (S.is_empty key ≡ false)
  unfolding public_key
  public_key-ok none key h = cc
  public_key-ok (some String.[]) key h = cc
  public_key-ok (some (String.◌∷◌ c s)) key h =
      let (decoded, used) = by_bytes (S.fromhex (String.◌∷◌ c s)) h in
      (String.◌∷◌ c s, refl, cons≢nil, decoded, used)
    where
      by_bytes :
          (r : Result S.Bytes)
          → elim r [
            | raised e ↦ raised e
            | ok k ↦ if S.is_empty k then raised value_error else ok k
          ]
            ≡ ok key
          → (r ≡ ok key) × (S.is_empty key ≡ false)
      by_bytes (raised e) g = cc
      by_bytes (ok k) g = ground arith

  check_signature-ok :
      (c : Commit) (signature : String) (at : DateTime) (given : Option String)
      → check_signature sha256 S c signature at given ≡ ok tt
      → (bytes : S.Bytes) × (key : S.Bytes) × (S.b58decode signature ≡ ok bytes)
        × (public_key sha256 S given ≡ ok key)
        × (S.verify key (signed_message sha256 c at) bytes ≡ ok tt)
  unfolding check_signature
  check_signature-ok c signature at given h =
      by_results (S.b58decode signature) (public_key sha256 S given) h
    where
      by_results :
          (r q : Result S.Bytes)
          → elim r [
            | raised e ↦ raised e
            | ok sig ↦ elim q [
              | raised e ↦ raised e
              | ok k ↦ S.verify k (signed_message sha256 c at) sig
            ]
          ]
            ≡ ok tt
          → (bytes : S.Bytes) × (key : S.Bytes) × (r ≡ ok bytes)
            × (q ≡ ok key)
            × (S.verify key (signed_message sha256 c at) bytes ≡ ok tt)
      by_results (raised e) q g = cc
      by_results (ok sig) (raised e) g = cc
      by_results (ok sig) (ok k) g = (sig, k, refl, refl, g)

  verify_of :
      (c : Commit) (signature : String) (at : DateTime) (given : Option String)
      → signature ≢ ""
      → c.signature ≡ some signature
      → c.cataloged_at ≡ some at
      → verify_signature sha256 S (full c) given
        ≡ signature_verdict sha256 S (check_signature sha256 S c signature at given)
  unfolding verify_signature
  verify_of c String.[] at given filled signed cataloged = absurd (filled refl)
  verify_of c (String.◌∷◌ x s) at given filled signed cataloged = rw (signed, cataloged) refl

  check_of :
      (c : Commit) (signature hex : String) (at : DateTime) (bytes key : S.Bytes)
      → hex ≢ ""
      → S.b58decode signature ≡ ok bytes
      → S.fromhex hex ≡ ok key
      → S.is_empty key ≡ false
      → check_signature sha256 S c signature at (some hex)
        ≡ S.verify key (signed_message sha256 c at) bytes
  unfolding check_signature public_key
  check_of c signature String.[] at bytes key filled decoded read used = absurd (filled refl)
  check_of c signature (String.◌∷◌ x s) at bytes key filled decoded read used =
      rw (decoded, read, used, check_signature, public_key) refl

  IsSigned-verify :
      (c : Commit) (given : Option String)
      → IsSigned c given
      → verify_signature sha256 S (full c) given ≡ ok true
  IsSigned-verify c given h =
      verify_of c h.signature h.cataloged_at given h.not_empty h.has_signature h.has_time
      ∙ ap
          (λ g.
            signature_verdict sha256 S (check_signature sha256 S c h.signature h.cataloged_at g))
          h.has_key
      ∙ ap (signature_verdict sha256 S) (
          check_of c h.signature h.hex h.cataloged_at h.bytes h.key h.not_blank h.decodes
            h.key_bytes h.key_used
          ∙ h.accepted)

  unsigned :
      (c : Commit) (given : Option String)
      → c.signature ≡ none
      → verify_signature sha256 S (full c) given ≡ raised value_error
  unfolding verify_signature
  unsigned c given p = rw p refl

  blank :
      (c : Commit) (given : Option String)
      → c.signature ≡ some ""
      → verify_signature sha256 S (full c) given ≡ raised value_error
  unfolding verify_signature
  blank c given p = rw p refl

  uncataloged :
      (c : Commit) (given : Option String) (x : Char) (s : String)
      → c.signature ≡ some (String.◌∷◌ x s)
      → c.cataloged_at ≡ none
      → verify_signature sha256 S (full c) given ≡ raised value_error
  unfolding verify_signature
  uncataloged c given x s p q = rw (p, q) refl

  verify-IsSigned :
      (c : Commit) (given : Option String)
      → verify_signature sha256 S (full c) given ≡ ok true
      → IsSigned c given
  verify-IsSigned c given h = by_fields c.signature c.cataloged_at refl refl
    where
      by_fields :
          (o : Option String) (t : Option DateTime)
          → c.signature ≡ o
          → c.cataloged_at ≡ t
          → IsSigned c given
      by_fields none t p q = absurd (raised≢ok (sym (unsigned c given p) ∙ h))
      by_fields (some String.[]) t p q = absurd (raised≢ok (sym (blank c given p) ∙ h))
      by_fields (some (String.◌∷◌ x s)) none p q =
          absurd (raised≢ok (sym (uncataloged c given x s p q) ∙ h))
      by_fields (some (String.◌∷◌ x s)) (some at) p q =
          let signature : String = String.◌∷◌ x s in
          let verdict = sym (verify_of c signature at given cons≢nil p q) ∙ h in
          let (bytes, key, decodes, keyed, accepted) =
            check_signature-ok c signature at given
              (verdict_true (check_signature sha256 S c signature at given) verdict) in
          let (hex, has_key, not_blank, key_bytes, key_used) = public_key-ok given key keyed in
          record {
            signature = signature;
            cataloged_at = at;
            hex = hex;
            bytes = bytes;
            key = key;
            has_signature = p;
            not_empty = cons≢nil;
            has_time = q;
            decodes = decodes;
            has_key = has_key;
            not_blank = not_blank;
            key_bytes = key_bytes;
            key_used = key_used;
            accepted = accepted;
          }

  -- A response to a commit is never accepted: it has no sketch.
  abbrev pub Accepted : Signed → Option String → Type 0
  Accepted (full c) given = IsSigned c given
  Accepted (brief c) given = ⊥

  brief_raises :
      (c : CommitResponse) (given : Option String)
      → verify_signature sha256 S (brief c) given ≡ raised value_error
  unfolding verify_signature
  brief_raises c given = by_fields c.signature c.cataloged_at
    where
      by_fields :
          (o : Option String) (t : Option DateTime)
          → ◌≡◌ {A = Result Bool}
              (elim o [
                | none ↦ raised value_error
                | some String.[] ↦ raised value_error
                | some (String.◌∷◌ x s) ↦ elim t [
                  | none ↦ raised value_error
                  | some at ↦ raised value_error
                ]
              ])
              (raised value_error)
      by_fields none t = refl
      by_fields (some String.[]) t = refl
      by_fields (some (String.◌∷◌ x s)) none = refl
      by_fields (some (String.◌∷◌ x s)) (some at) = refl

  -- `verify_signature` says true exactly for a full commit with a time of cataloguing whose signature
  -- base58 decodes and PyNaCl accepts, for the text that is made of the commit's fields, under the key
  -- that the caller gave as hexadecimal text; without a signature, a time or a key it never does.
  pub verify_signature_iff :
      (signed : Signed) (given : Option String)
      → (verify_signature sha256 S signed given ≡ ok true) ↔ Accepted signed given
  verify_signature_iff (full c) given = (verify-IsSigned c given, IsSigned-verify c given)
  verify_signature_iff (brief c) given =
      (λ h. raised≢ok (sym (brief_raises c given) ∙ h), λ h. absurd h)
