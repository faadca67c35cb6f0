-- ===== src/Python/Exceptions.antt =====
-- atp/core/exceptions.py, beside the exceptions of Python and of httpx that the SDK meets. An
-- exception is its class; messages are kept only where the code returns them as results.
use atp_python.Base.{
  ℕ, zero, suc, ◌≡◌, ◌≢◌, refl, Bool, true, false, Option, none, some, eqb, if◌then◌else◌,
}

pub data Exception : Type 0 where
  exception runtime_error type_error attribute_error index_error overflow_error : Exception
  lookup_error key_error value_error json_decode_error validation_error import_error : Exception
  request_error http_status_error bad_signature_error : Exception
  atp_error atp_config_error atp_registration_error atp_commit_error atp_query_error : Exception
  atp_verification_error atp_network_error atp_auth_error atp_storage_error : Exception
  atp_proof_not_found_error atp_proof_expired_error : Exception

-- The class that a class names as its base.
abbrev pub base : Exception → Option Exception
base exception = none
base atp_config_error = some atp_error
base atp_registration_error = some atp_error
base atp_commit_error = some atp_error
base atp_query_error = some atp_error
base atp_verification_error = some atp_error
base atp_network_error = some atp_error
base atp_auth_error = some atp_error
base atp_storage_error = some atp_error
base atp_proof_not_found_error = some atp_storage_error
base atp_proof_expired_error = some atp_storage_error
base key_error = some lookup_error
base index_error = some lookup_error
base json_decode_error = some value_error
base validation_error = some value_error
base _ = some exception

-- A number for each class, by which two are compared.
abbrev index : Exception → ℕ
index exception = 0
index runtime_error = 1
index type_error = 2
index attribute_error = 3
index index_error = 4
index overflow_error = 5
index lookup_error = 6
index key_error = 7
index value_error = 8
index json_decode_error = 9
index validation_error = 10
index import_error = 11
index request_error = 12
index http_status_error = 13
index bad_signature_error = 14
index atp_error = 15
index atp_config_error = 16
index atp_registration_error = 17
index atp_commit_error = 18
index atp_query_error = 19
index atp_verification_error = 20
index atp_network_error = 21
index atp_auth_error = 22
index atp_storage_error = 23
index atp_proof_not_found_error = 24
index atp_proof_expired_error = 25

is_a_within : ℕ → Exception → Exception → Bool
is_a_within zero e c = eqb (index e) (index c)
is_a_within (suc f) e c =
    if eqb (index e) (index c)
    then true
    else elim (base e) [ none ↦ false | some b ↦ is_a_within f b c ]

-- `except c` catches `e`. No chain of bases is longer than four.
unfoldable pub is_a : Exception → Exception → Bool
unfolding is_a_within
is_a e c = is_a_within 4 e c

pub data Result {ℓ} (A : Type ℓ) : Type ℓ where
  ok : A → Result A
  raised : Exception → Result A

-- Go on with the value, unless there was an exception.
infixl 5 ◌>>=◌ ◌>>◌
abbrev pub ◌>>=◌ {ℓ κ} : {A : Type ℓ} {B : Type κ} → Result A → (A → Result B) → Result B
◌>>=◌ (raised e) next = raised e
◌>>=◌ (ok value) next = next value

abbrev pub ◌>>◌ {ℓ κ} : {A : Type ℓ} {B : Type κ} → Result A → Result B → Result B
first >> second = first >>= λ _. second

-- A sequence that returned went through the value of its first part.
pub bind_returned {ℓ κ} :
    {A : Type ℓ} {B : Type κ} (first : Result A) (next : A → Result B) {result : B}
    → (first >>= next) ≡ ok result
    → (value : A) × (first ≡ ok value) × (next value ≡ ok result)
bind_returned (raised x) next e = cc
bind_returned (ok value) next e = (value, refl, e)

pub ok_injective {ℓ} : {A : Type ℓ} {a b : A} → ok a ≡ ok b → a ≡ b
ok_injective h = cc

pub raised≢ok {ℓ} : {A : Type ℓ} {e : Exception} {a : A} → raised e ≢ ok a
raised≢ok h = cc

pub raised_injective {ℓ} :
    {A : Type ℓ} {d e : Exception} → ◌≡◌ {A = Result A} (raised d) (raised e) → d ≡ e
raised_injective h = cc
