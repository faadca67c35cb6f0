-- ===== src/Wire.antt =====
-- What passes between the SDK and the Exchange: HTTP messages, the code outside this repository
-- that the SDK calls (`Runtime`), and the values that responses are read into.
pub mod Decode
pub mod Records
pub mod Rpc
pub mod RawProof
pub mod Gathered
use atp_python.Base.{
  ◌≡◌, ◌≢◌, refl, arith, ℕ, String, Bool, true, false, Option, none, some, List, [], ◌∷◌, ◌||◌, eqb,
  if◌then◌else◌,
}
use atp_python.Base.Dict.{Dict, lookup}
use atp_python.Python.Exceptions.{
  Exception, Result, ok, raised, is_a, key_error, value_error, type_error, attribute_error,
  json_decode_error, validation_error, request_error, atp_network_error,
}
use atp_python.Python.Exec.{Exec, raise, lift, try_except, ◌>>=◌, ◌>>◌}
use atp_python.Python.Json.{Json, null, bool, int, str, arr, obj, Fields, fields, ℤ, truthy}
use atp_python.Python.DateTime.{DateTime}
use atp_python.Models.{ProofSketch, Capability, Dependency, StoredProof}
use atp_python.Hashing.{get_item}

pub data Method : Type 0 where
  get post : Method

pub record Request : Type 0 where
  pub method : Method
  pub base_url : String
  pub path : String
  pub params : Dict Json
  pub token : Option String
  pub body : Option Json

-- `body` is what `response.json()` gives, if the text is JSON.
pub record Response : Type 0 where
  pub status_code : ℕ
  pub text : String
  pub body : Option Json

-- httpx, pydantic, SHA-256, and the parsers of dates, UUIDs and JSON. `send` is one exchange of
-- messages with the other side, whose state is `Net`; it may raise, as on a failed connection. `repr`
-- is that of lists and dicts.
pub record Runtime : Type 1 where
  pub Net : Type 0
  pub send : Request → Net → Result Response × Net
  pub sha256 : String → String
  pub fromisoformat : String → Result DateTime
  pub uuid : String → Result String
  pub loads : String → Result Json
  pub coerce_int : Json → Result ℤ
  pub coerce_bool : Json → Result Bool
  pub validate_sketch : Json → Result ProofSketch
  pub validate_dependency : Fields → Result Dependency
  pub validate_capability : Json → Result Capability
  pub validate_stored_proof : Json → Result StoredProof
  pub dump_sketch : ProofSketch → Json
  pub dump_capability : Capability → Json
  pub dump_stored_proof : StoredProof → Json
  pub repr : Json → String

-- `response.json()`
abbrev pub json_of : Response → Result Json
json_of r = elim r.body [ none ↦ raised json_decode_error | some v ↦ ok v ]

-- `data[k]`
abbrev pub item : String → Json → Result Json
item k (obj fs) = get_item k fs
item k _ = raised type_error

-- `data.get(k)`
abbrev pub get_key : String → Json → Result (Option Json)
get_key k (obj fs) = ok (lookup k (fields fs))
get_key k _ = raised attribute_error

-- The check of `response.json().get("error", response.text) if response.text else ...`, which
-- may itself raise. The text goes into a message.
unfoldable pub error_detail : Response → Result (Unit {0})
error_detail r = elim (truthy (str r.text)) [
  | false ↦ ok tt
  | true ↦ elim r.body [
    | none ↦ raised json_decode_error
    | some v ↦ elim (get_key "error" v) [ ok _ ↦ ok tt | raised e ↦ raised e ]
  ]
]

-- Raise `e` with the detail of the response.
abbrev pub reject {ℓ κ} : {S : Type ℓ} {A : Type κ} → Response → Exception → Exec S A
reject r e = do lift (error_detail r); raise e

-- `except httpx.RequestError ... except (KeyError, ValueError)`
abbrev pub translate {ℓ κ} : {S : Type ℓ} {A : Type κ} → Exception → Exec S A → Exec S A
translate invalid m = try_except m λ e.
    if is_a e request_error
    then raise atp_network_error
    else if is_a e key_error || is_a e value_error
    then raise invalid
    else raise e

-- A field that pydantic holds to be a text.
abbrev pub as_str : Json → Result String
as_str (str s) = ok s
as_str _ = raised validation_error

abbrev pub as_optional_str : Option Json → Result (Option String)
as_optional_str none = ok none
as_optional_str (some null) = ok none
as_optional_str (some (str s)) = ok (some s)
as_optional_str (some _) = raised validation_error

abbrev pub created : ℕ → Bool
created status = eqb status 200 || eqb status 201

translate_raised {ℓ κ} :
    {S : Type ℓ} {A : Type κ} (invalid e : Exception) (s w : S) (a : A)
    → (translate invalid (λ _. (raised e, s)) w).0 ≢ ok a
translate_raised invalid e s w a h = ground arith

-- An action that returned under `translate` returned by itself.
pub translate_ok {ℓ κ} :
    {S : Type ℓ} {A : Type κ} (invalid : Exception) (x : Result A × S) (w : S) (a : A)
    → (translate invalid (λ _. x) w).0 ≡ ok a
    → translate invalid (λ _. x) w ≡ x
translate_ok invalid (ok b, s) w a p = refl
translate_ok invalid (raised e, s) w a p = absurd (translate_raised invalid e s w a p)
