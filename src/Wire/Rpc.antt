-- ===== src/Wire/Rpc.antt =====
-- The JSON-RPC answer to a challenge, as `challenge` of atp/core/client.py reads it.
use text.Mathlib.Text.{find?}
use atp_python.Base.{String, Bool, false, none, some, ◌==◌, ◌||◌, not, eqb, is_some, if◌then◌else◌}
use atp_python.Base.Dict.{lookup}
use atp_python.Python.Exceptions.{
  Result, ok, raised, ◌>>=◌, type_error, attribute_error, atp_query_error,
}
use atp_python.Python.Json.{Json, str, arr, obj, Items, nil, cons, fields, truthy}
use atp_python.Models.{StoredProof}
use atp_python.Wire.{Runtime, Response, json_of}

-- `"error" in data` of a value that is no dict
abbrev holds_text : Items → String → Bool
holds_text nil s = false
holds_text (cons (str t) vs) s = t == s || holds_text vs s
holds_text (cons _ vs) s = holds_text vs s

-- The checks of the JSON-RPC answer, up to its result.
unfoldable pub rpc_result : Json → Result Json
rpc_result (obj fs) = elim (lookup "error" (fields fs)) [
  | none ↦ elim (lookup "result" (fields fs)) [ none ↦ raised atp_query_error | some v ↦ ok v ]
  | some e ↦
      if truthy e
      then elim e [ obj _ ↦ raised atp_query_error | _ ↦ raised attribute_error ]
      else elim (lookup "result" (fields fs)) [ none ↦ raised atp_query_error | some v ↦ ok v ]
]
rpc_result (arr vs) =
    if holds_text vs "error" then raised attribute_error else raised atp_query_error
rpc_result (str s) =
    if is_some (find? s "error") then raised attribute_error else raised atp_query_error
rpc_result _ = raised type_error

-- What is wrong with the result itself is a query error.
abbrev as_query_error {ℓ} : {A : Type ℓ} → Result A → Result A
as_query_error (ok a) = ok a
as_query_error (raised e) = raised atp_query_error

-- The `StoredProof` of an answer
unfoldable pub read_proof : (R : Runtime) → Response → Result StoredProof
unfolding rpc_result
read_proof R response = if not (eqb response.status_code 200) then raised atp_query_error else do
  data' ← json_of response
  result ← rpc_result data'
  as_query_error (R.validate_stored_proof result)
