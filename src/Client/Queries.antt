-- ===== src/Client/Queries.antt =====
-- The queries of `ATPClient`: commits, systems, assessments and the Exchange's public key.
use atp_python.Base.{
  ℕ, String, ◌<>◌, Bool, Option, none, some, List, [], ◌∷◌, eqb, if◌then◌else◌, not, ◌==◌, ◌||◌,
}
use atp_python.Python.Exceptions.{
  is_a, atp_auth_error, atp_query_error, atp_network_error, atp_verification_error,
}
use atp_python.Python.Exec.{pure, raise, lift, try_except, ◌>>=◌}
use atp_python.Python.Json.{Json, str, int, pos}
use atp_python.Models.{Commit, CommitStatus, confirmed, failed, System, AssessmentsResponse}
use atp_python.Hashing.{hash_with_prefix, traverse}
use atp_python.Wire.{Runtime, Response, get, item, json_of, reject, translate, error_detail}
use atp_python.Wire.Decode.{decode_commit, iterate_rows}
use atp_python.Wire.Records.{text_of, decode_system, decode_assessments}
use atp_python.Client.{Action, http, transmit, request_of}

abbrev status_text : CommitStatus → String
status_text confirmed = "confirmed"
status_text failed = "failed"

module _ (R : Runtime) where
  -- The body of a response to a GET whose subject may be missing.
  unfoldable pub found : Response → Action R Json
  unfolding error_detail
  found response =
      if eqb response.status_code 401
      then raise atp_auth_error
      else if eqb response.status_code 404
      then raise atp_query_error
      else if not (eqb response.status_code 200)
      then reject response atp_query_error
      else lift (json_of response)

  -- The same without the case of a missing subject.
  unfoldable pub listed : Response → Action R Json
  unfolding error_detail
  listed response =
      if eqb response.status_code 401
      then raise atp_auth_error
      else if not (eqb response.status_code 200)
      then reject response atp_query_error
      else lift (json_of response)

  unfoldable pub get_commit : String → Action R Commit
  unfolding found
  get_commit commit_id = do
    h ← http R
    translate atp_query_error (do
      response ← transmit R (request_of R h get ("/api/v1/commits/" <> commit_id) [] none)
      data' ← found response
      lift (decode_commit R data'))

  unfoldable pub get_system_commits : String → Option CommitStatus → ℕ → ℕ → Action R (List Commit)
  unfolding listed
  get_system_commits system_id status limit offset = do
    h ← http R
    translate atp_query_error (do
      response ← transmit R (
          request_of R h get ("/api/v1/systems/" <> (system_id <> "/commits"))
            (("limit", int (pos limit))
              ∷ ("offset", int (pos offset))
              ∷ elim status [ none ↦ [] | some s ↦ ("status", str (status_text s)) ∷ [] ])
            none)
      data' ← listed response
      rows ← lift (iterate_rows data')
      lift (traverse (decode_commit R) rows))

  unfoldable pub get_commit_by_system_and_task : String → String → Action R Commit
  unfolding found
  get_commit_by_system_and_task system_id task_id = do
    h ← http R
    translate atp_query_error (do
      response ← transmit R (
          request_of R h get
            ("/api/v1/systems/" <> (system_id <> ("/tasks/" <> (task_id <> "/commit")))) [] none)
      data' ← found response
      lift (decode_commit R data'))

  unfoldable pub get_system : String → Action R System
  unfolding found
  get_system system_id = do
    h ← http R
    translate atp_query_error (do
      response ← transmit R (request_of R h get ("/api/v1/systems/" <> system_id) [] none)
      data' ← found response
      lift (decode_system R data'))

  unfoldable pub get_assessments : String → String → Action R AssessmentsResponse
  unfolding listed
  get_assessments system_id task_id = do
    h ← http R
    translate atp_query_error (do
      response ← transmit R (
          request_of R h get
            ("/api/v1/systems/" <> (system_id <> ("/tasks/" <> (task_id <> "/assessments")))) []
            none)
      data' ← listed response
      lift (decode_assessments R data'))

  unfoldable pub get_exchange_public_key : Action R String
  unfolding error_detail
  get_exchange_public_key = do
    h ← http R
    translate atp_query_error (do
      response ← transmit R (request_of R h get "/api/v1/exchange/public-key" [] none)
      data' ←
          if not (eqb response.status_code 200)
          then reject response atp_query_error
          else lift (json_of response)
      key ← lift (item "public_key" data')
      pure (text_of R key))

  -- The test of `verify_response` on the commit that was fetched.
  unfoldable pub response_matches : Json → Commit → Bool
  response_matches response_data commit =
      hash_with_prefix R.sha256 response_data == commit.proof_sketch.cryptography.outcome_hash

  unfoldable pub verify_response : String → String → Action R Bool
  unfolding response_matches
  verify_response commit_id response_data =
      try_except
        (do commit ← get_commit commit_id; pure (response_matches (str response_data) commit))
        (λ e.
          if is_a e atp_query_error || is_a e atp_network_error
          then raise atp_verification_error
          else raise e)
