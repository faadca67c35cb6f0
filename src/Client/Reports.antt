-- ===== src/Client/Reports.antt =====
-- `report_assessment` of `ATPClient`.
use atp_python.Base.{String, Option, none, some, [], ◌∷◌, eqb, if◌then◌else◌, not}
use atp_python.Base.Dict.{Dict}
use atp_python.Python.Exceptions.{
  Result, ok, raised, is_a, atp_auth_error, atp_query_error, atp_network_error, request_error,
  runtime_error,
}
use atp_python.Python.Exec.{pure, raise, lift, try_except, ◌>>=◌}
use atp_python.Python.Json.{Json, str, obj, end, field}
use atp_python.Python.DateTime.{DateTime, isoformat}
use atp_python.Models.{
  AssessmentDimension, integrity, quality, compliance, AssessmentRecord, IntegrityAssessment,
  verified, compromised,
}
use atp_python.Wire.{as_str, Runtime, Response, post, json_of, item, reject, error_detail, created}
use atp_python.Wire.Decode.{iso}
use atp_python.Client.{Action, http, transmit, request_of, optional_field}

abbrev pub dimension_text : AssessmentDimension → String
dimension_text integrity = "integrity"
dimension_text quality = "quality"
dimension_text compliance = "compliance"

abbrev pub verdict_text : IntegrityAssessment → String
verdict_text verified = "verified"
verdict_text compromised = "compromised"

-- The first entry of a dict, in insertion order.
abbrev pub first_entry {ℓ} : {V : Type ℓ} → Dict V → Option (String × V)
first_entry [] = none
first_entry (e ∷ d) = some e

-- What `report_assessment` takes. The task id is a text, or what an agent sent in its place.
pub record Assessment : Type 0 where
  pub assessed_system_id : String
  pub assessed_task_id : Json
  pub dimension : AssessmentDimension
  pub assessment : String
  pub assessed_at : DateTime
  pub assessor_task_id : Option String

module _ (R : Runtime) where
  abbrev optional_text : Option String → Option Json
  optional_text none = none
  optional_text (some s) = some (str s)

  abbrev pub assessment_payload : String → Assessment → Json
  assessment_payload assessor a = obj (
      field "assessor_system_id" (str assessor) (
        field "assessed_system_id" (str a.assessed_system_id) (
          field "assessed_task_id" a.assessed_task_id (
            field "dimension" (str (dimension_text a.dimension)) (
              field "assessment" (str a.assessment) (
                field "assessed_at" (str (isoformat a.assessed_at))
                  (optional_field "assessor_task_id" (optional_text a.assessor_task_id) end)))))))

  abbrev decode_report : String → Assessment → Json → Result AssessmentRecord
  decode_report assessor a data' = elim (item "assessment_id" data') [
    | raised e ↦ raised e
    | ok id ↦ elim (item "recorded_at" data') [
      | raised e ↦ raised e
      | ok at ↦ elim (iso R at) [
        | raised e ↦ raised e
        | ok recorded ↦ elim (as_str id) [
          | raised e ↦ raised e
          | ok id_text ↦ elim (as_str a.assessed_task_id) [
            | raised e ↦ raised e
            | ok task_id ↦ ok (record {
              assessment_id = id_text;
              assessor_system_id = assessor;
              assessor_task_id = a.assessor_task_id;
              assessed_system_id = a.assessed_system_id;
              assessed_task_id = task_id;
              dimension = a.dimension;
              assessment = a.assessment;
              assessed_at = a.assessed_at;
              created_at = recorded;
            })
          ]
        ]
      ]
    ]
  ]

  -- 409 means that the assessment is there already.
  accept_report : String → Assessment → Response → Action R (Option AssessmentRecord)
  unfolding error_detail
  accept_report assessor a response =
      if eqb response.status_code 409
      then pure none
      else if eqb response.status_code 401
      then raise atp_auth_error
      else if not (created response.status_code)
      then reject response atp_query_error
      else do
        data' ← lift (json_of response)
        assessment ← lift (decode_report assessor a data')
        pure (some assessment)

  -- Only a failed request is translated; what the body raises goes through.
  report_as : String → Assessment → Action R (Option AssessmentRecord)
  unfolding accept_report isoformat
  report_as assessor a = do
    h ← http R
    try_except
        (do
          response ←
              transmit R
                (request_of R h post "/api/v1/assess" [] (some (assessment_payload assessor a)))
          accept_report assessor a response)
        (λ e. if is_a e request_error then raise atp_network_error else raise e)

  unfoldable pub report_assessment : Assessment → Action R (Option AssessmentRecord)
  unfolding report_as
  report_assessment a w = elim (first_entry w.client.registered_systems) [
    | none ↦ raise runtime_error w
    | some (name, assessor) ↦ report_as assessor a w
  ]
