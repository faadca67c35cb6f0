-- ===== src/Task/Wrapper.antt =====
-- `ATPResponseWrapper` of atp/core/utils.py.
use atp_python.Base.{String, Bool, [], ◌∷◌}
use atp_python.Base.Dict
use atp_python.Base.Dict.{Dict}
use atp_python.Python.Json.{Json, str, bool}

pub record ResponseWrapper : Type 0 where
  pub atp_task_id : String
  pub result : Json
  pub atp_committed : Bool
  pub extra : Dict Json

-- `{**d, **extra}`
abbrev merge {ℓ} : {V : Type ℓ} → Dict V → Dict V → Dict V
merge d [] = d
merge d ((k, v) ∷ extra) = merge (Dict.insert k v d) extra

-- `to_dict`, where an extra field replaces the field of that name
unfoldable pub to_dict : ResponseWrapper → Dict Json
to_dict w =
    merge
      (("atp_task_id", str w.atp_task_id)
        ∷ ("result", w.result)
        ∷ ("atp_committed", bool w.atp_committed)
        ∷ [])
      w.extra
