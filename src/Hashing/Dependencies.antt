-- ===== src/Hashing/Dependencies.antt =====
-- The two forms in which an evaluation is passed, an object or a dict, in the dependencies hash.
use atp_python.Base.{
  ◌≡◌, ◌↔◌, refl, ap, ◌∙◌, sym, String, Bool, true, false, Option, none, some, if◌then◌else◌,
}
use atp_python.Base.Dict.{lookup}
use atp_python.Python.Exceptions.{Result, ok, raised, ok_injective, raised≢ok}
use atp_python.Python.Json.{Json, str, obj, Fields, end, field, truthy}
use atp_python.Models.{DependencyEvaluation}
use atp_python.Hashing.{
  format_datetime_rfc3339nano, option_json, omit_empty, dep_eval_to_canonical,
  raw_eval_to_canonical,
}

-- A dict with the fields of the evaluation, as `model_dump` lays it out, whose timestamp is the text
-- `at`.
abbrev pub eval_dict : DependencyEvaluation → String → Json
eval_dict ev at = obj (
    field "evaluation_type" (str ev.evaluation_type) (
      field "evaluation_policy" (option_json ev.evaluation_policy)
        (field "evaluation_result" (str ev.evaluation_result) (field "evaluated_at" (str at) end))))

obj_injective : {f g : Fields} → obj f ≡ obj g → f ≡ g
obj_injective e = cc

rest_injective : {k l : String} {v w : Json} {f g : Fields} → field k v f ≡ field l w g → f ≡ g
rest_injective e = cc

value_injective : {k l s t : String} {f g : Fields} → field k (str s) f ≡ field l (str t) g → s ≡ t
value_injective e = cc

omit_empty-injective :
    (k : String) (v : Option Json) (f g : Fields) → omit_empty k v f ≡ omit_empty k v g → f ≡ g
omit_empty-injective k none f g e = e
omit_empty-injective k (some v) f g e = kept (truthy v) e
  where
    kept : (b : Bool) → (if b then field k v f else f) ≡ (if b then field k v g else g) → f ≡ g
    kept true e = rest_injective e
    kept false e = e

-- The canonical form with a timestamp
abbrev canonical : DependencyEvaluation → String → Json
canonical ev at = obj (
    field "evaluation_type" (str ev.evaluation_type) (
      omit_empty "evaluation_policy" (some (option_json ev.evaluation_policy))
        (field "evaluation_result" (str ev.evaluation_result) (field "evaluated_at" (str at) end))))

raw-canonical :
    (ev : DependencyEvaluation) (at : String)
    → raw_eval_to_canonical (eval_dict ev at) ≡ ok (canonical ev at)
unfolding raw_eval_to_canonical lookup
raw-canonical ev at = refl

canonical_unique :
    (ev : DependencyEvaluation) (at at' : String) → canonical ev at ≡ canonical ev at' → at ≡ at'
canonical_unique ev at at' e = value_injective (
    rest_injective (
      omit_empty-injective "evaluation_policy" (some (option_json ev.evaluation_policy)) _ _
        (rest_injective (obj_injective e))))

-- The object and the dict of one evaluation have one canonical form exactly when the dict's timestamp
-- is the text that `_format_datetime_rfc3339nano` makes of the object's: the dict's text goes into the
-- dependencies hash as it is, so the same instant written otherwise, with +00:00 for Z or with
-- trailing zeros, has another form.
pub eval_to_canonical_iff :
    (ev : DependencyEvaluation) (at : String)
    → (raw_eval_to_canonical (eval_dict ev at) ≡ dep_eval_to_canonical ev)
      ↔ (format_datetime_rfc3339nano ev.evaluated_at ≡ ok at)
unfolding dep_eval_to_canonical
eval_to_canonical_iff ev at = (
  (λ e. told (format_datetime_rfc3339nano ev.evaluated_at) refl (sym (raw-canonical ev at) ∙ e)),
  (λ e. raw-canonical ev at ∙ rw e refl),
)
  where
    told :
        (r : Result String)
        → format_datetime_rfc3339nano ev.evaluated_at ≡ r
        → ok (canonical ev at) ≡ dep_eval_to_canonical ev
        → r ≡ ok at
    told (ok t) formatted e =
        ap ok (sym (canonical_unique ev at t (ok_injective (e ∙ rw formatted refl))))
    told (raised x) formatted e = absurd (raised≢ok {e = x} (sym (e ∙ rw formatted refl)))
