-- ===== src/Hashing/Content.antt =====
-- Content hashes: what they tell apart, and what they do not.
use mathlib.Core.Path.{ap}
use text.Mathlib.TextLemmas.{append_cancel_left}
use atp_python.Base.{String, ◌<>◌, ◌≡◌, ◌↔◌, refl}
use atp_python.Python.Json.{Json, str, obj, Fields}
use atp_python.Python.Canonical.{dumps, SameJson, same, in_arr, in_obj, dumps-SameJson}
use atp_python.Python.Canonical.Told.{IsProper}
use atp_python.Python.Canonical.Unique.{dumps_unique}
use atp_python.Hashing.Binding.{Separates}
use atp_python.Hashing.{compute_data_hash, hash_with_prefix}

module _ (sha256 : String → String) where
  compute_data_hash-SameJson :
      {v w : Json} → SameJson v w → compute_data_hash sha256 v ≡ compute_data_hash sha256 w
  unfolding compute_data_hash
  compute_data_hash-SameJson (same v) = refl
  compute_data_hash-SameJson (in_arr h) = ap sha256 (dumps-SameJson (in_arr h))
  compute_data_hash-SameJson (in_obj h) = ap sha256 (dumps-SameJson (in_obj h))

  -- Two values that differ by the order of dict keys alone, at any depth, have the same content
  -- hash, whatever the digest function.
  pub hash_with_prefix-SameJson :
      {v w : Json} → SameJson v w → hash_with_prefix sha256 v ≡ hash_with_prefix sha256 w
  unfolding hash_with_prefix
  hash_with_prefix-SameJson h = ap (λ t. "sha256:" <> t) (compute_data_hash-SameJson h)

  -- For dicts in which no key stands twice, at any depth, and whose two canonical texts the digest
  -- function tells apart: the content hashes are equal exactly when the dicts are the same but for
  -- the order of keys. A text is hashed as it is, so one that is the canonical text of a dict has
  -- that dict's hash.
  pub hash_with_prefix_iff :
      (fs gs : Fields)
      → IsProper (obj fs)
      → IsProper (obj gs)
      → Separates sha256 (dumps (obj fs)) (dumps (obj gs))
      → ((hash_with_prefix sha256 (obj fs) ≡ hash_with_prefix sha256 (obj gs))
          ↔ SameJson (obj fs) (obj gs))
        × (hash_with_prefix sha256 (str (dumps (obj fs))) ≡ hash_with_prefix sha256 (obj fs))
  unfolding hash_with_prefix compute_data_hash
  hash_with_prefix_iff fs gs p q separates = (
    (
      λ e. dumps_unique (obj fs) (obj gs) p q (
          separates
            (append_cancel_left "sha256:" (sha256 (dumps (obj fs))) (sha256 (dumps (obj gs))) e)),
      λ h. hash_with_prefix-SameJson h,
    ),
    refl,
  )
