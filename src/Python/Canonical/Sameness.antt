-- ===== src/Python/Canonical/Sameness.antt =====
-- Dicts that agree when their keys are sorted are the same but for the order of keys.
use atp_python.Base.{
  String, ◌≡◌, ◌≢◌, subst, sym, none, [], ◌∷◌, arith, eq_iff, Bool-cases, inl, inr,
}
use atp_python.Base.Dict.{Dict, lookup}
use atp_python.Python.Sorting.{str_leb, insert_sorted, sorted}
use atp_python.Python.Json.{Json, Items, Fields, end, field, fields, to_fields}
use atp_python.Python.Canonical.{
  SameJson, same, in_arr, in_obj, SameItems, none_left, both, SameFields, done, keep, swap, trans,
}

-- The same entries in the same order
unfoldable pub SamePairs : Dict Json → Dict Json → Type 0
SamePairs [] [] = Unit
SamePairs ((k, v) ∷ d) ((j, w) ∷ e) = (k ≡ j) × SameJson v w × SamePairs d e
SamePairs _ _ = ⊥

mutual
  SameJson-sym : {v w : Json} → SameJson v w → SameJson w v
  SameJson-sym (same v) = same v
  SameJson-sym (in_arr h) = in_arr (SameItems-sym h)
  SameJson-sym (in_obj h) = in_obj (SameFields-sym h)

  SameItems-sym : {vs ws : Items} → SameItems vs ws → SameItems ws vs
  SameItems-sym none_left = none_left
  SameItems-sym (both h hs) = both (SameJson-sym h) (SameItems-sym hs)

  SameFields-sym : {fs gs : Fields} → SameFields fs gs → SameFields gs fs
  SameFields-sym done = done
  SameFields-sym (keep k h hs) = keep k (SameJson-sym h) (SameFields-sym hs)
  SameFields-sym (swap k j v w fs h) = swap j k w v fs λ e. h (sym e)
  SameFields-sym (trans h g) = trans (SameFields-sym g) (SameFields-sym h)

SameFields-refl : (fs : Fields) → SameFields fs fs
SameFields-refl end = done
SameFields-refl (field k v fs) = keep k (same v) (SameFields-refl fs)

pairs-SameFields : (d e : Dict Json) → SamePairs d e → SameFields (to_fields d) (to_fields e)
unfolding SamePairs
pairs-SameFields [] [] h = done
pairs-SameFields [] ((j, w) ∷ e) h = absurd h
pairs-SameFields ((k, v) ∷ d) [] h = absurd h
pairs-SameFields ((k, v) ∷ d) ((j, w) ∷ e) (keys, first, rest) =
    subst (λ i. SameFields (field k v (to_fields d)) (field i w (to_fields e))) keys
      (keep k first (pairs-SameFields d e rest))

-- A key that a dict lacks is not its first, and is not behind it.
lacks :
    (k j : String) (w : Json) (d : Dict Json)
    → lookup k ((j, w) ∷ d) ≡ none
    → (k ≢ j) × (lookup k d ≡ none)
unfolding lookup
lacks k j w d h = (λ e. ground (arith, eq_iff j k), ground (arith, eq_iff j k))

insert_sorted-lacks :
    (k j : String) (w : Json) (d : Dict Json)
    → k ≢ j
    → lookup k d ≡ none
    → lookup k (insert_sorted j w d) ≡ none
unfolding lookup insert_sorted
insert_sorted-lacks k j w [] h none_there = ground (arith, eq_iff j k)
insert_sorted-lacks k j w ((i, x) ∷ d) h none_there =
    ground (arith, eq_iff j k, eq_iff i k, insert_sorted-lacks k j w d)

insert_sorted-SameFields :
    (k : String) (v : Json) (d : Dict Json)
    → lookup k d ≡ none
    → SameFields (field k v (to_fields d)) (to_fields (insert_sorted k v d))
unfolding insert_sorted
insert_sorted-SameFields k v [] h = SameFields-refl (field k v end)
insert_sorted-SameFields k v ((j, w) ∷ d) h = elim (Bool-cases (str_leb k j)) [
  | inl e ↦ rw e (SameFields-refl (field k v (field j w (to_fields d))))
  | inr e ↦
      let (ne, absent) = lacks k j w d h in
      rw e (
        trans (swap k j v w (to_fields d) ne)
          (keep j (same w) (insert_sorted-SameFields k v d absent)))
]

sorted-lacks :
    (k : String) (fs : Fields) → lookup k (fields fs) ≡ none → lookup k (sorted (fields fs)) ≡ none
unfolding sorted
sorted-lacks k end h = h
sorted-lacks k (field j w fs) h =
    let (ne, absent) = lacks k j w (fields fs) h in
    insert_sorted-lacks k j w (sorted (fields fs)) ne (sorted-lacks k fs absent)

-- No key of the dict stands in it twice.
abbrev pub NodupFields : Fields → Type 0
NodupFields end = Unit
NodupFields (field k v fs) = (lookup k (fields fs) ≡ none) × NodupFields fs

sorted-SameFields : (fs : Fields) → NodupFields fs → SameFields fs (to_fields (sorted (fields fs)))
unfolding sorted
sorted-SameFields end h = done
sorted-SameFields (field k v fs) (fresh, h) =
    trans (keep k (same v) (sorted-SameFields fs h))
      (insert_sorted-SameFields k v (sorted (fields fs)) (sorted-lacks k fs fresh))

pub SamePairs-SameFields :
    (fs gs : Fields)
    → NodupFields fs
    → NodupFields gs
    → SamePairs (sorted (fields fs)) (sorted (fields gs))
    → SameFields fs gs
SamePairs-SameFields fs gs f g h = trans (sorted-SameFields fs f) (
    trans (pairs-SameFields (sorted (fields fs)) (sorted (fields gs)) h)
      (SameFields-sym (sorted-SameFields gs g)))
