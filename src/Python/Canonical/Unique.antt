-- ===== src/Python/Canonical/Unique.antt =====
-- `dumps` tells apart all values but those that differ by the order of keys.
use text.Mathlib.TextLemmas.{append_cancel_left}
use atp_python.Base.{String, ◌<>◌, ◌≡◌, subst, sym, ap, ◌∙◌, true, false, arith}
use atp_python.Python.Sorting.{sorted}
use atp_python.Python.Json.{
  Json, null, bool, int, str, arr, obj, Items, nil, cons, Fields, end, field, fields,
}
use atp_python.Python.Integers.Unique.{IsClosed, integer_unique}
use atp_python.Python.Canonical.{dumps, SameJson, same, in_arr, in_obj}
use atp_python.Python.Canonical.Sameness.{NodupFields, SamePairs-SameFields}
use atp_python.Python.Canonical.Escapes.{quote_unique}
use atp_python.Python.Canonical.Shapes.{tag, same_tag, dumps-arr, dumps-obj}
use atp_python.Python.Canonical.Told.{
  IsProper, AreProper, HaveProper, IsTold, Each, Values, sorted-Values, items_unique,
  entries_unique,
}

HaveProper-NodupFields : (fs : Fields) → HaveProper fs → NodupFields fs
unfolding IsProper
HaveProper-NodupFields end h = tt
HaveProper-NodupFields (field k v fs) (fresh, p, h) = (fresh, HaveProper-NodupFields fs h)

HaveProper-Values : (fs : Fields) → HaveProper fs → Values IsProper (fields fs)
unfolding IsProper
HaveProper-Values end h = tt
HaveProper-Values (field k v fs) (fresh, p, h) = (p, HaveProper-Values fs h)

obj-IsTold :
    (fs gs : Fields) (u t : String)
    → HaveProper fs
    → HaveProper gs
    → Values IsTold (fields fs)
    → dumps (obj fs) <> u ≡ dumps (obj gs) <> t
    → SameJson (obj fs) (obj gs) × (u ≡ t)
obj-IsTold fs gs u t p q told e =
    let (pairs, ends) =
      entries_unique (sorted (fields fs)) (sorted (fields gs)) u t (sorted-Values IsTold fs told)
        (sorted-Values IsProper gs (HaveProper-Values gs q))
        (append_cancel_left "{" _ _ (sym (dumps-obj fs u) ∙ e ∙ dumps-obj gs t)) in
    (
      in_obj (
          SamePairs-SameFields fs gs (HaveProper-NodupFields fs p) (HaveProper-NodupFields gs q)
            pairs),
      ends,
    )

arr-IsTold :
    (vs ws : Items) (u t : String)
    → AreProper ws
    → Each IsTold vs
    → dumps (arr vs) <> u ≡ dumps (arr ws) <> t
    → SameJson (arr vs) (arr ws) × (u ≡ t)
arr-IsTold vs ws u t q told e =
    let (items, ends) =
      items_unique vs ws u t told q
        (append_cancel_left "[" _ _ (sym (dumps-arr vs u) ∙ e ∙ dumps-arr ws t)) in
    (in_arr items, ends)

-- The values within a value are told.
abbrev Inside : Json → Type 0
Inside (arr vs) = Each IsTold vs
Inside (obj fs) = Values IsTold (fields fs)
Inside _ = Unit

-- Values of one kind
same_tag-SameJson :
    (v w : Json) (u t : String)
    → tag v ≡ tag w
    → IsClosed u
    → IsClosed t
    → IsProper v
    → IsProper w
    → Inside v
    → dumps v <> u ≡ dumps w <> t
    → SameJson v w × (u ≡ t)
unfolding dumps IsProper
same_tag-SameJson null null u t h cu ct p q inside e = (same null, append_cancel_left "null" u t e)
same_tag-SameJson (bool true) (bool true) u t h cu ct p q inside e =
    (same (bool true), append_cancel_left "true" u t e)
same_tag-SameJson (bool false) (bool false) u t h cu ct p q inside e =
    (same (bool false), append_cancel_left "false" u t e)
same_tag-SameJson (int i) (int j) u t h cu ct p q inside e =
    let (numbers, ends) = integer_unique i j u t cu ct e in
    (subst (λ k. SameJson (int i) (int k)) numbers (same (int i)), ends)
same_tag-SameJson (str s) (str r) u t h cu ct p q inside e =
    let (texts, ends) = quote_unique s r u t e in
    (subst (λ x. SameJson (str s) (str x)) texts (same (str s)), ends)
same_tag-SameJson (arr vs) (arr ws) u t h cu ct p q inside e = arr-IsTold vs ws u t q inside e
same_tag-SameJson (obj fs) (obj gs) u t h cu ct p q inside e = obj-IsTold fs gs u t p q inside e
same_tag-SameJson v w u t h cu ct p q inside e = absurd (ground arith)

inside-IsTold : (v : Json) → IsProper v → Inside v → IsTold v
unfolding IsTold
inside-IsTold v p h w u t cu ct q e = same_tag-SameJson v w u t (same_tag v w u t e) cu ct p q h e

mutual
  unfolding IsProper

  inside : (v : Json) → IsProper v → Inside v
  inside null p = tt
  inside (bool b) p = tt
  inside (int i) p = tt
  inside (str s) p = tt
  inside (arr vs) p = items-Each vs p
  inside (obj fs) p = fields-Values fs p

  items-Each : (vs : Items) → AreProper vs → Each IsTold vs
  items-Each nil p = tt
  items-Each (cons v vs) (p, ps) = (inside-IsTold v p (inside v p), items-Each vs ps)

  fields-Values : (fs : Fields) → HaveProper fs → Values IsTold (fields fs)
  fields-Values end p = tt
  fields-Values (field k v fs) (fresh, p, ps) =
      (inside-IsTold v p (inside v p), fields-Values fs ps)

-- Values whose texts are equal are the same but for the order of keys.
pub dumps_unique : (v w : Json) → IsProper v → IsProper w → dumps v ≡ dumps w → SameJson v w
unfolding IsTold
dumps_unique v w p q e = (inside-IsTold v p (inside v p) w "" "" tt tt q (ap (λ s. s <> "") e)).0
