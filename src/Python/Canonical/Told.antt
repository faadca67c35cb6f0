-- ===== src/Python/Canonical/Told.antt =====
-- Values told by their texts: what an array, and what a dict, tells of the values within it.
use Prim.Native.Char.{Char, code}
use text.Mathlib.TextLemmas.{append_cancel_left, cons-eq-cons}
use atp_python.Base.{
  String, ◌<>◌, ◌≡◌, ◌≢◌, refl, subst, sym, ap, ◌∙◌, none, [], ◌∷◌, arith, Bool-cases, inl, inr,
}
use atp_python.Base.Dict.{Dict, lookup}
use atp_python.Base.Texts.{append_one}
use atp_python.Python.Sorting.{str_leb, insert_sorted, sorted}
use atp_python.Python.Json.{
  Json, null, bool, int, str, arr, obj, Items, nil, cons, Fields, end, field, fields,
}
use atp_python.Python.Integers.Unique.{IsClosed}
use atp_python.Python.Canonical.{quote, dumps, SameJson, SameItems, none_left, both}
use atp_python.Python.Canonical.Sameness.{SamePairs}
use atp_python.Python.Canonical.Escapes.{quote-append, quote_unique}
use atp_python.Python.Canonical.Shapes.{
  not_value, after_items, items_text, after_entries, entries_text,
}

-- No dict has a key twice, at any depth: a dict never has.
unfoldable mutual
  pub IsProper : Json → Type 0
  IsProper null = Unit
  IsProper (bool b) = Unit
  IsProper (int i) = Unit
  IsProper (str s) = Unit
  IsProper (arr vs) = AreProper vs
  IsProper (obj fs) = HaveProper fs

  pub AreProper : Items → Type 0
  AreProper nil = Unit
  AreProper (cons v vs) = IsProper v × AreProper vs

  pub HaveProper : Fields → Type 0
  HaveProper end = Unit
  HaveProper (field k v fs) = (lookup k (fields fs) ≡ none) × IsProper v × HaveProper fs

-- The value is told by its text, whatever follows that is not part of a number.
unfoldable pub IsTold : Json → Type 0
IsTold v =
    (w : Json) (u t : String)
    → IsClosed u
    → IsClosed t
    → IsProper w
    → dumps v <> u ≡ dumps w <> t
    → SameJson v w × (u ≡ t)

abbrev pub Each : (Json → Type 0) → Items → Type 0
Each P nil = Unit
Each P (cons v vs) = P v × Each P vs

abbrev pub Values : (Json → Type 0) → Dict Json → Type 0
Values P [] = Unit
Values P ((k, v) ∷ d) = P v × Values P d

insert_sorted-Values :
    (P : Json → Type 0) (k : String) (v : Json) (d : Dict Json)
    → P v
    → Values P d
    → Values P (insert_sorted k v d)
unfolding insert_sorted
insert_sorted-Values P k v [] p h = (p, tt)
insert_sorted-Values P k v ((j, w) ∷ d) p (q, h) = elim (Bool-cases (str_leb k j)) [
  | inl e ↦ rw e (p, (q, h))
  | inr e ↦ rw e (q, insert_sorted-Values P k v d p h)
]

pub sorted-Values :
    (P : Json → Type 0) (fs : Fields) → Values P (fields fs) → Values P (sorted (fields fs))
unfolding sorted
sorted-Values P end h = tt
sorted-Values P (field k v fs) (p, h) =
    insert_sorted-Values P k v (sorted (fields fs)) p (sorted-Values P fs h)

heads_differ :
    (c d : Char) (s r : String)
    → code c ≢ code d
    → String.◌∷◌ c String.[] <> s ≡ String.◌∷◌ d String.[] <> r
    → ⊥
heads_differ c d s r h e =
    h (ap code (cons-eq-cons.0 (sym (append_one c s) ∙ e ∙ append_one d r)).0)

after_items-IsClosed : (vs : Items) (r : String) → IsClosed (after_items vs r)
unfolding after_items
after_items-IsClosed nil r = subst IsClosed (sym (append_one "]" r)) refl
after_items-IsClosed (cons v vs) r = subst IsClosed (sym (append_one "," _)) refl

after_items_unique :
    (vs ws : Items) (u t : String)
    → Each IsTold vs
    → AreProper ws
    → after_items vs u ≡ after_items ws t
    → SameItems vs ws × (u ≡ t)
unfolding after_items IsTold IsProper
after_items_unique nil nil u t told p e = (none_left, append_cancel_left "]" u t e)
after_items_unique nil (cons w ws) u t told p e = absurd (heads_differ "]" "," _ _ (omega arith) e)
after_items_unique (cons v vs) nil u t told p e = absurd (heads_differ "," "]" _ _ (omega arith) e)
after_items_unique (cons v vs) (cons w ws) u t (told, all) (p, ps) e =
    let (first, rest) =
      told w (after_items vs u) (after_items ws t) (after_items-IsClosed vs u)
        (after_items-IsClosed ws t) p (append_cancel_left "," _ _ e) in
    let (others, ends) = after_items_unique vs ws u t all ps rest in (both first others, ends)

pub items_unique :
    (vs ws : Items) (u t : String)
    → Each IsTold vs
    → AreProper ws
    → items_text vs u ≡ items_text ws t
    → SameItems vs ws × (u ≡ t)
unfolding items_text IsTold IsProper
items_unique nil nil u t told p e = (none_left, append_cancel_left "]" u t e)
items_unique nil (cons w ws) u t told p e = absurd (not_value w "]" u (after_items ws t) refl e)
items_unique (cons v vs) nil u t told p e =
    absurd (not_value v "]" t (after_items vs u) refl (sym e))
items_unique (cons v vs) (cons w ws) u t (told, all) (p, ps) e =
    let (first, rest) =
      told w (after_items vs u) (after_items ws t) (after_items-IsClosed vs u)
        (after_items-IsClosed ws t) p e in
    let (others, ends) = after_items_unique vs ws u t all ps rest in (both first others, ends)

after_entries-IsClosed : (d : Dict Json) (r : String) → IsClosed (after_entries d r)
unfolding after_entries
after_entries-IsClosed [] r = subst IsClosed (sym (append_one "}" r)) refl
after_entries-IsClosed ((k, v) ∷ d) r = subst IsClosed (sym (append_one "," _)) refl

after_entries_unique :
    (d e : Dict Json) (u t : String)
    → Values IsTold d
    → Values IsProper e
    → after_entries d u ≡ after_entries e t
    → SamePairs d e × (u ≡ t)
unfolding after_entries IsTold SamePairs
after_entries_unique [] [] u t told p e = (tt, append_cancel_left "}" u t e)
after_entries_unique [] ((j, w) ∷ ws) u t told p e =
    absurd (heads_differ "}" "," _ _ (omega arith) e)
after_entries_unique ((k, v) ∷ d) [] u t told p e =
    absurd (heads_differ "," "}" _ _ (omega arith) e)
after_entries_unique ((k, v) ∷ d) ((j, w) ∷ ws) u t (told, all) (p, ps) e =
    let (keys, tails) = quote_unique k j _ _ (append_cancel_left "," _ _ e) in
    let (first, rest) =
      told w (after_entries d u) (after_entries ws t) (after_entries-IsClosed d u)
        (after_entries-IsClosed ws t) p (append_cancel_left ":" _ _ tails) in
    let (others, ends) = after_entries_unique d ws u t all ps rest in ((keys, first, others), ends)

quote_not_end : (k s r : String) → quote k <> s ≡ "}" <> r → ⊥
quote_not_end k s r e =
    quote_heads (cons-eq-cons.0 (sym (quote-append k s) ∙ e ∙ append_one "}" r)).0
  where
    quote_heads : ◌≡◌ {A = Char} "\"" "}" → ⊥
    quote_heads h = omega (arith, ap code h)

pub entries_unique :
    (d e : Dict Json) (u t : String)
    → Values IsTold d
    → Values IsProper e
    → entries_text d u ≡ entries_text e t
    → SamePairs d e × (u ≡ t)
unfolding entries_text IsTold SamePairs
entries_unique [] [] u t told p e = (tt, append_cancel_left "}" u t e)
entries_unique [] ((j, w) ∷ ws) u t told p e = absurd (quote_not_end j _ u (sym e))
entries_unique ((k, v) ∷ d) [] u t told p e = absurd (quote_not_end k _ t e)
entries_unique ((k, v) ∷ d) ((j, w) ∷ ws) u t (told, all) (p, ps) e =
    let (keys, tails) = quote_unique k j _ _ e in
    let (first, rest) =
      told w (after_entries d u) (after_entries ws t) (after_entries-IsClosed d u)
        (after_entries-IsClosed ws t) p (append_cancel_left ":" _ _ tails) in
    let (others, ends) = after_entries_unique d ws u t all ps rest in ((keys, first, others), ends)
