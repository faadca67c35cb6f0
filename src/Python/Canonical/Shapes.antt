-- ===== src/Python/Canonical/Shapes.antt =====
-- What `dumps` prints before other text: the first character, and what is between the brackets.
use Prim.Native.Char.{Char, code}
use text.Mathlib.TextLemmas.{nil-append, cons-append, append_assoc, cons-eq-cons}
use atp_python.Base.{
  ℕ, String, ◌<>◌, ◌≡◌, ◌≢◌, refl, subst, sym, ap, ◌∙◌, true, false, [], ◌∷◌, arith, eqb,
  if◌then◌else◌, Bool-cases, inl, inr,
}
use atp_python.Base.Dict.{Dict}
use atp_python.Base.Texts.{append_one}
use atp_python.Python.Exceptions.{raised≢ok}
use atp_python.Python.Sorting.{str_leb, insert_sorted, sorted}
use atp_python.Python.Json.{
  Json, null, bool, int, str, arr, obj, Items, nil, cons, Fields, end, field, fields, ℤ, integer,
}
use atp_python.Python.Integers.{int_of_text}
use atp_python.Python.Integers.RoundTrip.{int_of_text-integer}
use atp_python.Python.Integers.Unique.{in_number, IsNumber, integer-IsNumber}
use atp_python.Python.Canonical.{escape, quote, join, pairs, dumps, dumps_items, dumps_fields}
use atp_python.Python.Canonical.Escapes.{quoted, quote-append}

-- What the first character says of the value
abbrev pub kind : ℕ → ℕ
kind k =
    if eqb k b'n'
    then 0
    else if eqb k b't'
    then 1
    else if eqb k b'f'
    then 2
    else if eqb k b'"'
    then 4
    else if eqb k b'['
    then 5
    else if eqb k b'{'
    then 6
    else if in_number k
    then 3
    else 7

abbrev pub tag : Json → ℕ
tag null = 0
tag (bool b) = if b then 1 else 2
tag (int i) = 3
tag (str s) = 4
tag (arr vs) = 5
tag (obj fs) = 6

number_kind : (k : ℕ) → in_number k ≡ true → kind k ≡ 3
number_kind k h = ground arith

StartsWith : ℕ → String → Type 0
StartsWith n t = (c : Char) × (s : String) × (t ≡ String.◌∷◌ c s) × (kind (code c) ≡ n)

starts_number : (s r : String) → IsNumber s → s ≢ "" → StartsWith 3 (s <> r)
unfolding StartsWith
starts_number String.[] r h filled = absurd (filled refl)
starts_number (String.◌∷◌ c s) r (h, _) filled =
    (c, s <> r, cons-append c s r, number_kind (code c) h)

integer-ne-nil : (i : ℤ) → integer i ≢ ""
unfolding int_of_text
integer-ne-nil i e = raised≢ok (sym (ap int_of_text e) ∙ int_of_text-integer i)

starts : (v : Json) (r : String) → StartsWith (tag v) (dumps v <> r)
unfolding dumps StartsWith
starts null r = ("n", "ull" <> r, cons-append "n" "ull" r, refl)
starts (bool true) r = ("t", "rue" <> r, cons-append "t" "rue" r, refl)
starts (bool false) r = ("f", "alse" <> r, cons-append "f" "alse" r, refl)
starts (int i) r = starts_number (integer i) r (integer-IsNumber i) (integer-ne-nil i)
starts (str s) r = ("\"", escape s <> quoted r, quote-append s r, refl)
starts (arr vs) r = (
  "[",
  (join (dumps_items vs) <> "]") <> r,
  append_assoc "[" (join (dumps_items vs) <> "]") r ∙ append_one "[" _,
  refl,
)
starts (obj fs) r = (
  "{",
  (join (pairs (sorted (dumps_fields fs))) <> "}") <> r,
  append_assoc "{" (join (pairs (sorted (dumps_fields fs))) <> "}") r ∙ append_one "{" _,
  refl,
)

kind_of_start : (n m : ℕ) (t : String) → StartsWith n t → StartsWith m t → n ≡ m
unfolding StartsWith
kind_of_start n m t (c, s, e, k) (d, r, f, l) =
    sym k ∙ ap (λ x. kind (code x)) (cons-eq-cons.0 (sym e ∙ f)).0 ∙ l

-- Texts that start alike are those of values of one kind.
pub same_tag : (v w : Json) (u t : String) → dumps v <> u ≡ dumps w <> t → tag v ≡ tag w
unfolding StartsWith
same_tag v w u t e =
    kind_of_start (tag v) (tag w) (dumps w <> t) (subst (StartsWith (tag v)) e (starts v u))
      (starts w t)

-- What starts with a delimiter is no value's text.
pub not_value :
    (w : Json) (d : Char) (u t : String)
    → kind (code d) ≡ 7
    → String.◌∷◌ d String.[] <> u ≡ dumps w <> t
    → ⊥
unfolding StartsWith
not_value w d u t h e =
    below w (kind_of_start 7 (tag w) (dumps w <> t) (d, u, sym e ∙ append_one d u, h) (starts w t))
  where
    below : (v : Json) → 7 ≡ tag v → ⊥
    below null k = omega arith
    below (bool true) k = omega arith
    below (bool false) k = omega arith
    below (int i) k = omega arith
    below (str s) k = omega arith
    below (arr vs) k = omega arith
    below (obj fs) k = omega arith

-- The items of a list behind its first, and its end
unfoldable pub after_items : Items → String → String
after_items nil r = "]" <> r
after_items (cons v vs) r = "," <> (dumps v <> after_items vs r)

unfoldable pub items_text : Items → String → String
items_text nil r = "]" <> r
items_text (cons v vs) r = dumps v <> after_items vs r

join_items :
    (v : Json) (vs : Items) (r : String)
    → join (dumps_items (cons v vs)) <> ("]" <> r) ≡ dumps v <> after_items vs r
unfolding dumps after_items
join_items v nil r = refl
join_items v (cons w ws) r =
    append_assoc (dumps v) ("," <> join (dumps_items (cons w ws))) ("]" <> r)
    ∙ ap (λ x. dumps v <> x)
        (append_assoc "," (join (dumps_items (cons w ws))) ("]" <> r)
          ∙ ap (λ x. "," <> x) (join_items w ws r))

between : (a b s r : String) → (a <> (s <> b)) <> r ≡ a <> (s <> (b <> r))
between a b s r = append_assoc a (s <> b) r ∙ ap (λ x. a <> x) (append_assoc s b r)

pub dumps-arr : (vs : Items) (r : String) → dumps (arr vs) <> r ≡ "[" <> items_text vs r
unfolding dumps items_text
dumps-arr nil r = between "[" "]" "" r ∙ ap (λ x. "[" <> x) (nil-append ("]" <> r))
dumps-arr (cons v vs) r =
    between "[" "]" (join (dumps_items (cons v vs))) r ∙ ap (λ x. "[" <> x) (join_items v vs r)

-- The entries of a dict behind its first, and its end
unfoldable pub after_entries : Dict Json → String → String
after_entries [] r = "}" <> r
after_entries ((k, v) ∷ d) r = "," <> (quote k <> (":" <> (dumps v <> after_entries d r)))

unfoldable pub entries_text : Dict Json → String → String
entries_text [] r = "}" <> r
entries_text ((k, v) ∷ d) r = quote k <> (":" <> (dumps v <> after_entries d r))

printed : Dict Json → Dict String
unfolding dumps
printed [] = []
printed ((k, v) ∷ d) = (k, dumps v) ∷ printed d

entry : (k v r : String) → (quote k <> (":" <> v)) <> r ≡ quote k <> (":" <> (v <> r))
entry k v r = append_assoc (quote k) (":" <> v) r ∙ ap (λ x. quote k <> x) (append_assoc ":" v r)

join_entries :
    (k : String) (v : Json) (d : Dict Json) (r : String)
    → join (pairs (printed ((k, v) ∷ d))) <> ("}" <> r) ≡ entries_text ((k, v) ∷ d) r
unfolding printed entries_text after_entries join pairs
join_entries k v [] r = entry k (dumps v) ("}" <> r)
join_entries k v ((j, w) ∷ d) r =
    append_assoc (quote k <> (":" <> dumps v)) ("," <> join (pairs (printed ((j, w) ∷ d))))
      ("}" <> r)
    ∙ entry k (dumps v) (("," <> join (pairs (printed ((j, w) ∷ d)))) <> ("}" <> r))
    ∙ ap (λ x. quote k <> (":" <> (dumps v <> x)))
        (append_assoc "," (join (pairs (printed ((j, w) ∷ d)))) ("}" <> r)
          ∙ ap (λ x. "," <> x) (join_entries j w d r))

printed-insert_sorted :
    (k : String) (v : Json) (d : Dict Json)
    → insert_sorted k (dumps v) (printed d) ≡ printed (insert_sorted k v d)
unfolding printed insert_sorted
printed-insert_sorted k v [] = refl
printed-insert_sorted k v ((j, w) ∷ d) = elim (Bool-cases (str_leb k j)) [
  | inl e ↦ rw e refl
  | inr e ↦ rw e (ap (λ x. (j, dumps w) ∷ x) (printed-insert_sorted k v d))
]

sorted-dumps_fields : (fs : Fields) → sorted (dumps_fields fs) ≡ printed (sorted (fields fs))
unfolding dumps sorted printed
sorted-dumps_fields end = refl
sorted-dumps_fields (field k v fs) =
    ap (insert_sorted k (dumps v)) (sorted-dumps_fields fs)
    ∙ printed-insert_sorted k v (sorted (fields fs))

entries : (d : Dict Json) (r : String) → join (pairs (printed d)) <> ("}" <> r) ≡ entries_text d r
unfolding printed entries_text join pairs
entries [] r = nil-append ("}" <> r)
entries ((k, v) ∷ d) r = join_entries k v d r

pub dumps-obj :
    (fs : Fields) (r : String) → dumps (obj fs) <> r ≡ "{" <> entries_text (sorted (fields fs)) r
unfolding dumps
dumps-obj fs r =
    between "{" "}" (join (pairs (sorted (dumps_fields fs)))) r
    ∙ ap (λ d. "{" <> (join (pairs d) <> ("}" <> r))) (sorted-dumps_fields fs)
    ∙ ap (λ x. "{" <> x) (entries (sorted (fields fs)) r)
