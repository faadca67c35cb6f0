-- ===== src/Python/Canonical.antt =====
-- `json.dumps(v, sort_keys=True, separators=(",", ":"))`, with its escapes for all but printable
-- ASCII, and the values that it does not tell apart: those that differ by the order of keys.
pub mod Characters
pub mod Distinct
pub mod Escapes
pub mod Shapes
pub mod Sameness
pub mod Told
pub mod Unique
use Prim.Native.Char.{Char, code}
use mathlib.Core.List.{[], ◌∷◌}
use atp_python.Base.{
  ℕ, ◌+◌, ◌-◌, ◌/◌, ◌%◌, String, ◌<>◌, ◌≡◌, refl, ap, ◌∙◌, ◌≢◌, true, false, ◌&&◌, List, ltb, leb,
  eqb, if◌then◌else◌,
}
use atp_python.Base.Dict.{Dict}
use atp_python.Python.Sorting.{str_leb, insert_sorted, sorted, insert_sorted_comm}
use atp_python.Python.Json.{
  Json, null, bool, int, str, arr, obj, Items, nil, cons, Fields, end, field, pos, digit, integer,
}

-- Four hexadecimal digits.
abbrev hex4 : ℕ → String
hex4 n = digit (n / 4096 % 16) <> (digit (n / 256 % 16) <> (digit (n / 16 % 16) <> digit (n % 16)))

pub escape_char : Char → String
escape_char c =
    let n = code c in
    if eqb n 34
    then "\\\""
    else if eqb n 92
    then "\\\\"
    else if leb 32 n && ltb n 127
    then String.◌∷◌ c String.[]
    else if eqb n 10
    then "\\n"
    else if eqb n 13
    then "\\r"
    else if eqb n 9
    then "\\t"
    else if eqb n 12
    then "\\f"
    else if eqb n 8
    then "\\b"
    else if ltb n 65536
    then "\\u" <> hex4 n
    else "\\u"
      <> (hex4 (55296 + (n - 65536) / 1024) <> ("\\u" <> hex4 (56320 + (n - 65536) % 1024)))

pub escape : String → String
escape String.[] = String.[]
escape (String.◌∷◌ c s) = escape_char c <> escape s

pub quote : String → String
quote s = "\"" <> (escape s <> "\"")

join : List String → String
join [] = String.[]
join (s ∷ []) = s
join (s ∷ t ∷ r) = s <> ("," <> join (t ∷ r))

pairs : Dict String → List String
pairs [] = []
pairs ((k, v) ∷ d) = (quote k <> (":" <> v)) ∷ pairs d

unfoldable mutual
  unfolding quote escape escape_char digit join pairs sorted str_leb integer

  pub dumps : Json → String
  dumps null = "null"
  dumps (bool true) = "true"
  dumps (bool false) = "false"
  dumps (int n) = integer n
  dumps (str s) = quote s
  dumps (arr vs) = "[" <> (join (dumps_items vs) <> "]")
  dumps (obj fs) = "{" <> (join (pairs (sorted (dumps_fields fs))) <> "}")

  pub dumps_items : Items → List String
  dumps_items nil = []
  dumps_items (cons v vs) = dumps v ∷ dumps_items vs

  pub dumps_fields : Fields → Dict String
  dumps_fields end = []
  dumps_fields (field k v fs) = (k, dumps v) ∷ dumps_fields fs

-- The same value but for the order of keys, at any depth.
mutual
  pub data SameJson : Json → Json → Type 0 where
    same : (v : Json) → SameJson v v
    in_arr : {vs ws : Items} → SameItems vs ws → SameJson (arr vs) (arr ws)
    in_obj : {fs gs : Fields} → SameFields fs gs → SameJson (obj fs) (obj gs)

  pub data SameItems : Items → Items → Type 0 where
    none_left : SameItems nil nil
    both :
        {v w : Json} {vs ws : Items}
        → SameJson v w
        → SameItems vs ws
        → SameItems (cons v vs) (cons w ws)

  pub data SameFields : Fields → Fields → Type 0 where
    done : SameFields end end
    keep :
        (k : String) {v w : Json} {fs gs : Fields}
        → SameJson v w
        → SameFields fs gs
        → SameFields (field k v fs) (field k w gs)
    swap :
        (k j : String) (v w : Json) (fs : Fields)
        → k ≢ j
        → SameFields (field k v (field j w fs)) (field j w (field k v fs))
    trans : {fs gs hs : Fields} → SameFields fs gs → SameFields gs hs → SameFields fs hs

mutual
  unfolding dumps

  dumps-same : {v w : Json} → SameJson v w → dumps v ≡ dumps w
  dumps-same (same v) = refl
  dumps-same (in_arr h) = ap (λ l. "[" <> (join l <> "]")) (dumps_items-same h)
  dumps-same (in_obj h) = ap (λ l. "{" <> (join (pairs l) <> "}")) (sorted-dumps_fields-same h)

  dumps_items-same : {vs ws : Items} → SameItems vs ws → dumps_items vs ≡ dumps_items ws
  dumps_items-same none_left = refl
  dumps_items-same (both h hs) = λ i. dumps-same h i ∷ dumps_items-same hs i

  sorted-dumps_fields-same :
      {fs gs : Fields} → SameFields fs gs → sorted (dumps_fields fs) ≡ sorted (dumps_fields gs)
  sorted-dumps_fields-same done = refl
  sorted-dumps_fields-same (keep k h hs) =
      λ i. insert_sorted k (dumps-same h i) (sorted-dumps_fields-same hs i)
  sorted-dumps_fields-same (swap k j v w fs h) =
      insert_sorted_comm k j (dumps v) (dumps w) (sorted (dumps_fields fs)) h
  sorted-dumps_fields-same (trans h g) = sorted-dumps_fields-same h ∙ sorted-dumps_fields-same g

-- The order of keys does not show in the text, at any depth.
pub dumps-SameJson : {v w : Json} → SameJson v w → dumps v ≡ dumps w
dumps-SameJson h = dumps-same h

test_dumps :
    dumps (obj (field "b" (int (pos 12)) (field "a" (arr (cons (str "x\"é") (cons null nil))) end)))
    ≡ "{\"a\":[\"x\\\"\\u00e9\",null],\"b\":12}"
unfolding dumps
test_dumps = refl
