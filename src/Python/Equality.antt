-- ===== src/Python/Equality.antt =====
-- `v == w` of the values that JSON gives: a Boolean is the number 0 or 1, and a dict has no order.
use atp_python.Base.{Bool, true, false, ◌&&◌, ◌==◌, none, some, eqb, length}
use atp_python.Base.Dict.{lookup}
use atp_python.Python.Json.{
  ℤ, pos, negsuc, Json, null, bool, int, str, arr, obj, Items, nil, cons, Fields, end, field,
  fields,
}

abbrev pub int_eq : ℤ → ℤ → Bool
int_eq (pos m) (pos n) = eqb m n
int_eq (negsuc m) (negsuc n) = eqb m n
int_eq _ _ = false

abbrev pub bool_number : Bool → ℤ
bool_number true = pos 1
bool_number false = pos 0

unfoldable mutual
  pub json_eq : Json → Json → Bool
  json_eq null null = true
  json_eq (bool b) (bool c) = int_eq (bool_number b) (bool_number c)
  json_eq (bool b) (int n) = int_eq (bool_number b) n
  json_eq (int m) (bool c) = int_eq m (bool_number c)
  json_eq (int m) (int n) = int_eq m n
  json_eq (str s) (str t) = s == t
  json_eq (arr vs) (arr ws) = items_eq vs ws
  json_eq (obj fs) (obj gs) = eqb (length (fields fs)) (length (fields gs)) && fields_in fs gs
  json_eq _ _ = false

  pub items_eq : Items → Items → Bool
  items_eq nil nil = true
  items_eq (cons v vs) (cons w ws) = json_eq v w && items_eq vs ws
  items_eq _ _ = false

  pub fields_in : Fields → Fields → Bool
  fields_in end gs = true
  fields_in (field k v fs) gs =
      elim (lookup k (fields gs)) [ none ↦ false | some w ↦ json_eq v w ] && fields_in fs gs
