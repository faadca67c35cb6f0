-- ===== src/Python/Json.antt =====
-- The dynamic values that the SDK passes on as JSON: `dict[str, Any]` and what stands in it.
-- Floats are left out.
pub mod Digits
use atp_python.Base.{
  ℕ, zero, suc, ◌/◌, ◌%◌, ◌≤◌, String, ◌<>◌, ◌≡◌, refl, ap, Bool, true, false, List, [], ◌∷◌, arith,
  ltb, if◌then◌else◌, Every, Bool-cases, inl, inr,
}
use atp_python.Base.Dict.{Dict}
use atp_python.Base.Texts.{Lacks, Lacks-append}

-- `negsuc n` is -(n + 1).
pub data ℤ : Type 0 where
  pos : ℕ → ℤ
  negsuc : ℕ → ℤ

mutual
  pub data Json : Type 0 where
    null : Json
    bool : Bool → Json
    int : ℤ → Json
    str : String → Json
    arr : Items → Json
    obj : Fields → Json

  pub data Items : Type 0 where
    nil : Items
    cons : Json → Items → Items

  pub data Fields : Type 0 where
    end : Fields
    field : String → Json → Fields → Fields

abbrev pub items : Items → List Json
items nil = []
items (cons v vs) = v ∷ items vs

abbrev pub fields : Fields → Dict Json
fields end = []
fields (field k v fs) = (k, v) ∷ fields fs

abbrev pub to_items : List Json → Items
to_items [] = nil
to_items (v ∷ vs) = cons v (to_items vs)

abbrev pub to_fields : Dict Json → Fields
to_fields [] = end
to_fields ((k, v) ∷ d) = field k v (to_fields d)

pub items-to_items : (vs : List Json) → items (to_items vs) ≡ vs
items-to_items [] = refl
items-to_items (v ∷ vs) = ap (λ l. v ∷ l) (items-to_items vs)

-- `bool(v)`
abbrev pub truthy : Json → Bool
truthy null = false
truthy (bool b) = b
truthy (int (pos zero)) = false
truthy (int _) = true
truthy (str String.[]) = false
truthy (str _) = true
truthy (arr nil) = false
truthy (arr _) = true
truthy (obj end) = false
truthy (obj _) = true

nth_text : ℕ → List String → String
nth_text n [] = ""
nth_text zero (s ∷ ss) = s
nth_text (suc n) (s ∷ ss) = nth_text n ss

abbrev numerals : List String
numerals =
    "0" ∷ "1" ∷ "2" ∷ "3" ∷ "4" ∷ "5" ∷ "6" ∷ "7" ∷ "8" ∷ "9" ∷ "a" ∷ "b" ∷ "c" ∷ "d" ∷ "e" ∷ "f"
    ∷ []

-- The hexadecimal digit of a number below 16.
unfoldable pub digit : ℕ → String
unfolding nth_text
digit n = nth_text n numerals

nth_text-Lacks : (k n : ℕ) (ss : List String) → Every (Lacks k) ss → Lacks k (nth_text n ss)
unfolding nth_text
nth_text-Lacks k n [] h = tt
nth_text-Lacks k zero (s ∷ ss) (p, h) = p
nth_text-Lacks k (suc n) (s ∷ ss) (p, h) = nth_text-Lacks k n ss h

-- The code is that of no digit.
abbrev pub NotDigit : ℕ → Type 0
NotDigit k = Every (Lacks k) numerals

pub digit-Lacks : (k n : ℕ) → NotDigit k → Lacks k (digit n)
unfolding digit
digit-Lacks k n h = nth_text-Lacks k n numerals h

unfoldable pub decimal_within : ℕ → ℕ → String
decimal_within zero n = digit n
decimal_within (suc f) n =
    let rest = decimal_within f (n / 10) in if ltb n 10 then digit n else rest <> digit (n % 10)

decimal_within-Lacks : (k f n : ℕ) → NotDigit k → Lacks k (decimal_within f n)
unfolding decimal_within
decimal_within-Lacks k zero n h = digit-Lacks k n h
decimal_within-Lacks k (suc f) n h = elim (Bool-cases (ltb n 10)) [
  | inl e ↦ rw e (digit-Lacks k n h)
  | inr e ↦ rw e (
      Lacks-append k (decimal_within f (n / 10)) (digit (n % 10))
        (decimal_within-Lacks k f (n / 10) h) (digit-Lacks k (n % 10) h))
]

-- Fuel as large as the number is enough, and more changes nothing.
pub decimal_fuel : (f g n : ℕ) → n ≤ f → n ≤ g → decimal_within f n ≡ decimal_within g n
unfolding decimal_within
decimal_fuel zero zero n h k = refl
decimal_fuel zero (suc g) n h k = ground arith
decimal_fuel (suc f) zero n h k = ground arith
decimal_fuel (suc f) (suc g) n h k = ground (arith, decimal_fuel f g (n / 10))

-- `str(n)` of a natural number
unfoldable pub decimal : ℕ → String
unfolding decimal_within digit
decimal n = decimal_within n n

pub decimal-Lacks : (k n : ℕ) → NotDigit k → Lacks k (decimal n)
decimal-Lacks k n h = unfold decimal in decimal_within-Lacks k n n h

unfoldable pub integer : ℤ → String
unfolding decimal
integer (pos n) = decimal n
integer (negsuc n) = "-" <> decimal (suc n)
