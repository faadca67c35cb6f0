-- ===== src/Python/Json/Digits.antt =====
-- Digits are ordered as texts as they are as numbers.
use atp_python.Base.{
  ℕ, zero, suc, ◌<◌, String, ◌≡◌, refl, Bool, true, ◌&&◌, List, [], ◌∷◌, arith, length,
}
use atp_python.Python.Sorting.Earlier.{earlier}
use atp_python.Python.Json.{nth_text, numerals, digit}

before_each : String → List String → Bool
before_each s [] = true
before_each s (t ∷ ts) = earlier s t && before_each s ts

rising : List String → Bool
unfolding before_each
rising [] = true
rising (s ∷ ss) = before_each s ss && rising ss

before_nth :
    (s : String) (ss : List String) (n : ℕ)
    → n < length ss
    → before_each s ss ≡ true
    → earlier s (nth_text n ss) ≡ true
unfolding before_each nth_text
before_nth s [] n h r = elim h [ ]
before_nth s (t ∷ ts) zero h r = ground arith
before_nth s (t ∷ ts) (suc n) h r = before_nth s ts n (omega arith) (ground arith)

nth_rising :
    (ss : List String) (a b : ℕ)
    → a < b
    → b < length ss
    → rising ss ≡ true
    → earlier (nth_text a ss) (nth_text b ss) ≡ true
unfolding rising nth_text
nth_rising [] a b h k r = elim k [ ]
nth_rising (s ∷ ss) a zero h k r = elim h [ ]
nth_rising (s ∷ ss) zero (suc b) h k r = before_nth s ss b (omega arith) (ground arith)
nth_rising (s ∷ ss) (suc a) (suc b) h k r =
    nth_rising ss a b (omega arith) (omega arith) (ground arith)

numerals_rise : rising numerals ≡ true
unfolding rising
numerals_rise = refl

pub digit-earlier : (a b : ℕ) → a < b → b < 16 → earlier (digit a) (digit b) ≡ true
unfolding digit
digit-earlier a b h k = nth_rising numerals a b h k numerals_rise
