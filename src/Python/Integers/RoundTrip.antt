-- ===== src/Python/Integers/RoundTrip.antt =====
-- `int(str(n))` is `n`.
use Prim.Native.Char.{Char, code}
use Prim.Native.String.{◌∷◌, []}
use text.Mathlib.TextLemmas.{nil-append, cons-append}
use atp_python.Base.{
  ℕ, zero, suc, ◌+◌, ◌*◌, ◌/◌, ◌%◌, ◌≤◌, ◌<◌, ◌≡◌, refl, ap, ◌∙◌, String, ◌<>◌, Bool, true, false,
  arith, ltb, Bool-cases, inl, inr,
}
use atp_python.Python.Exceptions.{ok}
use atp_python.Python.Json.{ℤ, pos, negsuc, digit, decimal_within, decimal, integer}
use atp_python.Python.Integers.{
  Reading, start, need, have, is_digit, advance, read_from, finish, int_of_text,
}

read_from-append : (r : Reading) (s t : String) → read_from r (s <> t) ≡ read_from (read_from r s) t
unfolding read_from
read_from-append r [] t = ap (read_from r) (nil-append t)
read_from-append r (c ∷ s) t =
    ap (read_from r) (cons-append c s t) ∙ read_from-append (advance r (code c)) s t

-- A digit is one character, and its code tells it.
pub code-digit : (d : ℕ) → d < 10 → (c : Char) × (digit d ≡ c ∷ []) × (code c ≡ b'0' + d)
unfolding digit
code-digit zero h = ("0", refl, refl)
code-digit (suc zero) h = ("1", refl, refl)
code-digit (suc (suc zero)) h = ("2", refl, refl)
code-digit (suc (suc (suc zero))) h = ("3", refl, refl)
code-digit (suc (suc (suc (suc zero)))) h = ("4", refl, refl)
code-digit (suc (suc (suc (suc (suc zero))))) h = ("5", refl, refl)
code-digit (suc (suc (suc (suc (suc (suc zero)))))) h = ("6", refl, refl)
code-digit (suc (suc (suc (suc (suc (suc (suc zero))))))) h = ("7", refl, refl)
code-digit (suc (suc (suc (suc (suc (suc (suc (suc zero)))))))) h = ("8", refl, refl)
code-digit (suc (suc (suc (suc (suc (suc (suc (suc (suc zero))))))))) h = ("9", refl, refl)
code-digit (suc (suc (suc (suc (suc (suc (suc (suc (suc (suc d)))))))))) h =
    absurd (omega (arith, h))

is_digit_code : (d : ℕ) → d < 10 → is_digit (b'0' + d) ≡ true
is_digit_code d h = ground arith

-- A state in which a digit starts a number.
data Starts : Bool → Reading → Type 0 where
  at_start : Starts false start
  after_sign : (negative : Bool) → Starts negative (need negative 0)

read_char :
    (r : Reading) (d : ℕ) (c : Char)
    → digit d ≡ c ∷ []
    → code c ≡ b'0' + d
    → read_from r (digit d) ≡ advance r (b'0' + d)
unfolding read_from
read_char r d c e k = ap (read_from r) e ∙ ap (advance r) k

read_first :
    (negative : Bool) (r : Reading)
    → Starts negative r
    → (d : ℕ) → d < 10
    → read_from r (digit d) ≡ have negative d
read_first negative r at_start d h =
    let (c, e, k) = code-digit d h in
    read_char start d c e k ∙ rw (is_digit_code d h) (ap (have false) (omega arith))
read_first negative r (after_sign b) d h =
    let (c, e, k) = code-digit d h in
    read_char (need b 0) d c e k ∙ rw (is_digit_code d h) (ap (have b) (omega arith))

read_next :
    (negative : Bool) (m d : ℕ)
    → d < 10
    → read_from (have negative m) (digit d) ≡ have negative (m * 10 + d)
read_next negative m d h =
    let (c, e, k) = code-digit d h in
    read_char (have negative m) d c e k ∙ rw (is_digit_code d h) (ap (have negative) (omega arith))

read_decimal :
    (negative : Bool) (r : Reading)
    → Starts negative r
    → (f n : ℕ) → n ≤ f
    → read_from r (decimal_within f n) ≡ have negative n
unfolding decimal_within
read_decimal negative r s zero n h = read_first negative r s n (omega (arith, h))
read_decimal negative r s (suc f) n h = elim (Bool-cases (ltb n 10)) [
  | inl e ↦ rw e (read_first negative r s n (ground arith))
  | inr e ↦ rw e (
      read_from-append r (decimal_within f (n / 10)) (digit (n % 10))
      ∙ ap (λ x. read_from x (digit (n % 10))) (read_decimal negative r s f (n / 10) (ground arith))
      ∙ read_next negative (n / 10) (n % 10) (omega arith)
      ∙ ap (have negative) (omega arith))
]

-- `int(str(n))` is `n`.
pub int_of_text-integer : (n : ℤ) → int_of_text (integer n) ≡ ok n
unfolding int_of_text integer decimal
int_of_text-integer (pos n) = ap finish (read_decimal false start at_start n n (omega arith))
int_of_text-integer (negsuc n) = ap finish (
    read_from-append start "-" (decimal (suc n))
    ∙ read_decimal true (need true 0) (after_sign true) (suc n) (suc n) (omega arith))
