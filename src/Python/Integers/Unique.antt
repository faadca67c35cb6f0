-- ===== src/Python/Integers/Unique.antt =====
-- What is printed of an integer tells it, whatever follows that is not part of a number.
use Prim.Native.Char.{code}
use Prim.Native.String.{◌∷◌, []}
use text.Mathlib.TextLemmas.{nil-append, cons-append, cons-eq-cons}
use atp_python.Base.{
  ℕ, zero, suc, ◌/◌, ◌%◌, ◌≤◌, ◌<◌, ◌≡◌, refl, sym, ap, ◌∙◌, String, ◌<>◌, Bool, true, false, ◌||◌,
  arith, ltb, eqb, Bool-cases, inl, inr, subst, false≢true,
}
use atp_python.Python.Exceptions.{ok_injective}
use atp_python.Python.Json.{ℤ, pos, negsuc, digit, decimal_within, decimal, integer}
use atp_python.Python.Integers.{is_digit, int_of_text}
use atp_python.Python.Integers.RoundTrip.{code-digit, int_of_text-integer}

abbrev pub in_number : ℕ → Bool
in_number k = is_digit k || eqb k b'-'

abbrev pub IsNumber : String → Type 0
IsNumber [] = Unit
IsNumber (c ∷ s) = (in_number (code c) ≡ true) × IsNumber s

-- The text does not go on with a digit or a sign.
abbrev pub IsClosed : String → Type 0
IsClosed [] = Unit
IsClosed (c ∷ s) = in_number (code c) ≡ false

append-IsNumber : (s t : String) → IsNumber s → IsNumber t → IsNumber (s <> t)
append-IsNumber [] t h k = rw nil-append k
append-IsNumber (c ∷ s) t (p, h) k = rw cons-append (p, append-IsNumber s t h k)

digit-IsNumber : (d : ℕ) → d < 10 → IsNumber (digit d)
digit-IsNumber d h =
    let (c, e, k) = code-digit d h in subst IsNumber (sym e) (ground (arith, k), tt)

decimal_within-IsNumber : (f n : ℕ) → n ≤ f → IsNumber (decimal_within f n)
unfolding decimal_within
decimal_within-IsNumber zero n h = digit-IsNumber n (omega arith)
decimal_within-IsNumber (suc f) n h = elim (Bool-cases (ltb n 10)) [
  | inl e ↦ rw e (digit-IsNumber n (ground arith))
  | inr e ↦ rw e (
      append-IsNumber (decimal_within f (n / 10)) (digit (n % 10))
        (decimal_within-IsNumber f (n / 10) (ground arith)) (digit-IsNumber (n % 10) (omega arith)))
]

pub integer-IsNumber : (i : ℤ) → IsNumber (integer i)
unfolding integer decimal
integer-IsNumber (pos n) = decimal_within-IsNumber n n (omega arith)
integer-IsNumber (negsuc n) =
    append-IsNumber "-" (decimal_within (suc n) (suc n)) (refl, tt)
      (decimal_within-IsNumber (suc n) (suc n) (omega arith))

-- Two numbers before text that is not part of them
number_unique :
    (s t u v : String)
    → IsNumber s
    → IsNumber t
    → IsClosed u
    → IsClosed v
    → s <> u ≡ t <> v
    → (s ≡ t) × (u ≡ v)
number_unique [] [] u v h k cu cv e = (refl, sym (nil-append u) ∙ e ∙ nil-append v)
number_unique [] (d ∷ t) u v h (k, ks) cu cv e =
    absurd (false≢true (sym (subst IsClosed (sym (nil-append u) ∙ e ∙ cons-append d t v) cu) ∙ k))
number_unique (c ∷ s) [] u v (h, hs) k cu cv e =
    absurd
      (false≢true (sym (subst IsClosed (sym (nil-append v) ∙ sym e ∙ cons-append c s u) cv) ∙ h))
number_unique (c ∷ s) (d ∷ t) u v (h, hs) (k, ks) cu cv e =
    let (same, rest) = cons-eq-cons.0 (sym (cons-append c s u) ∙ e ∙ cons-append d t v) in
    let (tails, ends) = number_unique s t u v hs ks cu cv rest in (λ i. same i ∷ tails i, ends)

pub integer_unique :
    (i j : ℤ) (u v : String)
    → IsClosed u
    → IsClosed v
    → integer i <> u ≡ integer j <> v
    → (i ≡ j) × (u ≡ v)
integer_unique i j u v cu cv e =
    let (same, ends) =
      number_unique (integer i) (integer j) u v (integer-IsNumber i) (integer-IsNumber j) cu cv e in
    (ok_injective (sym (int_of_text-integer i) ∙ ap int_of_text same ∙ int_of_text-integer j), ends)
