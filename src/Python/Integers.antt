-- ===== src/Python/Integers.antt =====
-- `int(s)` of an ASCII text: spaces around a sign and decimal digits, which single underscores may
-- separate. Digits and spaces of other scripts, and the limit of 4300 digits, are left out.
pub mod RoundTrip
pub mod Unique
use Prim.Native.Char.{Char, code}
use Prim.Native.String.{◌∷◌, []}
use atp_python.Base.{
  ℕ, zero, suc, ◌+◌, ◌-◌, ◌*◌, String, Bool, true, false, ◌&&◌, ◌||◌, eqb, leb, if◌then◌else◌,
}
use atp_python.Python.Exceptions.{Result, ok, raised, value_error}
use atp_python.Python.Json.{ℤ, pos, negsuc}

abbrev pub is_digit : ℕ → Bool
is_digit k = leb b'0' k && leb k b'9'

abbrev is_space : ℕ → Bool
is_space k = eqb k b' ' || (leb 9 k && leb k 13)

-- What was read so far: nothing, or a number, behind which a digit must come (`need`), may come
-- (`have`) or may not come any more (`over`). The Boolean says that it is negative.
pub data Reading : Type 0 where
  start bad : Reading
  need have over : Bool → ℕ → Reading

abbrev push : Bool → ℕ → ℕ → Reading
push negative n k = have negative (n * 10 + (k - b'0'))

abbrev pub advance : Reading → ℕ → Reading
advance start k =
    if is_digit k
    then push false 0 k
    else if is_space k
    then start
    else if eqb k b'-'
    then need true 0
    else if eqb k b'+'
    then need false 0
    else bad
advance (need negative n) k = if is_digit k then push negative n k else bad
advance (have negative n) k =
    if is_digit k
    then push negative n k
    else if eqb k b'_'
    then need negative n
    else if is_space k
    then over negative n
    else bad
advance (over negative n) k = if is_space k then over negative n else bad
advance bad k = bad

unfoldable pub read_from : Reading → String → Reading
read_from r [] = r
read_from r (c ∷ s) = read_from (advance r (code c)) s

abbrev pub signed : Bool → ℕ → ℤ
signed false n = pos n
signed true zero = pos zero
signed true (suc n) = negsuc n

abbrev pub finish : Reading → Result ℤ
finish (have negative n) = ok (signed negative n)
finish (over negative n) = ok (signed negative n)
finish _ = raised value_error

unfoldable pub int_of_text : String → Result ℤ
unfolding read_from
int_of_text s = finish (read_from start s)
