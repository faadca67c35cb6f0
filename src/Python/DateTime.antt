-- ===== src/Python/DateTime.antt =====
-- `datetime`: a reading of a clock to the microsecond, with its distance from UTC if it is aware.
pub mod Calendar
pub mod Parts
pub mod Printed
pub mod Utc
use atp_python.Base.{
  ℕ, ◌+◌, ◌-◌, ◌*◌, ◌/◌, ◌%◌, String, ◌<>◌, ◌≡◌, refl, Bool, ◌&&◌, ◌||◌, not, Option, none, some,
  ltb, leb, eqb, if◌then◌else◌,
}
use atp_python.Base.Texts.{Lacks, Lacks-append}
use atp_python.Python.Exceptions.{Result, ok, raised, type_error, overflow_error}
use atp_python.Python.Json.{ℤ, pos, negsuc, digit, decimal, digit-Lacks, decimal-Lacks, NotDigit}

-- Seconds by which a local clock is ahead of UTC, or behind it.
pub data Offset : Type 0 where
  east west : ℕ → Offset

abbrev pub utc : Offset
utc = east 0

-- `micros` counts from 0001-01-01T00:00:00 on the local clock.
pub record DateTime : Type 0 where
  pub micros : ℕ
  pub utcoffset : Option Offset

-- Microseconds from year 1 to the end of year 9999.
abbrev pub end_of_time : ℕ
end_of_time = 3652059 * 86400000000

abbrev pub second : ℕ
second = 1000000

abbrev ahead : Offset → ℕ
ahead (east s) = s * second
ahead (west s) = 0

abbrev behind : Offset → ℕ
behind (east s) = 0
behind (west s) = s * second

-- `a < b`. A naive and an aware reading are not ordered.
unfoldable pub is_before : DateTime → DateTime → Result Bool
is_before a b = elim a.utcoffset [
  | none ↦ elim b.utcoffset [ none ↦ ok (ltb a.micros b.micros) | some y ↦ raised type_error ]
  | some x ↦ elim b.utcoffset [
    | none ↦ raised type_error
    | some y ↦ ok (ltb (a.micros + behind x + ahead y) (b.micros + behind y + ahead x))
  ]
]

-- `d + timedelta(seconds=s)`
unfoldable pub add_seconds : DateTime → ℕ → Result DateTime
add_seconds d s =
    let m = d.micros + s * second in
    if ltb m end_of_time then ok (record d { micros = m }) else raised overflow_error

-- `d + timedelta(seconds=s)` for a whole number that may be negative
unfoldable pub shift_seconds : DateTime → ℤ → Result DateTime
unfolding add_seconds
shift_seconds d (pos s) = add_seconds d s
shift_seconds d (negsuc n) =
    let k = (n + 1) * second in
    if ltb d.micros k then raised overflow_error else ok (record d { micros = d.micros - k })

-- `d.astimezone(UTC)` of an aware reading
unfoldable pub astimezone_utc : ℕ → Offset → Result DateTime
astimezone_utc micros x =
    let m = micros + behind x in
    if ltb m (ahead x) || leb end_of_time (m - ahead x)
    then raised overflow_error
    else ok (record { micros = m - ahead x; utcoffset = some utc })

-- The calendar date of a day, counted from 0001-01-01.
pub record Date : Type 0 where
  pub year : ℕ
  pub month : ℕ
  pub day : ℕ

abbrev days_before_month : ℕ → Bool → ℕ
days_before_month m leap =
    let extra : ℕ = if leap then 1 else 0 in
    if ltb m 2
    then 0
    else if ltb m 3
    then 31
    else if ltb m 4
    then 59 + extra
    else if ltb m 5
    then 90 + extra
    else if ltb m 6
    then 120 + extra
    else if ltb m 7
    then 151 + extra
    else if ltb m 8
    then 181 + extra
    else if ltb m 9
    then 212 + extra
    else if ltb m 10
    then 243 + extra
    else if ltb m 11
    then 273 + extra
    else if ltb m 12
    then 304 + extra
    else 334 + extra

-- The date of day `n` of a year.
in_year : ℕ → Bool → ℕ → Date
in_year year leap n =
    let m = (n + 50) / 32 in
    let before = days_before_month m leap in
    if ltb n before
    then record { year = year; month = m - 1; day = n - days_before_month (m - 1) leap + 1 }
    else record { year = year; month = m; day = n - before + 1 }

-- CPython's `_ord2ymd`, for a day counted from 0.
unfoldable pub date_of_day : ℕ → Date
unfolding in_year
date_of_day n =
    let n400 = n / 146097 in
    let n100 = n % 146097 / 36524 in
    let n4 = n % 146097 % 36524 / 1461 in
    let n1 = n % 146097 % 36524 % 1461 / 365 in
    let year = n400 * 400 + n100 * 100 + n4 * 4 + n1 + 1 in
    if eqb n1 4 || eqb n100 4
    then record { year = year - 1; month = 12; day = 31 }
    else in_year year (eqb n1 3 && (not (eqb n4 24) || eqb n100 3))
        (n % 146097 % 36524 % 1461 % 365)

abbrev pub microsecond : DateTime → ℕ
microsecond d = d.micros % second

abbrev date : DateTime → Date
date d = date_of_day (d.micros / 86400000000)

-- `f"{n:02d}"`, `f"{n:04d}"`, `f"{n:06d}"`
abbrev pad2 : ℕ → String
pad2 n = digit (n / 10) <> digit (n % 10)

abbrev pad4 : ℕ → String
pad4 n = pad2 (n / 100) <> pad2 (n % 100)

unfoldable pub pad6 : ℕ → String
pad6 n = pad2 (n / 10000) <> (pad2 (n / 100 % 100) <> pad2 (n % 100))

-- "T%H:%M:%S" of a reading
abbrev clock_text : ℕ → String
clock_text micros =
    let s = micros / second in
    "T" <> (pad2 (s / 3600 % 24) <> (":" <> (pad2 (s / 60 % 60) <> (":" <> pad2 (s % 60)))))

pub month_day : Date → String
month_day d = "-" <> (pad2 d.month <> ("-" <> pad2 d.day))

-- `d.strftime("%Y-%m-%dT%H:%M:%S")`, where `%Y` of a year before 1000 has no leading zeros
unfoldable pub strftime : DateTime → String
unfolding date_of_day month_day decimal digit
strftime d = decimal (date d).year <> (month_day (date d) <> clock_text d.micros)

offset_text : ℕ → String
offset_text s =
    pad2 (s / 3600)
    <> (":" <> (pad2 (s / 60 % 60) <> (if eqb (s % 60) 0 then "" else ":" <> pad2 (s % 60))))

abbrev zone_text : Option Offset → String
zone_text none = ""
zone_text (some (east s)) = "+" <> offset_text s
zone_text (some (west s)) = "-" <> offset_text s

-- `d.isoformat()`
unfoldable pub isoformat : DateTime → String
unfolding date_of_day month_day offset_text pad6 digit
isoformat d =
    pad4 (date d).year
    <> (month_day (date d)
        <> (clock_text d.micros
            <> ((if eqb (microsecond d) 0 then "" else "." <> pad6 (microsecond d))
                <> zone_text d.utcoffset)))

-- What is printed of a date and a time holds digits, dashes, colons and a T.
module _ (k : ℕ) (h : NotDigit k) where
  pad2-Lacks : (n : ℕ) → Lacks k (pad2 n)
  pad2-Lacks n =
      Lacks-append k (digit (n / 10)) (digit (n % 10)) (digit-Lacks k _ h) (digit-Lacks k _ h)

  pub pad6-Lacks : (n : ℕ) → Lacks k (pad6 n)
  pad6-Lacks n =
      unfold pad6 in
      Lacks-append k _ _ (pad2-Lacks _) (Lacks-append k _ _ (pad2-Lacks _) (pad2-Lacks _))

  pub strftime-Lacks :
      (d : DateTime) → Lacks k "-" → Lacks k "T" → Lacks k ":" → Lacks k (strftime d)
  unfolding strftime
  strftime-Lacks d dash t colon = both _ _ (decimal-Lacks k (date d).year h) (
      both _ _ (both _ _ dash (both _ _ (pad2-Lacks _) (both _ _ dash (pad2-Lacks _)))) (
        both _ _ t (
          both _ _ (pad2-Lacks _)
            (both _ _ colon (both _ _ (pad2-Lacks _) (both _ _ colon (pad2-Lacks _)))))))
    where
      both : (s t : String) → Lacks k s → Lacks k t → Lacks k (s <> t)
      both s t = Lacks-append k s t

abbrev pub noon : DateTime
noon = record { micros = 738885 * 86400000000 + 45296 * 1000000 + 120000; utcoffset = some utc }

noon_text : isoformat noon ≡ "2024-01-01T12:34:56.120000+00:00"
unfolding isoformat
noon_text = refl

leap_day : date_of_day 738944 ≡ record { year = 2024; month = 2; day = 29 }
unfolding date_of_day
leap_day = refl
