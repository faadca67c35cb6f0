-- ===== src/Python/DateTime/Printed.antt =====
-- `isoformat` of two readings of clocks with the same offset: the texts are ordered as the readings.
use atp_python.Base.{
  ℕ, ◌/◌, ◌%◌, ◌<◌, ◌≡◌, refl, sym, ap, ap₂, ◌∙◌, inl, inr, true, not, String, ◌<>◌, some, arith,
  ltb, leb, Bool-cases,
}
use atp_python.Python.Exceptions.{ok}
use atp_python.Python.Sorting.{str_leb}
use atp_python.Python.Sorting.Earlier.{
  earlier, earlier-str_leb, str_leb_refl, append-earlier, parts-earlier,
}
use atp_python.Python.DateTime.{
  Date, DateTime, date_of_day, pad4, month_day, clock_text, zone_text, isoformat, second,
  end_of_time, is_before, Offset,
}
use atp_python.Python.DateTime.Calendar.{Precedes, date_of_day-Precedes, date_of_day_bounds}
use atp_python.Python.DateTime.Parts.{
  pad4-earlier, month_day-earlier, clock_text-earlier, fraction, fraction-earlier,
}

-- A reading of a clock with an offset
abbrev reading : Offset → ℕ → DateTime
reading x a = record { micros = a; utcoffset = some x }

-- What is printed of a clock with an offset: the date, and the time.
abbrev time_text : Offset → ℕ → String
time_text x a = clock_text a <> (fraction (a % second) <> zone_text (some x))

abbrev date_text : Date → String → String
date_text d rest = pad4 d.year <> (month_day d <> rest)

isoformat_text :
    (x : Offset) (a : ℕ)
    → isoformat (reading x a) ≡ date_text (date_of_day (a / 86400000000)) (time_text x a)
unfolding isoformat
isoformat_text x a = refl

date_text-earlier :
    (n m : ℕ) (u v : String)
    → n < m
    → m < 3652059
    → earlier (date_text (date_of_day n) u) (date_text (date_of_day m) v) ≡ true
date_text-earlier n m u v h k = by_field (date_of_day-Precedes n m h)
  where
    by_field :
        Precedes (date_of_day n) (date_of_day m)
        → earlier (date_text (date_of_day n) u) (date_text (date_of_day m) v) ≡ true
    by_field (inl lt) =
        parts-earlier (pad4 (date_of_day n).year) (pad4 (date_of_day m).year)
          (month_day (date_of_day n) <> u) (month_day (date_of_day m) <> v)
          (inl
            (pad4-earlier (date_of_day n).year (date_of_day m).year lt (date_of_day_bounds m k).0))
    by_field (inr (same, lt)) =
        parts-earlier (pad4 (date_of_day n).year) (pad4 (date_of_day m).year)
          (month_day (date_of_day n) <> u) (month_day (date_of_day m) <> v)
          (inr (
            ap pad4 same,
            month_day-earlier (date_of_day n) (date_of_day m) u v (date_of_day_bounds m k).1
                (date_of_day_bounds m k).2 lt,
          ))

time_text-earlier :
    (x : Offset) (a b : ℕ)
    → a / 86400000000 ≡ b / 86400000000
    → a < b
    → earlier (time_text x a) (time_text x b) ≡ true
time_text-earlier x a b day h =
    clock_text-earlier a b (fraction (a % second) <> zone_text (some x))
      (fraction (b % second) <> zone_text (some x)) day h
      (λ e. fraction-earlier x (a % second) (b % second) (omega arith) (omega arith))

isoformat-earlier :
    (x : Offset) (a b : ℕ)
    → a < b
    → b < end_of_time
    → earlier (isoformat (reading x a)) (isoformat (reading x b)) ≡ true
isoformat-earlier x a b h k =
    rw (isoformat_text x a, isoformat_text x b)
      (elim (Bool-cases (ltb (a / 86400000000) (b / 86400000000))) [
        | inl e ↦
            date_text-earlier (a / 86400000000) (b / 86400000000) (time_text x a) (time_text x b)
              (ground arith) (omega arith)
        | inr e ↦
            let same : a / 86400000000 ≡ b / 86400000000 = ground arith in
            rw same (
              append-earlier (pad4 (date_of_day (b / 86400000000)).year) _ _ (
                append-earlier (month_day (date_of_day (b / 86400000000))) (time_text x a)
                  (time_text x b) (time_text-earlier x a b same h)))
      ])

-- The texts of two readings are ordered as the readings.
isoformat-str_leb :
    (x : Offset) (a b : ℕ)
    → a < end_of_time
    → b < end_of_time
    → str_leb (isoformat (reading x a)) (isoformat (reading x b)) ≡ leb a b
isoformat-str_leb x a b h k = elim (Bool-cases (ltb a b)) [
  | inl e ↦
      let (le, _) =
        earlier-str_leb (isoformat (reading x a)) (isoformat (reading x b))
          (isoformat-earlier x a b (ground arith) k) in
      rw le (ground arith)
  | inr e ↦ elim (Bool-cases (ltb b a)) [
    | inl e' ↦
        let (_, gt) =
          earlier-str_leb (isoformat (reading x b)) (isoformat (reading x a))
            (isoformat-earlier x b a (ground arith) h) in
        rw gt (ground arith)
    | inr e' ↦
        let same : a ≡ b = ground arith in
        rw (same, str_leb_refl (isoformat (reading x b))) (ground arith)
  ]
]

reading-is_before :
    (x : Offset) (a b : ℕ)
    → a < end_of_time
    → b < end_of_time
    → is_before (reading x a) (reading x b)
      ≡ ok (not (str_leb (isoformat (reading x b)) (isoformat (reading x a))))
unfolding is_before
reading-is_before x a b h k = rw (isoformat-str_leb x b a k h) (ground arith)

reading-eta : (x : Offset) (d : DateTime) → d.utcoffset ≡ some x → d ≡ reading x d.micros
reading-eta x d h = λ i. record { micros = d.micros; utcoffset = h i }

-- The printed texts of two readings within the calendar, of clocks with the same offset from UTC,
-- are ordered as the readings: the one is before the other if and only if its text is smaller.
pub isoformat-is_before :
    (x : Offset) (d e : DateTime)
    → d.utcoffset ≡ some x
    → e.utcoffset ≡ some x
    → d.micros < end_of_time
    → e.micros < end_of_time
    → is_before d e ≡ ok (not (str_leb (isoformat e) (isoformat d)))
isoformat-is_before x d e at_d at_e h k =
    let p = reading-eta x d at_d in
    let q = reading-eta x e at_e in
    ap₂ is_before p q
    ∙ reading-is_before x d.micros e.micros h k
    ∙ sym (ap₂ (λ (r s : DateTime). ok (not (str_leb (isoformat s) (isoformat r)))) p q)
