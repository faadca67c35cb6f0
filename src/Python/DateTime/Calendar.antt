-- ===== src/Python/DateTime/Calendar.antt =====
-- The date of a later day is a later date.
use atp_python.Base.{
  ℕ, zero, suc, ◌+◌, ◌*◌, ◌/◌, ◌%◌, ◌<◌, ◌≡◌, refl, ◌⊎◌, inl, inr, Bool, true, false, not, ◌&&◌,
  ◌||◌, arith, ltb, eqb, if◌then◌else◌, Bool-cases, sym, ◌∙◌,
}
use atp_python.Python.DateTime.{Date, date_of_day, in_year}

-- Month and day as one number.
mark : Date → ℕ
mark d = d.month * 100 + d.day

-- The marks rise from each of the first `n` days to the next, and are those of dates in form.
rises : (ℕ → Date) → ℕ → Bool
rises f zero = true
rises f (suc n) =
    let rest = rises f n in
    ltb (mark (f n)) (mark (f (suc n))) && (ltb (f n).month 100 && (ltb (f n).day 100 && rest))

abbrev first_year : Bool → ℕ → Date
first_year leap n = in_year 1 leap n

rises_366 : (leap : Bool) → rises (first_year leap) 366 ≡ true
unfolding rises in_year mark
rises_366 true = refl
rises_366 false = refl

rises_at :
    (f : ℕ → Date) (n k : ℕ)
    → rises f n ≡ true
    → k < n
    → (mark (f k) < mark (f (suc k))) × ((f k).month < 100) × ((f k).day < 100)
unfolding rises
rises_at f zero k h lt = elim lt [ ]
rises_at f (suc n) k h lt = elim (Bool-cases (eqb k n)) [
  | inl e ↦ let same : k ≡ n = ground arith in rw same (ground arith)
  | inr e ↦ rises_at f n k (ground arith) (ground arith)
]

of_year :
    (leap : Bool) (k : ℕ)
    → k < 366
    → (mark (in_year 1 leap k) < mark (in_year 1 leap (suc k)))
      × ((in_year 1 leap k).month < 100)
      × ((in_year 1 leap k).day < 100)
of_year leap k h = rises_at (first_year leap) 366 k (rises_366 leap) h

-- The year does not show in the marks.
in_year_year :
    (y : ℕ) (leap : Bool) (n : ℕ)
    → ((in_year y leap n).year ≡ y)
      × ((in_year y leap n).month ≡ (in_year 1 leap n).month)
      × ((in_year y leap n).day ≡ (in_year 1 leap n).day)
unfolding in_year
in_year_year y leap n = ground arith

mark_mono :
    (leap : Bool) (a b : ℕ) → a < b → b < 366 → mark (in_year 1 leap a) < mark (in_year 1 leap b)
mark_mono leap a zero h k = elim h [ ]
mark_mono leap a (suc b) h k = elim (Bool-cases (eqb a b)) [
  | inl e ↦ let same : a ≡ b = ground arith in rw same ((of_year leap b (omega arith)).0)
  | inr e ↦
      omega (arith, mark_mono leap a b (ground arith) (omega arith), of_year leap b (omega arith))
]

-- The first date is earlier than the second, field by field.
abbrev pub Precedes : Date → Date → Type 0
Precedes d e =
    (d.year < e.year)
    ⊎ ((d.year ≡ e.year) × ((d.month < e.month) ⊎ ((d.month ≡ e.month) × (d.day < e.day))))

later_fields :
    (m d m' d' : ℕ)
    → m * 100 + d < m' * 100 + d'
    → d < 100
    → d' < 100
    → (m < m') ⊎ ((m ≡ m') × (d < d'))
later_fields m d m' d' h k k' = elim (Bool-cases (ltb m m')) [
  | inl e ↦ inl (ground arith)
  | inr e ↦ inr (ground arith, ground arith)
]

-- Within a year
in_year-Precedes :
    (y : ℕ) (leap : Bool) (a b : ℕ)
    → a < b
    → b < 366
    → Precedes (in_year y leap a) (in_year y leap b)
unfolding mark
in_year-Precedes y leap a b h k =
    let (ya, ma, da) = in_year_year y leap a in
    let (yb, mb, db) = in_year_year y leap b in
    let (ra, oa, pa) = of_year leap a (omega arith) in
    let (rb, ob, pb) = of_year leap b k in
    inr (ya ∙ sym yb, rw (ma, mb, da, db) (later_fields _ _ _ _ (mark_mono leap a b h k) pa pb))

abbrev is_leap : ℕ → ℕ → ℕ → Bool
is_leap b c d = eqb d 3 && (not (eqb c 24) || eqb b 3)

-- A day within its cycle of 400 years, century, cycle of 4 years and year.
record Cycle (n : ℕ) : Type 0 where
  a : ℕ
  b : ℕ
  c : ℕ
  d : ℕ
  r : ℕ
  sum : n ≡ a * 146097 + b * 36524 + c * 1461 + d * 365 + r
  century : b < 4
  fours : c < 25
  years : d < 4
  days : r < (if is_leap b c d then 366 else 365)
  is_date : date_of_day n ≡ in_year (a * 400 + b * 100 + c * 4 + d + 1) (is_leap b c d) r

last_day : (y : ℕ) → in_year y true 365 ≡ record { year = y; month = 12; day = 31 }
unfolding in_year
last_day y = refl

cycle : (n : ℕ) → Cycle n
unfolding date_of_day
cycle n = elim (Bool-cases (eqb (n % 146097 / 36524) 4)) [
  | inl e ↦ record {
    a = n / 146097;
    b = 3;
    c = 24;
    d = 3;
    r = 365;
    sum = ground arith;
    century = omega arith;
    fours = omega arith;
    years = omega arith;
    days = omega arith;
    is_date = ground arith;
  }
  | inr e ↦ elim (Bool-cases (eqb (n % 146097 % 36524 % 1461 / 365) 4)) [
    | inl e' ↦ record {
      a = n / 146097;
      b = n % 146097 / 36524;
      c = n % 146097 % 36524 / 1461;
      d = 3;
      r = 365;
      sum = ground arith;
      century = ground arith;
      fours = ground arith;
      years = omega arith;
      days = ground arith;
      is_date =
          let leap : is_leap (n % 146097 / 36524) (n % 146097 % 36524 / 1461) 3 ≡ true =
            ground arith in
          rw leap (ground arith);
    }
    | inr e' ↦ record {
      a = n / 146097;
      b = n % 146097 / 36524;
      c = n % 146097 % 36524 / 1461;
      d = n % 146097 % 36524 % 1461 / 365;
      r = n % 146097 % 36524 % 1461 % 365;
      sum = ground arith;
      century = ground arith;
      fours = ground arith;
      years = ground arith;
      days = ground arith;
      is_date = rw (e, e') refl;
    }
  ]
]

abbrev year_of : {k : ℕ} → Cycle k → ℕ
year_of z = z.a * 400 + z.b * 100 + z.c * 4 + z.d

-- A day of an earlier year is an earlier day.
earlier_year : (n m : ℕ) (x : Cycle n) (y : Cycle m) → year_of x < year_of y → n < m
earlier_year n m x y h =
    ground (
      arith, x.sum, y.sum, x.days, y.days, x.century, y.century, x.fours, y.fours, x.years, y.years,
    )

module _ (n m : ℕ) (x : Cycle n) (y : Cycle m) where
  same_year : year_of x ≡ year_of y → (x.a ≡ y.a) × (x.b ≡ y.b) × (x.c ≡ y.c) × (x.d ≡ y.d)
  same_year h = omega (arith, x.century, y.century, x.fours, y.fours, x.years, y.years)

  precedes : n < m → Precedes (date_of_day n) (date_of_day m)
  precedes h = elim (Bool-cases (ltb (year_of x) (year_of y))) [
    | inl e ↦
        rw
          (
            x.is_date,
            y.is_date,
            (in_year_year (year_of x + 1) (is_leap x.b x.c x.d) x.r).0,
            (in_year_year (year_of y + 1) (is_leap y.b y.c y.d) y.r).0,
          )
          (inl (ground arith))
    | inr e ↦
        let same : year_of x ≡ year_of y = ground (arith, earlier_year m n y x) in
        let (p, q, s, t) = same_year same in
        let later : x.r < y.r = omega (arith, x.sum, y.sum) in
        rw (x.is_date, y.is_date, p, q, s, t)
          (in_year-Precedes _ _ x.r y.r later (ground (arith, y.days)))
  ]

-- Of two days, the later has the later date.
pub date_of_day-Precedes : (n m : ℕ) → n < m → Precedes (date_of_day n) (date_of_day m)
date_of_day-Precedes n m h = precedes n m (cycle n) (cycle m) h

-- No field of a date of the calendar has more digits than are printed.
pub date_of_day_bounds :
    (n : ℕ)
    → n < 3652059
    → ((date_of_day n).year < 10000) × ((date_of_day n).month < 100) × ((date_of_day n).day < 100)
date_of_day_bounds n h = within (cycle n)
  where
    within :
        Cycle n
        → ((date_of_day n).year < 10000)
          × ((date_of_day n).month < 100)
          × ((date_of_day n).day < 100)
    within x =
        let leap = is_leap x.b x.c x.d in
        let year = x.a * 400 + x.b * 100 + x.c * 4 + x.d + 1 in
        let (y, m, d) = in_year_year year leap x.r in
        let (r, o, p) = of_year leap x.r (ground (arith, x.days)) in
        rw (x.is_date, y, m, d) (omega (arith, x.sum, x.century, x.fours, x.years), o, p)
