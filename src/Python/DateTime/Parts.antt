-- ===== src/Python/DateTime/Parts.antt =====
-- The parts of what `isoformat` prints, the numbers of fixed width and the fraction of a second:
-- the text of the earlier part is the earlier text.
use text.Mathlib.TextLemmas.{nil-append}
use atp_python.Base.{
  ℕ, ◌/◌, ◌%◌, ◌<◌, ◌≡◌, refl, ap, ◌⊎◌, inl, inr, true, false, String, ◌<>◌, some, arith, eqb,
  if◌then◌else◌, Bool-cases,
}
use atp_python.Python.Json.{digit}
use atp_python.Python.Json.Digits.{digit-earlier}
use atp_python.Python.Sorting.Earlier.{
  earlier, earlier-append, append-earlier, parts-earlier, placed,
}
use atp_python.Python.DateTime.{
  Date, pad2, pad4, pad6, month_day, clock_text, zone_text, second, Offset, east, west,
}

pad2-earlier : (a b : ℕ) → a < b → b < 100 → earlier (pad2 a) (pad2 b) ≡ true
pad2-earlier a b h k =
    placed digit (a / 10) (b / 10) (digit (a % 10)) (digit (b % 10)) (omega arith)
      (λ lt. digit-earlier (a / 10) (b / 10) lt (omega arith))
      (λ e. digit-earlier (a % 10) (b % 10) (omega arith) (omega arith))

pub pad4-earlier : (a b : ℕ) → a < b → b < 10000 → earlier (pad4 a) (pad4 b) ≡ true
pad4-earlier a b h k =
    placed pad2 (a / 100) (b / 100) (pad2 (a % 100)) (pad2 (b % 100)) (omega arith)
      (λ lt. pad2-earlier (a / 100) (b / 100) lt (omega arith))
      (λ e. pad2-earlier (a % 100) (b % 100) (omega arith) (omega arith))

pad6-earlier : (a b : ℕ) → a < b → b < 1000000 → earlier (pad6 a) (pad6 b) ≡ true
unfolding pad6
pad6-earlier a b h k =
    placed pad2 (a / 10000) (b / 10000) (pad2 (a / 100 % 100) <> pad2 (a % 100))
      (pad2 (b / 100 % 100) <> pad2 (b % 100)) (omega arith)
      (λ lt. pad2-earlier (a / 10000) (b / 10000) lt (omega arith))
      (λ e.
        placed pad2 (a / 100 % 100) (b / 100 % 100) (pad2 (a % 100)) (pad2 (b % 100)) (omega arith)
          (λ lt. pad2-earlier (a / 100 % 100) (b / 100 % 100) lt (omega arith))
          (λ e'. pad2-earlier (a % 100) (b % 100) (omega arith) (omega arith)))

-- "-MM-DD"
pub month_day-earlier :
    (d e : Date) (u v : String)
    → e.month < 100
    → e.day < 100
    → (d.month < e.month) ⊎ ((d.month ≡ e.month) × (d.day < e.day))
    → earlier (month_day d <> u) (month_day e <> v) ≡ true
unfolding month_day
month_day-earlier d e u v month day h = earlier-append (month_day d) (month_day e) u v (
    append-earlier "-" (pad2 d.month <> ("-" <> pad2 d.day)) (pad2 e.month <> ("-" <> pad2 e.day)) (
      parts-earlier (pad2 d.month) (pad2 e.month) ("-" <> pad2 d.day) ("-" <> pad2 e.day)
        (fields h)))
  where
    fields :
        (d.month < e.month) ⊎ ((d.month ≡ e.month) × (d.day < e.day))
        → (earlier (pad2 d.month) (pad2 e.month) ≡ true)
          ⊎ ((pad2 d.month ≡ pad2 e.month)
              × (earlier ("-" <> pad2 d.day) ("-" <> pad2 e.day) ≡ true))
    fields (inl lt) = inl (pad2-earlier d.month e.month lt month)
    fields (inr (same, lt)) = inr (
      ap pad2 same,
      append-earlier "-" (pad2 d.day) (pad2 e.day) (pad2-earlier d.day e.day lt day),
    )

-- "THH:MM:SS" of a second of the day
abbrev hms : ℕ → String
hms s = "T" <> (pad2 (s / 3600 % 24) <> (":" <> (pad2 (s / 60 % 60) <> (":" <> pad2 (s % 60)))))

hms-earlier : (s t : ℕ) → s / 86400 ≡ t / 86400 → s < t → earlier (hms s) (hms t) ≡ true
hms-earlier s t day h =
    append-earlier "T" (pad2 (s / 3600 % 24) <> (":" <> minutes s))
      (pad2 (t / 3600 % 24) <> (":" <> minutes t))
      (placed pad2 (s / 3600 % 24) (t / 3600 % 24) (":" <> minutes s) (":" <> minutes t)
        (omega arith) (λ lt. pad2-earlier (s / 3600 % 24) (t / 3600 % 24) lt (omega arith))
        (λ e. append-earlier ":" (minutes s) (minutes t) (
          placed pad2 (s / 60 % 60) (t / 60 % 60) (":" <> pad2 (s % 60)) (":" <> pad2 (t % 60))
            (omega arith) (λ lt. pad2-earlier (s / 60 % 60) (t / 60 % 60) lt (omega arith))
            (λ e'.
              append-earlier ":" (pad2 (s % 60)) (pad2 (t % 60))
                (pad2-earlier (s % 60) (t % 60) (omega arith) (omega arith))))))
  where
    minutes : ℕ → String
    minutes n = pad2 (n / 60 % 60) <> (":" <> pad2 (n % 60))

pub clock_text-earlier :
    (a b : ℕ) (u v : String)
    → a / 86400000000 ≡ b / 86400000000
    → a < b
    → (a / second ≡ b / second → earlier u v ≡ true)
    → earlier (clock_text a <> u) (clock_text b <> v) ≡ true
clock_text-earlier a b u v day h rest =
    placed hms (a / second) (b / second) u v (omega arith)
      (λ lt. hms-earlier (a / second) (b / second) (omega arith) lt) rest

-- A sign comes before the point of a fraction.
zone_text-earlier :
    (x : Offset) (s t : String) → earlier ("" <> zone_text (some x)) (("." <> s) <> t) ≡ true
zone_text-earlier (east k) s t =
    rw nil-append (earlier-append "+" ("." <> s) _ t (earlier-append "+" "." "" s refl))
zone_text-earlier (west k) s t =
    rw nil-append (earlier-append "-" ("." <> s) _ t (earlier-append "-" "." "" s refl))

-- The fraction of a second, if there is one
abbrev pub fraction : ℕ → String
fraction m = if eqb m 0 then "" else "." <> pad6 m

positive : (n : ℕ) → 0 < n → eqb n 0 ≡ false
positive n h = ground arith

pub fraction-earlier :
    (x : Offset) (m n : ℕ)
    → m < n
    → n < second
    → earlier (fraction m <> zone_text (some x)) (fraction n <> zone_text (some x)) ≡ true
fraction-earlier x m n h k =
    let last : fraction n ≡ "." <> pad6 n = rw (positive n (omega arith)) refl in
    rw last (elim (Bool-cases (eqb m 0)) [
      | inl e ↦ rw e (zone_text-earlier x (pad6 n) (zone_text (some x)))
      | inr e ↦ rw e (
          earlier-append ("." <> pad6 m) ("." <> pad6 n) _ _
            (append-earlier "." (pad6 m) (pad6 n) (pad6-earlier m n h k)))
    ])
