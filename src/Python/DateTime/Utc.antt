-- ===== src/Python/DateTime/Utc.antt =====
-- Times of UTC: their order, that of their printed texts, and what a text says of its time.
use atp_python.Base.{◌<◌, ◌≡◌, sym, ap, ◌∙◌, false, not, some, arith, ltb}
use atp_python.Python.Exceptions.{ok, ok_injective}
use atp_python.Python.DateTime.{DateTime, utc, is_before, isoformat, end_of_time}
use atp_python.Python.DateTime.Printed.{isoformat-is_before}
use atp_python.Python.Sorting.{str_leb}
use atp_python.Python.Sorting.Earlier.{str_leb_refl}

-- A time of UTC within the calendar, as `datetime.now(UTC)` gives it.
abbrev pub IsUtc : DateTime → Type 0
IsUtc d = (d.utcoffset ≡ some utc) × (d.micros < end_of_time)

pub is_before-utc :
    (d e : DateTime) → IsUtc d → IsUtc e → is_before d e ≡ ok (ltb d.micros e.micros)
unfolding is_before
is_before-utc d e at_d at_e = ground (arith, at_d.0, at_e.0)

-- The test on texts is the test on times.
pub str_leb-utc :
    (d e : DateTime)
    → IsUtc d
    → IsUtc e
    → not (str_leb (isoformat e) (isoformat d)) ≡ ltb d.micros e.micros
str_leb-utc d e at_d at_e =
    ok_injective
      (sym (isoformat-is_before utc d e at_d.0 at_e.0 at_d.1 at_e.1) ∙ is_before-utc d e at_d at_e)

not_before :
    (d e : DateTime) → IsUtc d → IsUtc e → isoformat d ≡ isoformat e → ltb d.micros e.micros ≡ false
not_before d e at_d at_e same =
    sym (str_leb-utc d e at_d at_e)
    ∙ ap (λ s. not (str_leb s (isoformat d))) (sym same)
    ∙ ap not (str_leb_refl (isoformat d))

-- Different times are printed differently.
pub isoformat_injective : (d e : DateTime) → IsUtc d → IsUtc e → isoformat d ≡ isoformat e → d ≡ e
isoformat_injective d e at_d at_e same =
    let micros : d.micros ≡ e.micros =
      ground (arith, not_before d e at_d at_e same, not_before e d at_e at_d (sym same)) in
    let offset : d.utcoffset ≡ e.utcoffset = at_d.0 ∙ sym at_e.0 in
    λ i. record { micros = micros i; utcoffset = offset i }
