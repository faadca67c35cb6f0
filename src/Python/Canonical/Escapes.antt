-- ===== src/Python/Canonical/Escapes.antt =====
-- What is printed between quotes tells the text, whatever follows the closing quote.
use Prim.Native.Char.{Char}
use text.Mathlib.TextLemmas.{nil-append, cons-append, append_assoc, cons-eq-cons}
use atp_python.Base.{String, ◌<>◌, ◌≡◌, refl, sym, ap, ◌∙◌}
use atp_python.Python.Canonical.{escape_char, escape, quote}
use atp_python.Python.Canonical.Distinct.{escape_char_unique, escape_char-ne-quote}

abbrev pub quoted : String → String
quoted u = String.◌∷◌ "\"" u

escape-cons :
    (c : Char) (s u : String) → escape (String.◌∷◌ c s) <> u ≡ escape_char c <> (escape s <> u)
unfolding escape
escape-cons c s u = append_assoc (escape_char c) (escape s) u

escape_unique : (s t u v : String) → escape s <> quoted u ≡ escape t <> quoted v → (s ≡ t) × (u ≡ v)
unfolding escape
escape_unique String.[] String.[] u v e =
    (refl, (cons-eq-cons.0 (sym (nil-append (quoted u)) ∙ e ∙ nil-append (quoted v))).1)
escape_unique String.[] (String.◌∷◌ d t) u v e = absurd (
    escape_char-ne-quote d (escape t <> quoted v) u
      (sym (sym (nil-append (quoted u)) ∙ e ∙ append_assoc (escape_char d) (escape t) (quoted v))))
escape_unique (String.◌∷◌ c s) String.[] u v e = absurd (
    escape_char-ne-quote c (escape s <> quoted u) v
      (sym (append_assoc (escape_char c) (escape s) (quoted u)) ∙ e ∙ nil-append (quoted v)))
escape_unique (String.◌∷◌ c s) (String.◌∷◌ d t) u v e =
    let (same, rest) = escape_char_unique c d (escape s <> quoted u) (escape t <> quoted v) (
      sym (append_assoc (escape_char c) (escape s) (quoted u))
      ∙ e
      ∙ append_assoc (escape_char d) (escape t) (quoted v)) in
    let (tails, ends) = escape_unique s t u v rest in (λ i. String.◌∷◌ (same i) (tails i), ends)

-- `quote` before other text
pub quote-append : (s u : String) → quote s <> u ≡ quoted (escape s <> quoted u)
unfolding quote
quote-append s u =
    append_assoc "\"" (escape s <> "\"") u
    ∙ cons-append "\"" String.[] ((escape s <> "\"") <> u)
    ∙ ap quoted (
        nil-append ((escape s <> "\"") <> u)
        ∙ append_assoc (escape s) "\"" u
        ∙ ap (λ x. escape s <> x) (cons-append "\"" String.[] u ∙ ap quoted (nil-append u)))

-- A quoted text is told by what is printed, whatever follows it.
pub quote_unique : (s t u v : String) → quote s <> u ≡ quote t <> v → (s ≡ t) × (u ≡ v)
quote_unique s t u v e =
    escape_unique s t u v (cons-eq-cons.0 (sym (quote-append s u) ∙ e ∙ quote-append t v)).1
