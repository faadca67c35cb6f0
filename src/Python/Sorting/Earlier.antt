-- ===== src/Python/Sorting/Earlier.antt =====
-- Python's order on texts, where one text is smaller at a place that both have.
use Prim.Native.Char.{code}
use text.Mathlib.TextLemmas.{nil-append, cons-append, append_cancel_left}
use atp_python.Base.{
  ℕ, ◌<◌, ◌≤◌, String, ◌<>◌, ◌≡◌, refl, sym, ap, ◌∙◌, ◌⊎◌, inl, inr, Bool, true, false, false≢true,
  ◌&&◌, ◌||◌, arith, ltb, eqb, Bool-cases,
}
use atp_python.Python.Sorting.{str_leb}

-- At the first place where the texts differ, the first text has the smaller character.
abbrev pub earlier : String → String → Bool
earlier String.[] t = false
earlier (String.◌∷◌ c s) String.[] = false
earlier (String.◌∷◌ c s) (String.◌∷◌ d t) =
    let rest = earlier s t in ltb (code c) (code d) || (eqb (code c) (code d) && rest)

pub earlier-str_leb :
    (s t : String) → earlier s t ≡ true → (str_leb s t ≡ true) × (str_leb t s ≡ false)
unfolding str_leb
earlier-str_leb String.[] t h = cc
earlier-str_leb (String.◌∷◌ c s) String.[] h = cc
earlier-str_leb (String.◌∷◌ c s) (String.◌∷◌ d t) h = ground (arith, earlier-str_leb s t)

pub str_leb_refl : (s : String) → str_leb s s ≡ true
unfolding str_leb
str_leb_refl String.[] = refl
str_leb_refl (String.◌∷◌ c s) = ground (arith, str_leb_refl s)

-- What follows the difference does not matter.
pub earlier-append : (s t u v : String) → earlier s t ≡ true → earlier (s <> u) (t <> v) ≡ true
earlier-append String.[] t u v h = cc
earlier-append (String.◌∷◌ c s) String.[] u v h = cc
earlier-append (String.◌∷◌ c s) (String.◌∷◌ d t) u v h =
    rw (cons-append, cons-append) (ground (arith, earlier-append s t u v))

pub append-earlier : (s u v : String) → earlier u v ≡ true → earlier (s <> u) (s <> v) ≡ true
append-earlier String.[] u v h = rw (nil-append, nil-append) h
append-earlier (String.◌∷◌ c s) u v h =
    rw (cons-append, cons-append) (ground (arith, append-earlier s u v))

-- Texts of two parts: the first decides, or the second where the first are the same.
pub parts-earlier :
    (s t u v : String)
    → (earlier s t ≡ true) ⊎ ((s ≡ t) × (earlier u v ≡ true))
    → earlier (s <> u) (t <> v) ≡ true
parts-earlier s t u v (inl h) = earlier-append s t u v h
parts-earlier s t u v (inr (same, h)) = rw (← same) (append-earlier s u v h)

-- Two numbers printed before other text: the first decides, or the text where they are the same.
pub placed :
    (F : ℕ → String) (p q : ℕ) (u v : String)
    → p ≤ q
    → (p < q → earlier (F p) (F q) ≡ true)
    → (p ≡ q → earlier u v ≡ true)
    → earlier (F p <> u) (F q <> v) ≡ true
placed F p q u v h first rest = elim (Bool-cases (ltb p q)) [
  | inl e ↦ parts-earlier (F p) (F q) u v (inl (first (ground arith)))
  | inr e ↦
      let same : p ≡ q = ground arith in parts-earlier (F p) (F q) u v (inr (ap F same, rest same))
]

-- No text is earlier than itself.
earlier_irrefl : (s : String) → earlier s s ≡ false
earlier_irrefl String.[] = refl
earlier_irrefl (String.◌∷◌ c s) = ground (arith, earlier_irrefl s)

-- Texts that rise with a number tell the number, whatever follows them.
pub rising_unique :
    (F : ℕ → String) (a b : ℕ) (u v : String)
    → (a < b → earlier (F a) (F b) ≡ true)
    → (b < a → earlier (F b) (F a) ≡ true)
    → F a <> u ≡ F b <> v
    → (a ≡ b) × (u ≡ v)
rising_unique F a b u v up down e = elim (Bool-cases (ltb a b)) [
  | inl lt ↦ absurd (
      false≢true (
        sym (earlier_irrefl (F b <> v))
        ∙ ap (λ s. earlier s (F b <> v)) (sym e)
        ∙ earlier-append (F a) (F b) u v (up (ground arith))))
  | inr ge ↦ elim (Bool-cases (ltb b a)) [
    | inl gt ↦ absurd (
        false≢true (
          sym (earlier_irrefl (F b <> v))
          ∙ ap (λ s. earlier (F b <> v) s) (sym e)
          ∙ earlier-append (F b) (F a) v u (down (ground arith))))
    | inr le ↦
        let same : a ≡ b = ground arith in
        (same, append_cancel_left (F a) u v (e ∙ ap (λ n. F n <> v) (sym same)))
  ]
]
