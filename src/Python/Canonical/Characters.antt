-- ===== src/Python/Canonical/Characters.antt =====
-- The ways in which `dumps` writes a character: itself, a letter after a backslash, and one or two
-- units of four hexadecimal digits.
use Prim.Native.Char.{Char, char, code}
use text.Mathlib.TextLemmas.{nil-append, cons-append, append_assoc}
use atp_python.Base.{
  ℕ, ◌+◌, ◌-◌, ◌/◌, ◌%◌, ◌<◌, ◌≤◌, String, ◌<>◌, ◌≡◌, ◌≢◌, refl, ap, ◌∙◌, ◌⊎◌, inl, inr, Bool, true,
  false, ◌&&◌, arith, eqb, ltb, leb, if◌then◌else◌, Bool-cases,
}
use atp_python.Python.Canonical.{hex4, escape_char}

abbrev pub backslash : Char
backslash = "\\"

-- The code of the character that a letter stands for after a backslash.
abbrev pub meant : ℕ → ℕ
meant l =
    if eqb l b'n'
    then 10
    else if eqb l b'r'
    then 13
    else if eqb l b't'
    then 9
    else if eqb l b'f'
    then 12
    else if eqb l b'b'
    then 8
    else l

abbrev pub high : ℕ → ℕ
high n = 55296 + (n - 65536) / 1024

abbrev pub low : ℕ → ℕ
low n = 56320 + (n - 65536) % 1024

-- How a character is written, with what follows it.
pub data Written (c : Char) (rest t : String) : Type 0 where
  plain : code c ≢ b'\\' → code c ≢ b'"' → t ≡ String.◌∷◌ c rest → Written c rest t
  short :
      (l : Char)
      → code l ≢ b'u'
      → meant (code l) ≡ code c
      → t ≡ String.◌∷◌ backslash (String.◌∷◌ l rest)
      → Written c rest t
  unit :
      (code c < 55296) ⊎ (57343 < code c)
      → code c < 65536
      → t ≡ String.◌∷◌ backslash (String.◌∷◌ "u" (hex4 (code c) <> rest))
      → Written c rest t
  pair :
      65536 ≤ code c
      → code c < 1114112
      → t
        ≡ String.◌∷◌ backslash (
            String.◌∷◌ "u" (
              hex4 (high (code c))
              <> (String.◌∷◌ backslash (String.◌∷◌ "u" (hex4 (low (code c)) <> rest)))))
      → Written c rest t

two :
    (a b : Char) (s rest : String)
    → String.◌∷◌ a (String.◌∷◌ b s) <> rest ≡ String.◌∷◌ a (String.◌∷◌ b (s <> rest))
two a b s rest =
    cons-append a (String.◌∷◌ b s) rest ∙ ap (λ x. String.◌∷◌ a x) (cons-append b s rest)

letter :
    (c l : Char) (rest : String)
    → code l ≢ b'u'
    → meant (code l) ≡ code c
    → Written c rest (String.◌∷◌ backslash (String.◌∷◌ l String.[]) <> rest)
letter c l rest h k = short l h k (
    two backslash l String.[] rest
    ∙ ap (λ x. String.◌∷◌ backslash (String.◌∷◌ l x)) (nil-append rest))

-- Every character but those of the surrogates
is_scalar : (c : Char) → (code c < 55296) ⊎ ((57343 < code c) × (code c < 1114112))
is_scalar (char n p) = elim (Bool-cases (ltb n 55296)) [
  | inl e ↦ inl (ground arith)
  | inr e ↦ inr (ground arith, ground arith)
]

unicode :
    (s rest : String) → ("\\u" <> s) <> rest ≡ String.◌∷◌ backslash (String.◌∷◌ "u" (s <> rest))
unicode s rest =
    append_assoc "\\u" s rest
    ∙ two backslash "u" String.[] (s <> rest)
    ∙ ap (λ x. String.◌∷◌ backslash (String.◌∷◌ "u" x)) (nil-append (s <> rest))

surrogates :
    (m n : ℕ) (rest : String)
    → ("\\u" <> (hex4 m <> ("\\u" <> hex4 n))) <> rest
      ≡ String.◌∷◌ backslash
          (String.◌∷◌ "u" (hex4 m <> (String.◌∷◌ backslash (String.◌∷◌ "u" (hex4 n <> rest)))))
surrogates m n rest =
    unicode (hex4 m <> ("\\u" <> hex4 n)) rest
    ∙ ap (λ x. String.◌∷◌ backslash (String.◌∷◌ "u" x))
        (append_assoc (hex4 m) ("\\u" <> hex4 n) rest
          ∙ ap (λ x. hex4 m <> x) (unicode (hex4 n) rest))

-- One test of a chain of tests
branch :
    (c : Char) (rest : String) (b : Bool) (s t : String)
    → (b ≡ true → Written c rest (s <> rest))
    → (b ≡ false → Written c rest (t <> rest))
    → Written c rest ((if b then s else t) <> rest)
branch c rest true s t h k = h refl
branch c rest false s t h k = k refl

pub written : (c : Char) (rest : String) → Written c rest (escape_char c <> rest)
unfolding escape_char
written c rest =
    branch c rest (eqb (code c) 34) _ _ (λ e. letter c "\"" rest (omega arith) (ground arith))
      λ e34.
        branch c rest (eqb (code c) 92) _ _ (λ e. letter c "\\" rest (omega arith) (ground arith))
          λ e92.
            branch c rest (leb 32 (code c) && ltb (code c) 127) _ _
              (λ e.
                plain (ground arith) (ground arith)
                  (cons-append c String.[] rest ∙ ap (λ x. String.◌∷◌ c x) (nil-append rest)))
              λ e1.
                branch c rest (eqb (code c) 10) _ _
                  (λ e. letter c "n" rest (omega arith) (ground arith))
                  λ e10.
                    branch c rest (eqb (code c) 13) _ _
                      (λ e. letter c "r" rest (omega arith) (ground arith))
                      λ e13.
                        branch c rest (eqb (code c) 9) _ _
                          (λ e. letter c "t" rest (omega arith) (ground arith))
                          λ e9.
                            branch c rest (eqb (code c) 12) _ _
                              (λ e. letter c "f" rest (omega arith) (ground arith))
                              λ e12.
                                branch c rest (eqb (code c) 8) _ _
                                  (λ e. letter c "b" rest (omega arith) (ground arith))
                                  λ e8.
                                    branch c rest (ltb (code c) 65536) _ _
                                      (λ e.
                                        unit (outside (is_scalar c)) (ground arith)
                                          (unicode (hex4 (code c)) rest))
                                      λ e16.
                                        pair (ground arith) (within (is_scalar c) e16)
                                          (surrogates (high (code c)) (low (code c)) rest)
  where
    outside :
        (code c < 55296) ⊎ ((57343 < code c) × (code c < 1114112))
        → (code c < 55296) ⊎ (57343 < code c)
    outside (inl h) = inl h
    outside (inr (h, k)) = inr h

    within :
        (code c < 55296) ⊎ ((57343 < code c) × (code c < 1114112))
        → ltb (code c) 65536 ≡ false
        → code c < 1114112
    within (inl h) e = ground arith
    within (inr (h, k)) e = k
