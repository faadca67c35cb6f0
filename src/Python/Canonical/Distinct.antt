-- ===== src/Python/Canonical/Distinct.antt =====
-- What `dumps` writes for a character tells the character.
use Prim.Native.Char.{Char, code}
use text.Mathlib.TextLemmas.{cons-eq-cons}
use text.Mathlib.TextEquality.{Char-path}
use atp_python.Base.{
  ℕ, ◌/◌, ◌%◌, ◌<◌, ◌≤◌, String, ◌<>◌, ◌≡◌, ◌≢◌, refl, subst, sym, ap, ◌∙◌, ◌⊎◌, inl, inr, true,
  arith,
}
use atp_python.Python.Json.{digit}
use atp_python.Python.Json.Digits.{digit-earlier}
use atp_python.Python.Sorting.Earlier.{earlier, placed, rising_unique}
use atp_python.Python.Canonical.{hex4, escape_char}
use atp_python.Python.Canonical.Characters.{
  backslash, meant, high, low, Written, plain, short, unit, pair, written,
}

hex4-earlier : (a b : ℕ) → a < b → b < 65536 → earlier (hex4 a) (hex4 b) ≡ true
hex4-earlier a b h k =
    placed digit (a / 4096 % 16) (b / 4096 % 16)
      (digit (a / 256 % 16) <> (digit (a / 16 % 16) <> digit (a % 16)))
      (digit (b / 256 % 16) <> (digit (b / 16 % 16) <> digit (b % 16))) (omega arith)
      (λ lt. digit-earlier (a / 4096 % 16) (b / 4096 % 16) lt (omega arith))
      (λ e.
        placed digit (a / 256 % 16) (b / 256 % 16) (digit (a / 16 % 16) <> digit (a % 16))
          (digit (b / 16 % 16) <> digit (b % 16)) (omega arith)
          (λ lt. digit-earlier (a / 256 % 16) (b / 256 % 16) lt (omega arith))
          (λ e'.
            placed digit (a / 16 % 16) (b / 16 % 16) (digit (a % 16)) (digit (b % 16)) (omega arith)
              (λ lt. digit-earlier (a / 16 % 16) (b / 16 % 16) lt (omega arith))
              (λ e''. digit-earlier (a % 16) (b % 16) (omega arith) (omega arith))))

hex4_unique :
    (a b : ℕ) (u v : String) → a < 65536 → b < 65536 → hex4 a <> u ≡ hex4 b <> v → (a ≡ b) × (u ≡ v)
hex4_unique a b u v h k =
    rising_unique hex4 a b u v (λ lt. hex4-earlier a b lt k) (λ lt. hex4-earlier b a lt h)

surrogate : (m n : ℕ) → (m < 55296) ⊎ (57343 < m) → 65536 ≤ n → n < 1114112 → m ≡ high n → ⊥
surrogate m n (inl h) k l e = omega arith
surrogate m n (inr h) k l e = omega arith

peel :
    {t : String} (a b : Char) (s r : String)
    → t ≡ String.◌∷◌ a s
    → t ≡ String.◌∷◌ b r
    → (a ≡ b) × (s ≡ r)
peel a b s r p q = cons-eq-cons.0 (sym p ∙ q)

-- Behind the backslash
peel2 :
    {t : String} (a b : Char) (s r : String)
    → t ≡ String.◌∷◌ backslash (String.◌∷◌ a s)
    → t ≡ String.◌∷◌ backslash (String.◌∷◌ b r)
    → (a ≡ b) × (s ≡ r)
peel2 a b s r p q = cons-eq-cons.0 (cons-eq-cons.0 (sym p ∙ q)).1

Written-unique : (c d : Char) (u v t : String) → Written c u t → Written d v t → (c ≡ d) × (u ≡ v)
Written-unique c d u v t (plain h _ e) (plain k _ f) = peel c d u v e f
Written-unique c d u v t (plain h _ e) (short l k m f) =
    absurd (h (ap code (peel c backslash u _ e f).0))
Written-unique c d u v t (plain h _ e) (unit k m f) =
    absurd (h (ap code (peel c backslash u _ e f).0))
Written-unique c d u v t (plain h _ e) (pair k m f) =
    absurd (h (ap code (peel c backslash u _ e f).0))
Written-unique c d u v t (short l k m f) (plain h _ e) =
    absurd (h (ap code (peel d backslash v _ e f).0))
Written-unique c d u v t (unit k m f) (plain h _ e) =
    absurd (h (ap code (peel d backslash v _ e f).0))
Written-unique c d u v t (pair k m f) (plain h _ e) =
    absurd (h (ap code (peel d backslash v _ e f).0))
Written-unique c d u v t (short l h m e) (short l' h' m' e') =
    let (same, rest) = peel2 l l' u v e e' in
    (Char-path c d (sym m ∙ ap (λ x. meant (code x)) same ∙ m'), rest)
Written-unique c d u v t (short l h m e) (unit k n f) = absurd (h (ap code (peel2 l "u" u _ e f).0))
Written-unique c d u v t (short l h m e) (pair k n f) = absurd (h (ap code (peel2 l "u" u _ e f).0))
Written-unique c d u v t (unit k n f) (short l h m e) = absurd (h (ap code (peel2 l "u" v _ e f).0))
Written-unique c d u v t (pair k n f) (short l h m e) = absurd (h (ap code (peel2 l "u" v _ e f).0))
Written-unique c d u v t (unit k n f) (unit k' n' f') =
    let (_, tails) = peel2 "u" "u" (hex4 (code c) <> u) (hex4 (code d) <> v) f f' in
    let (same, rest) = hex4_unique (code c) (code d) u v n n' tails in (Char-path c d same, rest)
Written-unique c d u v t (unit k n f) (pair k' n' f') =
    let (_, tails) = peel2 "u" "u" (hex4 (code c) <> u) _ f f' in
    let (same, rest) = hex4_unique (code c) (high (code d)) u _ n (omega arith) tails in
    absurd (surrogate (code c) (code d) k k' n' same)
Written-unique c d u v t (pair k n f) (unit k' n' f') =
    let (_, tails) = peel2 "u" "u" (hex4 (code d) <> v) _ f' f in
    let (same, rest) = hex4_unique (code d) (high (code c)) v _ n' (omega arith) tails in
    absurd (surrogate (code d) (code c) k' k n same)
Written-unique c d u v t (pair k n f) (pair k' n' f') =
    let (_, tails) = peel2 "u" "u" _ _ f f' in
    let (same, rest) =
      hex4_unique (high (code c)) (high (code d)) _ _ (omega arith) (omega arith) tails in
    let (_, lows) = peel2 "u" "u" (hex4 (low (code c)) <> u) (hex4 (low (code d)) <> v) refl rest in
    let (same', rest') =
      hex4_unique (low (code c)) (low (code d)) u v (omega arith) (omega arith) lows in
    (Char-path c d (omega arith), rest')

pub escape_char_unique :
    (c d : Char) (u v : String) → escape_char c <> u ≡ escape_char d <> v → (c ≡ d) × (u ≡ v)
escape_char_unique c d u v e =
    Written-unique c d u v (escape_char d <> v) (subst (λ t. Written c u t) e (written c u))
      (written d v)

-- What starts with a character's escape does not start with a quote.
Written-ne-quote : (c : Char) (u v t : String) → Written c u t → t ≢ String.◌∷◌ "\"" v
Written-ne-quote c u v t (plain h k e) f = k (ap code (peel c "\"" u v e f).0)
Written-ne-quote c u v t (short l k m e) f =
    absurd (omega (arith, ap code (peel backslash "\"" _ v e f).0))
Written-ne-quote c u v t (unit k m e) f =
    absurd (omega (arith, ap code (peel backslash "\"" _ v e f).0))
Written-ne-quote c u v t (pair k m e) f =
    absurd (omega (arith, ap code (peel backslash "\"" _ v e f).0))

pub escape_char-ne-quote : (c : Char) (u v : String) → escape_char c <> u ≢ String.◌∷◌ "\"" v
escape_char-ne-quote c u v = Written-ne-quote c u v (escape_char c <> u) (written c u)
