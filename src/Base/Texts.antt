-- ===== src/Base/Texts.antt =====
-- Walks over texts: a separator, the last segment of a path, decimal digits.
use Prim.Native.Nat.{ℕ}
use Prim.Native.Char.{Char, code}
use Prim.Native.String.{String, [], ◌∷◌, ◌++◌}
use mathlib.Core.Path.{◌≡◌, refl, sym, ap, ◌∙◌}
use mathlib.Core.Logic.{◌≢◌, inl, inr}
use mathlib.Core.Bool.{true, false}
use native.Mathlib.Omega.{arith}
use text.Mathlib.TextLemmas.{
  nil-append, cons-append, append_assoc, append-nil, cons-eq-cons, cons≢nil,
}
use atp_python.Base.Control.{eqb, Bool-cases, if◌then◌else◌}

-- No character of the text has the code `k`.
abbrev pub Lacks : ℕ → String → Type 0
Lacks k [] = Unit
Lacks k (c ∷ s) = (code c ≢ k) × Lacks k s

pub Lacks-append : (k : ℕ) (s t : String) → Lacks k s → Lacks k t → Lacks k (s ++ t)
Lacks-append k [] t h g = rw nil-append g
Lacks-append k (c ∷ s) t (p, h) g = rw cons-append (p, Lacks-append k s t h g)

-- Two texts up to their first separator are determined by the text that has it.
pub cut_unique :
    (d : Char) (s t : String) {u v : String}
    → Lacks (code d) s
    → Lacks (code d) t
    → s ++ (d ∷ u) ≡ t ++ (d ∷ v)
    → (s ≡ t) × (u ≡ v)
cut_unique d [] [] {u} {v} h g e =
    (refl, (cons-eq-cons.0 (sym (nil-append (d ∷ u)) ∙ e ∙ nil-append (d ∷ v))).1)
cut_unique d [] (c ∷ t) {u} {v} h (p, g) e =
    let (same, rest) = cons-eq-cons.0 (sym (nil-append (d ∷ u)) ∙ e ∙ cons-append c t (d ∷ v)) in
    absurd (p (ap code (sym same)))
cut_unique d (c ∷ s) [] {u} {v} (p, h) g e =
    let (same, rest) = cons-eq-cons.0 (sym (cons-append c s (d ∷ u)) ∙ e ∙ nil-append (d ∷ v)) in
    absurd (p (ap code same))
cut_unique d (c ∷ s) (c' ∷ t) {u} {v} (p, h) (q, g) e =
    let (same, rest) =
      cons-eq-cons.0 (sym (cons-append c s (d ∷ u)) ∙ e ∙ cons-append c' t (d ∷ v)) in
    let (tails, ends) = cut_unique d s t h g rest in (λ i. same i ∷ tails i, ends)

-- A text with the separator is no text without it.
pub cut_absent : (d : Char) (s t u : String) → Lacks (code d) t → s ++ (d ∷ u) ≡ t → ⊥
cut_absent d [] [] u h e = cons≢nil (sym (nil-append (d ∷ u)) ∙ e)
cut_absent d [] (c ∷ t) u (p, h) e =
    p (ap code (sym (cons-eq-cons.0 (sym (nil-append (d ∷ u)) ∙ e)).0))
cut_absent d (c ∷ s) [] u h e = cons≢nil (sym (cons-append c s (d ∷ u)) ∙ e)
cut_absent d (c ∷ s) (c' ∷ t) u (p, h) e =
    cut_absent d s t u h (cons-eq-cons.0 (sym (cons-append c s (d ∷ u)) ∙ e)).1

-- A character in front of a text that is stripped already.
strip_cons : ℕ → Char → String → String
strip_cons k c [] = if eqb (code c) k then [] else c ∷ []
strip_cons k c (d ∷ s) = c ∷ d ∷ s

-- `s.rstrip(chr(k))`
unfoldable pub rstrip : ℕ → String → String
unfolding strip_cons
rstrip k [] = []
rstrip k (c ∷ s) = strip_cons k c (rstrip k s)

-- What follows the last separator of `seen ++ s`, where `seen` has none.
unfoldable pub last_segment_from : ℕ → String → String → String
last_segment_from k seen [] = seen
last_segment_from k seen (c ∷ s) =
    last_segment_from k (if eqb (code c) k then [] else seen ++ (c ∷ [])) s

-- `s.rsplit(chr(k), 1)[-1]`
unfoldable pub last_segment : ℕ → String → String
unfolding last_segment_from
last_segment k s = last_segment_from k [] s

eqb_refl : (n : ℕ) → eqb n n ≡ true
eqb_refl n = ground arith

eqb_ne : (m n : ℕ) → m ≢ n → eqb m n ≡ false
eqb_ne m n h = ground arith

last_segment_from-append :
    (d : Char) (seen s t : String)
    → last_segment_from (code d) seen (s ++ (d ∷ t)) ≡ last_segment_from (code d) [] t
unfolding last_segment_from
last_segment_from-append d seen [] t = rw nil-append (rw (eqb_refl (code d)))
last_segment_from-append d seen (c ∷ s) t =
    rw cons-append
      (last_segment_from-append d (if eqb (code c) (code d) then [] else seen ++ (c ∷ [])) s t)

last_segment_from_of_Lacks :
    (k : ℕ) (seen s : String) → Lacks k s → last_segment_from k seen s ≡ seen ++ s
unfolding last_segment_from
last_segment_from_of_Lacks k seen [] h = sym (append-nil seen)
last_segment_from_of_Lacks k seen (c ∷ s) (p, h) = rw (eqb_ne (code c) k p) (
    last_segment_from_of_Lacks k (seen ++ (c ∷ [])) s h
    ∙ append_assoc seen (c ∷ []) s
    ∙ ap (λ x. seen ++ x) (cons-append c [] s ∙ ap (λ x. c ∷ x) (nil-append s)))

rstrip_of_Lacks : (k : ℕ) (s : String) → Lacks k s → rstrip k s ≡ s
unfolding rstrip
rstrip_of_Lacks k [] h = refl
rstrip_of_Lacks k (c ∷ []) (p, h) = rw (eqb_ne (code c) k p)
rstrip_of_Lacks k (c ∷ d ∷ s) (p, h) = rw (rstrip_of_Lacks k (d ∷ s) h)

-- Stripping stops at the first text that is stripped already.
rstrip-append :
    (k : ℕ) (s : String) (c : Char) (t : String)
    → rstrip k (c ∷ t) ≡ c ∷ t
    → rstrip k (s ++ (c ∷ t)) ≡ s ++ (c ∷ t)
unfolding rstrip
rstrip-append k [] c t h = rw nil-append h
rstrip-append k (b ∷ []) c t h = rw (cons-append b [] (c ∷ t), nil-append (c ∷ t)) (rw h)
rstrip-append k (b ∷ b' ∷ s) c t h =
    rw (cons-append b (b' ∷ s) (c ∷ t))
      (rw (rstrip-append k (b' ∷ s) c t h) (rw (cons-append b' s (c ∷ t))))

rstrip-cons_of_Lacks :
    (k : ℕ) (d c : Char) (t : String) → Lacks k (c ∷ t) → rstrip k (d ∷ c ∷ t) ≡ d ∷ c ∷ t
unfolding rstrip
rstrip-cons_of_Lacks k d c t h = rw (rstrip_of_Lacks k (c ∷ t) h)

-- The last segment of a path whose last segment is not empty.
pub last_segment-rstrip :
    (d : Char) (base : String) (c : Char) (t : String)
    → Lacks (code d) (c ∷ t)
    → last_segment (code d) (rstrip (code d) (base ++ (d ∷ c ∷ t))) ≡ c ∷ t
unfolding last_segment
last_segment-rstrip d base c t h =
    rw (rstrip-append (code d) base d (c ∷ t) (rstrip-cons_of_Lacks (code d) d c t h)) (
      last_segment_from-append d [] base (c ∷ t)
      ∙ last_segment_from_of_Lacks (code d) [] (c ∷ t) h
      ∙ nil-append (c ∷ t))

strip_cons-Lacks :
    (j k : ℕ) (c : Char) (s : String) → code c ≢ j → Lacks j s → Lacks j (strip_cons k c s)
unfolding strip_cons
strip_cons-Lacks j k c [] p h = elim (Bool-cases (eqb (code c) k)) [
  | inl e ↦ rw e tt
  | inr e ↦ rw e (p, tt)
]
strip_cons-Lacks j k c (d ∷ s) p h = (p, h)

pub rstrip-Lacks : (j k : ℕ) (s : String) → Lacks j s → Lacks j (rstrip k s)
unfolding rstrip
rstrip-Lacks j k [] h = tt
rstrip-Lacks j k (c ∷ s) (p, h) = strip_cons-Lacks j k c (rstrip k s) p (rstrip-Lacks j k s h)

-- A text of one character in front of another text.
pub append_one : (d : Char) (s : String) → (d ∷ []) ++ s ≡ d ∷ s
append_one d s = cons-append d [] s ∙ ap (λ x. d ∷ x) (nil-append s)
