-- ===== src/Python/Sorting.antt =====
-- Python's order on texts, and `sorted` on the items of a dict, whose keys differ.
pub mod Earlier
use Prim.Native.Nat.{compare, Ordering}
use Prim.Native.Char.{Char, code}
use text.Mathlib.TextEquality.{Char-path}
use atp_python.Base.{String, ◌≡◌, refl, ◌≢◌, Bool, true, false, [], ◌∷◌, arith, if◌then◌else◌}
use atp_python.Base.Dict.{Dict}

unfoldable pub str_leb : String → String → Bool
str_leb String.[] t = true
str_leb (String.◌∷◌ c s) String.[] = false
str_leb (String.◌∷◌ c s) (String.◌∷◌ d t) = elim (compare (code c) (code d)) [
  | Ordering.lt ↦ true
  | Ordering.eq ↦ str_leb s t
  | Ordering.gt ↦ false
]

pub str_leb_total : (s t : String) → str_leb s t ≡ false → str_leb t s ≡ true
unfolding str_leb
str_leb_total String.[] t h = cc
str_leb_total (String.◌∷◌ c s) String.[] h = refl
str_leb_total (String.◌∷◌ c s) (String.◌∷◌ d t) h = ground (arith, str_leb_total s t)

cons_path : (c d : Char) (s t : String) → code c ≡ code d → s ≡ t → String.◌∷◌ c s ≡ String.◌∷◌ d t
cons_path c d s t p q = λ i. String.◌∷◌ (Char-path c d p i) (q i)

codes_of_both_le :
    (c d : Char) (s t : String)
    → str_leb (String.◌∷◌ c s) (String.◌∷◌ d t) ≡ true
    → str_leb (String.◌∷◌ d t) (String.◌∷◌ c s) ≡ true
    → (code c ≡ code d) × (str_leb s t ≡ true) × (str_leb t s ≡ true)
unfolding str_leb
codes_of_both_le c d s t h k = ground arith

pub str_leb_antisymm : (s t : String) → str_leb s t ≡ true → str_leb t s ≡ true → s ≡ t
unfolding str_leb
str_leb_antisymm String.[] String.[] h k = refl
str_leb_antisymm String.[] (String.◌∷◌ d t) h k = cc
str_leb_antisymm (String.◌∷◌ c s) String.[] h k = cc
str_leb_antisymm (String.◌∷◌ c s) (String.◌∷◌ d t) h k =
    let (p, q, r) = codes_of_both_le c d s t h k in cons_path c d s t p (str_leb_antisymm s t q r)

pub str_leb_trans : (s t u : String) → str_leb s t ≡ true → str_leb t u ≡ true → str_leb s u ≡ true
unfolding str_leb
str_leb_trans String.[] t u h k = refl
str_leb_trans (String.◌∷◌ c s) String.[] u h k = cc
str_leb_trans (String.◌∷◌ c s) (String.◌∷◌ d t) String.[] h k = cc
str_leb_trans (String.◌∷◌ c s) (String.◌∷◌ d t) (String.◌∷◌ b u) h k =
    ground (arith, str_leb_trans s t u)

module _ {ℓ} {V : Type ℓ} where
  unfoldable pub insert_sorted : String → V → Dict V → Dict V
  insert_sorted k v [] = (k, v) ∷ []
  insert_sorted k v ((j, w) ∷ d) =
      if str_leb k j then (k, v) ∷ (j, w) ∷ d else (j, w) ∷ insert_sorted k v d

  unfoldable pub sorted : Dict V → Dict V
  unfolding insert_sorted
  sorted [] = []
  sorted ((k, v) ∷ d) = insert_sorted k v (sorted d)

  -- Two entries with different keys can be put in either order.
  pub insert_sorted_comm :
      (k j : String) (v w : V) (d : Dict V)
      → k ≢ j
      → insert_sorted k v (insert_sorted j w d) ≡ insert_sorted j w (insert_sorted k v d)
  unfolding insert_sorted
  insert_sorted_comm k j v w [] h = ground (arith, str_leb_total k j, str_leb_antisymm k j)
  insert_sorted_comm k j v w ((i, x) ∷ d) h = ground (
    arith,
    insert_sorted_comm k j v w d h,
    str_leb_total k j,
    str_leb_antisymm k j,
    str_leb_trans k j i,
    str_leb_trans j k i,
    str_leb_trans j i k,
    str_leb_trans k i j,
    str_leb_total k i,
    str_leb_total j i,
  )
