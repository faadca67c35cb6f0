-- ===== src/Python/Exec.antt =====
-- Python methods: an action changes the state and returns or raises; an exception undoes nothing.
use atp_python.Base.{◌≡◌, ◌≢◌, refl, sym, ◌∙◌, ◌⊎◌, inl, inr, Bool, true, false, if◌then◌else◌, not}
use atp_python.Python.Exceptions.{
  raised≢ok, raised_injective, ok_injective, Exception, Result, ok, raised,
}

abbrev pub Exec {ℓ κ} : Type ℓ → Type κ → Type (ℓ ⊔ κ)
Exec S A = S → Result A × S

module _ {ℓ κ} {S : Type ℓ} {A : Type κ} where
  abbrev pub pure : A → Exec S A
  pure value state = (ok value, state)

  abbrev pub lift : Result A → Exec S A
  lift result state = (result, state)

  abbrev pub raise : Exception → Exec S A
  raise e = lift (raised e)

  abbrev pub gets : (S → A) → Exec S A
  gets field state = pure (field state) state

  -- `except`: the handler runs in the state that the raise left.
  abbrev pub handle : (Exception → Exec S A) → Result A × S → Result A × S
  handle f (ok a, s) = (ok a, s)
  handle f (raised e, s) = f e s

  abbrev pub try_except : Exec S A → (Exception → Exec S A) → Exec S A
  try_except m f s = handle f (m s)

abbrev pub modify {ℓ} : {S : Type ℓ} → (S → S) → Exec S (Unit {0})
modify f s = (ok tt, f s)

module _ {ℓ κ μ} {S : Type ℓ} {A : Type κ} {B : Type μ} where
  abbrev pub continue : (A → Exec S B) → Result A × S → Result B × S
  continue f (ok a, s) = f a s
  continue f (raised e, s) = (raised e, s)

  infixl 5 ◌>>=◌ ◌>>◌
  abbrev pub ◌>>=◌ : Exec S A → (A → Exec S B) → Exec S B
  ◌>>=◌ first next state = continue next (first state)

  abbrev pub ◌>>◌ : Exec S A → Exec S B → Exec S B
  first >> second = first >>= λ _. second

-- A value that is computed from what an action returns, or from what it raises.
pub settled {ℓ κ μ} :
    {S : Type ℓ} {A : Type κ} {B : Type μ} (f : A → B) (g : Exception → B) (x : Result A × S)
    {b : B}
    → (handle (λ e. pure (g e)) (continue (λ a. pure (f a)) x)).0 ≡ ok b
    → ((a : A) × (x.0 ≡ ok a) × (f a ≡ b)) ⊎ ((e : Exception) × (x.0 ≡ raised e) × (g e ≡ b))
settled f g (ok a, s) h = inl (a, refl, ok_injective h)
settled f g (raised e, s) h = inr (e, refl, ok_injective h)

module _ {ℓ κ μ} {S : Type ℓ} {A : Type κ} {B : Type μ} (f : A → B) (g : Exception → B) where
  pub settled_ok :
      (x : Result A × S) (a : A)
      → x.0 ≡ ok a
      → (handle (λ e. pure (g e)) (continue (λ a. pure (f a)) x)).0 ≡ ok (f a)
  settled_ok (ok b, s) a h = cc
  settled_ok (raised e, s) a h = cc

  pub settled_raised :
      (x : Result A × S) (e : Exception)
      → x.0 ≡ raised e
      → (handle (λ e. pure (g e)) (continue (λ a. pure (f a)) x)).0 ≡ ok (g e)
  settled_raised (ok b, s) e h = cc
  settled_raised (raised d, s) e h = cc

-- Inversion of an action that returned.
pub continue-ok {ℓ κ μ} :
    {S : Type ℓ} {A : Type κ} {B : Type μ} (f : A → Exec S B) (x : Result A × S) {b : B}
    → (continue f x).0 ≡ ok b
    → (a : A) × (x.0 ≡ ok a) × ((f a x.1).0 ≡ ok b)
continue-ok f (ok a, s) h = (a, refl, h)
continue-ok f (raised e, s) h = cc

pub handle-ok {ℓ κ} :
    {S : Type ℓ} {A : Type κ} (g : Exception → Exec S A) (x : Result A × S) {a : A}
    → (handle g x).0 ≡ ok a
    → (x.0 ≡ ok a) ⊎ ((e : Exception) × (x.0 ≡ raised e) × ((g e x.1).0 ≡ ok a))
handle-ok g (ok a, s) h = inl h
handle-ok g (raised e, s) h = inr (e, refl, h)

-- What is done quietly, whether it returns or raises, leaves the value that follows.
pub quietly-ok {ℓ κ μ} :
    {S : Type ℓ} {A : Type κ} {B : Type μ} (x : Result A × S) {b c : B}
    → (continue
        (λ (_ : Unit {0}). pure b)
        (handle (λ e. pure tt) (continue (λ a. pure {A = Unit {0}} tt) x))).0
      ≡ ok c
    → b ≡ c
quietly-ok (ok a, s) h = ok_injective h
quietly-ok (raised e, s) h = ok_injective h

-- A postcondition of a sequence is one of its second part.
pub continue-post {ℓ κ μ ν} :
    {S : Type ℓ} {A : Type κ} {B : Type μ} (P : B → S → Type ν) (f : A → Exec S B)
    (x : Result A × S)
    → ((a : A) (b : B) → (f a x.1).0 ≡ ok b → P b (f a x.1).1)
    → (b : B) → (continue f x).0 ≡ ok b
    → P b (continue f x).1
continue-post P f (ok a, s) step b h = step a b h
continue-post P f (raised e, s) step b h = cc

-- A guarded action ends as what stops it does, or as the rest where the guard holds.
pub guard-all {ℓ κ ν} :
    {S : Type ℓ} {A : Type κ} (P : Result A × S → Type ν) (b : Bool) (stop rest : Exec S A) (s : S)
    → P (stop s)
    → (b ≡ true → P (rest s))
    → P ((if not b then stop else rest) s)
guard-all P true stop rest s stopped passed = passed refl
guard-all P false stop rest s stopped passed = stopped

-- The same of two guards, one after the other.
pub guards-all {ℓ κ ν} :
    {S : Type ℓ} {A : Type κ} (P : Result A × S → Type ν) (b c : Bool) (stop halt rest : Exec S A)
    (s : S)
    → P (stop s)
    → P (halt s)
    → (b ≡ true → c ≡ true → P (rest s))
    → P ((if not b then stop else if not c then halt else rest) s)
guards-all P b c stop halt rest s stopped halted passed =
    guard-all P b stop (if not c then halt else rest) s stopped
      (λ h. guard-all P c halt rest s halted (passed h))

-- What holds of a value that is returned.
pub guards-post {ℓ κ ν} :
    {S : Type ℓ} {A : Type κ} (P : A → Type ν) (b c : Bool) (stop halt rest : Exec S A) (s : S)
    (a : A)
    → ((stop s).0 ≡ ok a → P a)
    → ((halt s).0 ≡ ok a → P a)
    → (b ≡ true → c ≡ true → (rest s).0 ≡ ok a → P a)
    → ((if not b then stop else if not c then halt else rest) s).0 ≡ ok a
    → P a
guards-post P b c stop halt rest s a = guards-all (λ x. x.0 ≡ ok a → P a) b c stop halt rest s

-- An action that catches everything does not raise.
pub quietly-returns {ℓ κ μ} :
    {S : Type ℓ} {A : Type κ} {B : Type μ} (x : Result A × S) (b : B) (e : Exception)
    → (continue
        (λ (_ : Unit {0}). pure b)
        (handle (λ e. pure tt) (continue (λ a. pure {A = Unit {0}} tt) x))).0
      ≢ raised e
quietly-returns (ok a, s) b e h = cc
quietly-returns (raised d, s) b e h = cc

pub continue-returns {ℓ κ μ} :
    {S : Type ℓ} {A : Type κ} {B : Type μ} (f : A → Exec S B) (x : Result A × S) (e : Exception)
    → x.0 ≢ raised e
    → ((a : A) → (f a x.1).0 ≢ raised e)
    → (continue f x).0 ≢ raised e
continue-returns f (ok a, s) e first next h = next a h
continue-returns f (raised d, s) e first next h = first cc

pub handle-returns {ℓ κ} :
    {S : Type ℓ} {A : Type κ} (g : Exception → Exec S A) (x : Result A × S) (e : Exception)
    → ((d : Exception) → (g d x.1).0 ≢ raised e)
    → (handle g x).0 ≢ raised e
handle-returns g (ok a, s) e handled h = cc
handle-returns g (raised d, s) e handled h = handled d h

-- What an `except` clause returns, when the exception does not go through.
pub caught-ok {ℓ κ} :
    {S : Type ℓ} {A : Type κ} (b : Bool) (e : Exception) (s : S) {a c : A}
    → ((if b then pure a else raise e) s).0 ≡ ok c
    → a ≡ c
caught-ok true e s h = ok_injective h
caught-ok false e s h = cc

-- What goes through an `except` clause is what it does not name.
pub through {ℓ κ} :
    {S : Type ℓ} {A : Type κ} (b : Bool) (a : A) (d e : Exception) (s : S)
    → ((if b then pure a else raise d) s).0 ≡ raised e
    → (b ≡ false) × (d ≡ e)
through true a d e s h = cc
through false a d e s h = (refl, raised_injective h)

pub continue-raised {ℓ κ μ} :
    {S : Type ℓ} {A : Type κ} {B : Type μ} (f : A → Exec S B) (x : Result A × S) (e : Exception)
    → x.0 ≢ raised e
    → (continue f x).0 ≡ raised e
    → (a : A) × (x.0 ≡ ok a) × ((f a x.1).0 ≡ raised e)
continue-raised f (ok a, s) e first h = (a, refl, h)
continue-raised f (raised d, s) e first h = absurd (first cc)

-- A `try` whose `except` catches everything does not raise.
pub attempt-returns {ℓ κ} :
    {S : Type ℓ} {A : Type κ} (m : Exec S A) (g : Exception → A) (s : S) (e : Exception)
    → (try_except m (λ d. pure (g d)) s).0 ≢ raised e
attempt-returns m g s e =
    handle-returns (λ d. pure (g d)) (m s) e (λ d h. raised≢ok {a = g d} (sym h))

-- Where the exception is dropped, the state is the one that the raise left.
pub handle-quiet {ℓ κ} :
    {S : Type ℓ} {A : Type κ} (a : A) (x : Result A × S) → (handle (λ e. pure a) x).1 ≡ x.1
handle-quiet a (ok b, s) = refl
handle-quiet a (raised e, s) = refl

-- A value that is computed from what was returned changes no state.
pub continue-pure {ℓ κ μ} :
    {S : Type ℓ} {A : Type κ} {B : Type μ} (g : A → B) (x : Result A × S)
    → (continue (λ a. pure (g a)) x).1 ≡ x.1
continue-pure g (ok a, s) = refl
continue-pure g (raised e, s) = refl

-- What both parts of a sequence leave alone stays.
pub continue-keeps {ℓ κ μ ν} :
    {S : Type ℓ} {A : Type κ} {B : Type μ} {T : Type ν} (part : S → T) (f : A → Exec S B)
    (x : Result A × S) (t : T)
    → part x.1 ≡ t
    → ((a : A) (s : S) → part (f a s).1 ≡ part s)
    → part (continue f x).1 ≡ t
continue-keeps part f (ok a, s) t before after = after a s ∙ before
continue-keeps part f (raised e, s) t before after = before

pub quietly-value {ℓ κ μ} :
    {S : Type ℓ} {A : Type κ} {B : Type μ} (x : Result A × S) (b : B)
    → (continue
        (λ (_ : Unit {0}). pure b)
        (handle (λ e. pure tt) (continue (λ a. pure {A = Unit {0}} tt) x))).0
      ≡ ok b
quietly-value (ok a, s) b = refl
quietly-value (raised e, s) b = refl
