-- ===== src/Base/Effect.antt =====
-- Results of fallible code, and effects on a world that outlive an error.
use mathlib.Core.Path.{◌≡◌, refl, ap}
use mathlib.Core.Logic.{◌≢◌, ◌⊎◌, inl, inr}
use mathlib.Core.Bool.{Bool, true, false}
use native.Mathlib.Omega.{arith}
use armored_witness_os.Base.Errors.{Error}

-- What a Go function returns beside its value: a nil error, an error, or no return at all
-- (`log.Fatal`, a panic, a reset of the board).
pub data Result {ℓ} (A : Type ℓ) : Type ℓ where
  ok : A → Result A
  err : Error → Result A
  halt : Result A

abbrev pub M : Type 0 → Type 0 → Type 0
M W A = W → Result A × W

module _ {W : Type 0} where
  abbrev pub next : {A B : Type 0} → (A → M W B) → Result A × W → Result B × W
  next f (ok a, w) = f a w
  next f (err e, w) = (err e, w)
  next f (halt, w) = (halt, w)

  infixl 5 ◌>>=◌ ◌>>◌
  abbrev pub ◌>>=◌ : {A B : Type 0} → M W A → (A → M W B) → M W B
  ◌>>=◌ m f w = next f (m w)

  abbrev pub ◌>>◌ : {B : Type 0} → M W (Unit {0}) → M W B → M W B
  ◌>>◌ m k w = next (λ _. k) (m w)

  abbrev pub pure : {A : Type 0} → A → M W A
  pure a w = (ok a, w)

  abbrev pub fail : {A : Type 0} → Error → M W A
  fail e w = (err e, w)

  abbrev pub lift : {A : Type 0} → Result A → M W A
  lift r w = (r, w)

  -- `if !test { return e }`
  abbrev pub require : Bool → Error → M W (Unit {0})
  require true e w = (ok tt, w)
  require false e w = (err e, w)

  -- `if test { m }`
  abbrev pub when : Bool → M W (Unit {0}) → M W (Unit {0})
  when true m w = m w
  when false m w = (ok tt, w)

  -- `fmt.Errorf("…: %v", err)`: another error in place of the one that came.
  abbrev replace : {A : Type 0} → Error → Result A × W → Result A × W
  replace e (ok a, w) = (ok a, w)
  replace e (err _, w) = (err e, w)
  replace e (halt, w) = (halt, w)

  abbrev pub or_fail : {A : Type 0} → M W A → Error → M W A
  or_fail m e w = replace e (m w)

  pub next-eq-ok :
      {A B : Type 0} (f : A → M W B) (r : Result A × W) {b : B} {w' : W}
      → next f r ≡ (ok b, w')
      → (a : A) × (v : W) × (r ≡ (ok a, v)) × (f a v ≡ (ok b, w'))
  next-eq-ok f (ok a, v) h = (a, v, refl, h)
  next-eq-ok f (err e, v) h = ground arith
  next-eq-ok f (halt, v) h = ground arith

  -- A sequence succeeds only if its first part does, and then as the rest does.
  pub unbind :
      {A B P : Type 0} (m : M W A) (f : A → M W B) (w : W) {b : B} {w' : W}
      → (m >>= f) w ≡ (ok b, w')
      → ((a : A) (v : W) → m w ≡ (ok a, v) → f a v ≡ (ok b, w') → P)
      → P
  unbind m f w h use_parts = let (a, v, e, k) = next-eq-ok f (m w) h in use_parts a v e k

  -- Two returns that are the same return the same.
  pub pure-eq : {A : Type 0} {a b : A} {v w : W} → pure a v ≡ (ok b, w) → (a ≡ b) × (v ≡ w)
  pure-eq h = (cc (ap (λ r. r.0) h), ap (λ r. r.1) h)

  pub require-eq-ok :
      (b : Bool) (e : Error) (w : W) {u : Unit {0}} {w' : W} → require b e w ≡ (ok u, w') → b ≡ true
  require-eq-ok true e w h = refl
  require-eq-ok false e w h = ground arith

  pub require-world :
      (b : Bool) (e : Error) (w : W) {u : Unit {0}} {w' : W} → require b e w ≡ (ok u, w') → w ≡ w'
  require-world true e w h = ground arith
  require-world false e w h = ground arith

  -- What the first part of a sequence brings about and the rest keeps, however either ends.
  pub next-keeps {ℓ} :
      {A B : Type 0} (P : W → Type ℓ) (f : A → M W B) (r : Result A × W)
      → P r.1
      → ((a : A) (v : W) → P v → P (f a v).1)
      → P (next f r).1
  next-keeps P f (ok a, v) h keep = keep a v h
  next-keeps P f (err e, v) h keep = h
  next-keeps P f (halt, v) h keep = h

  pub next-no-halt :
      {A B : Type 0} (f : A → M W B) (r : Result A × W)
      → r.0 ≢ halt
      → ((a : A) (v : W) → (f a v).0 ≢ halt)
      → (next f r).0 ≢ halt
  next-no-halt f (ok a, v) h k = k a v
  next-no-halt f (err e, v) h k = λ x. cc
  next-no-halt f (halt, v) h k = λ x. h refl

  -- A first part either succeeds or ends the sequence where it stands.
  pub next-cases :
      {A : Type 0} (r : Result A × W)
      → ((a : A) × (v : W) × (r ≡ (ok a, v))) ⊎ ((B : Type 0) (f : A → M W B) → (next f r).1 ≡ r.1)
  next-cases (ok a, v) = inl (a, v, refl)
  next-cases (err e, v) = inr (λ B f. refl)
  next-cases (halt, v) = inr (λ B f. refl)

  pub lift-keeps {ℓ} :
      {A B : Type 0} (P : W → Type ℓ) (f : A → M W B) (r : Result A) (w : W)
      → P w
      → ((a : A) → r ≡ ok a → P (f a w).1)
      → P (next f (r, w)).1
  lift-keeps P f (ok a) w h keep = keep a refl
  lift-keeps P f (err e) w h keep = h
  lift-keeps P f halt w h keep = h

  pub or_fail-world : {A : Type 0} (m : M W A) (e : Error) (w : W) → (or_fail m e w).1 ≡ (m w).1
  or_fail-world m e w = go (m w)
    where
      go : {A : Type 0} (r : Result A × W) → (replace e r).1 ≡ r.1
      go (ok a, v) = refl
      go (err _, v) = refl
      go (halt, v) = refl

  pub or_fail-eq-ok :
      {A : Type 0} (m : M W A) (e : Error) (w : W) {a : A} {v : W}
      → or_fail m e w ≡ (ok a, v)
      → m w ≡ (ok a, v)
  or_fail-eq-ok m e w h = go (m w) h
    where
      go : {A : Type 0} (r : Result A × W) {a : A} {v : W} → replace e r ≡ (ok a, v) → r ≡ (ok a, v)
      go (ok a, v) h = h
      go (err _, v) h = ground arith
      go (halt, v) h = ground arith
