-- ===== src/Base/Kept.antt =====
-- What computations keep of the world, however they end.
use mathlib.Core.Path.{◌≡◌, refl, subst, sym}
use mathlib.Core.Bool.{Bool, true, false}
use armored_witness_os.Base.Errors.{Error}
use armored_witness_os.Base.Tests.{if◌then◌else◌}
use armored_witness_os.Base.Effect.{
  Result, ok, err, halt, M, ◌>>=◌, ◌>>◌, next, next-keeps, lift, pure, fail, require, when, or_fail,
  or_fail-world,
}

-- `m` keeps `P`, whether it returns, fails or stops.
pub record Keeps {W A : Type 0} (P : W → Type 0) (m : M W A) : Type 0 where
  pub at : (w : W) → P w → P (m w).1

module _ {W : Type 0} {P : W → Type 0} where
  pub pure-Keeps : {A : Type 0} (a : A) → Keeps P (pure a)
  pure-Keeps a = record { at = λ w h. h }

  pub fail-Keeps : {A : Type 0} (e : Error) → Keeps P (fail {A = A} e)
  fail-Keeps e = record { at = λ w h. h }

  pub lift-Keeps : {A : Type 0} (r : Result A) → Keeps P (lift r)
  lift-Keeps r = record { at = λ w h. h }

  pub require-Keeps : (b : Bool) (e : Error) → Keeps P (require b e)
  require-Keeps true e = record { at = λ w h. h }
  require-Keeps false e = record { at = λ w h. h }

  pub bind-Keeps :
      {A B : Type 0} (m : M W A) (f : A → M W B)
      → Keeps P m
      → ((a : A) → Keeps P (f a))
      → Keeps P (m >>= f)
  bind-Keeps m f k l = record { at = λ w h. next-keeps P f (m w) (k.at w h) (λ a. (l a).at) }

  pub then-Keeps :
      {B : Type 0} (m : M W (Unit {0})) (n : M W B) → Keeps P m → Keeps P n → Keeps P (m >> n)
  then-Keeps m n k l = record { at = λ w h. next-keeps P (λ _. n) (m w) (k.at w h) (λ _. l.at) }

  pub when-Keeps : (b : Bool) (m : M W (Unit {0})) → Keeps P m → Keeps P (when b m)
  when-Keeps true m k = k
  when-Keeps false m k = record { at = λ w h. h }

  pub if-Keeps :
      {A : Type 0} (b : Bool) (m n : M W A) → Keeps P m → Keeps P n → Keeps P (if b then m else n)
  if-Keeps true m n k l = k
  if-Keeps false m n k l = l

  pub or_fail-Keeps : {A : Type 0} (m : M W A) (e : Error) → Keeps P m → Keeps P (or_fail m e)
  or_fail-Keeps m e k = record { at = λ w h. subst P (sym (or_fail-world m e w)) (k.at w h) }

  next_at :
      {A B : Type 0} (f : A → M W B) (r : Result A × W)
      → P r.1
      → ((a : A) (v : W) → r ≡ (ok a, v) → P v → P (f a v).1)
      → P (next f r).1
  next_at f (ok a, v) h k = k a v refl h
  next_at f (err e, v) h k = h
  next_at f (halt, v) h k = h

  -- The rest of a sequence may use what held before the first part, and what that has returned.
  pub bind_held-Keeps :
      {A B : Type 0} (m : M W A) (f : A → M W B)
      → Keeps P m
      → ((a : A) (w v : W) → P w → m w ≡ (ok a, v) → Keeps P (f a))
      → Keeps P (m >>= f)
  bind_held-Keeps m f k l = record {
    at = λ w h. next_at f (m w) (k.at w h) (λ a v e. (l a w v h e).at v);
  }

  pub bind_at-Keeps :
      {A B : Type 0} (m : M W A) (f : A → M W B)
      → Keeps P m
      → ((a : A) (w v : W) → m w ≡ (ok a, v) → Keeps P (f a))
      → Keeps P (m >>= f)
  bind_at-Keeps m f k l = bind_held-Keeps m f k (λ a w v h e. l a w v e)

pub ruleset keeps_rules = (
  pure-Keeps, fail-Keeps, lift-Keeps, require-Keeps, bind-Keeps, then-Keeps, when-Keeps, if-Keeps,
  or_fail-Keeps,
)
