-- ===== src/Base/Lists.antt =====
-- Lists measured and indexed by the native numbers, and Go's built-in `copy`.
use Prim.Native.Nat.{ℕ, zero, suc, ◌+◌, ◌-◌, ◌≤◌, min}
use mathlib.Core.Path.{◌≡◌, refl, sym, ap, ◌∙◌}
use Prim.Native.Nat.add
use mathlib.Core.List.{List, [], ◌∷◌, ◌++◌}
use native.Mathlib.Omega.{arith}

module _ {ℓ} {A : Type ℓ} where
  abbrev pub length : List A → ℕ
  length [] = 0
  length (x ∷ xs) = suc (length xs)

  abbrev pub take : ℕ → List A → List A
  take zero xs = []
  take (suc n) [] = []
  take (suc n) (x ∷ xs) = x ∷ take n xs

  abbrev pub drop : ℕ → List A → List A
  drop zero xs = xs
  drop (suc n) [] = []
  drop (suc n) (x ∷ xs) = drop n xs

  abbrev pub replicate : ℕ → A → List A
  replicate zero a = []
  replicate (suc n) a = a ∷ replicate n a

  -- `copy(dst, src)`: the first elements of `dst` become those of `src`, as many as both have.
  abbrev pub copy : List A → List A → List A
  copy [] src = []
  copy (d ∷ dst) [] = d ∷ dst
  copy (d ∷ dst) (s ∷ src) = s ∷ copy dst src

  pub length-append : (xs ys : List A) → length (xs ++ ys) ≡ length xs + length ys
  length-append [] ys = omega arith
  length-append (x ∷ xs) ys = omega (arith, length-append xs ys)

  pub length-take : (n : ℕ) (xs : List A) → length (take n xs) ≡ min n (length xs)
  length-take zero xs = omega arith
  length-take (suc n) [] = omega arith
  length-take (suc n) (x ∷ xs) = omega (arith, length-take n xs)

  pub length-drop : (n : ℕ) (xs : List A) → length (drop n xs) ≡ length xs - n
  length-drop zero xs = omega arith
  length-drop (suc n) [] = omega arith
  length-drop (suc n) (x ∷ xs) = omega (arith, length-drop n xs)

  pub length-replicate : (n : ℕ) (a : A) → length (replicate n a) ≡ n
  length-replicate zero a = refl
  length-replicate (suc n) a = ap suc (length-replicate n a)

  pub take-append-drop : (n : ℕ) (xs : List A) → take n xs ++ drop n xs ≡ xs
  take-append-drop zero xs = refl
  take-append-drop (suc n) [] = refl
  take-append-drop (suc n) (x ∷ xs) = rw (take-append-drop n xs)

  pub take-append : (n : ℕ) (xs ys : List A) → length xs ≡ n → take n (xs ++ ys) ≡ xs
  take-append zero [] ys h = refl
  take-append (suc n) [] ys h = absurd (omega arith)
  take-append zero (x ∷ xs) ys h = absurd (omega arith)
  take-append (suc n) (x ∷ xs) ys h = ap (◌∷◌ x) (take-append n xs ys (omega arith))

  pub drop-append : (n : ℕ) (xs ys : List A) → length xs ≡ n → drop n (xs ++ ys) ≡ ys
  drop-append zero [] ys h = refl
  drop-append (suc n) [] ys h = absurd (omega arith)
  drop-append zero (x ∷ xs) ys h = absurd (omega arith)
  drop-append (suc n) (x ∷ xs) ys h = drop-append n xs ys (omega arith)

  pub take_all : (n : ℕ) (xs : List A) → length xs ≤ n → take n xs ≡ xs
  take_all zero [] h = refl
  take_all zero (x ∷ xs) h = absurd (omega arith)
  take_all (suc n) [] h = refl
  take_all (suc n) (x ∷ xs) h = ap (◌∷◌ x) (take_all n xs (omega arith))

  pub drop_all : (n : ℕ) (xs : List A) → length xs ≤ n → drop n xs ≡ []
  drop_all zero [] h = refl
  drop_all zero (x ∷ xs) h = absurd (omega arith)
  drop_all (suc n) [] h = refl
  drop_all (suc n) (x ∷ xs) h = drop_all n xs (omega arith)

  pub length-copy : (dst src : List A) → length (copy dst src) ≡ length dst
  length-copy [] src = refl
  length-copy (d ∷ dst) [] = refl
  length-copy (d ∷ dst) (s ∷ src) = ap suc (length-copy dst src)

  -- A source as long as the destination replaces it.
  pub copy_full : (dst src : List A) → length src ≡ length dst → copy dst src ≡ src
  copy_full [] [] h = refl
  copy_full [] (s ∷ src) h = absurd (omega arith)
  copy_full (d ∷ dst) [] h = absurd (omega arith)
  copy_full (d ∷ dst) (s ∷ src) h = ap (◌∷◌ s) (copy_full dst src (omega arith))

  -- A shorter source is followed by what the destination held.
  pub copy-replicate :
      (n : ℕ) (z : A) (src : List A)
      → length src ≤ n
      → copy (replicate n z) src ≡ src ++ replicate (n - length src) z
  copy-replicate zero z [] h = refl
  copy-replicate zero z (s ∷ src) h = absurd (omega arith)
  copy-replicate (suc n) z [] h = ap (λ k. replicate k z) {x = suc n} {y = suc n - 0} (omega arith)
  copy-replicate (suc n) z (s ∷ src) h = ap (◌∷◌ s) (copy-replicate n z src (omega arith) ∙ tail_eq)
    where
      tail_eq : src ++ replicate (n - length src) z ≡ src ++ replicate (suc n - suc (length src)) z
      tail_eq = ap (λ k. src ++ replicate k z) (omega arith)

  drop-drop : (a n : ℕ) (xs : List A) → drop (a + n) xs ≡ drop n (drop a xs)
  drop-drop zero n xs = ap (λ k. drop k xs) (add.zero n)
  drop-drop (suc a) n [] =
      ap (λ k. drop k []) {x = suc a + n} {y = suc (a + n)} (omega arith) ∙ sym (drop_nil n)
    where
      drop_nil : (k : ℕ) → drop k [] ≡ []
      drop_nil zero = refl
      drop_nil (suc k) = refl
  drop-drop (suc a) n (x ∷ xs) =
      ap (λ k. drop k (x ∷ xs)) {x = suc a + n} {y = suc (a + n)} (omega arith) ∙ drop-drop a n xs

  -- Where a list goes on with `x` at `a`, what follows `x` stands behind it.
  pub drop_next :
      (a n : ℕ) (xs x rest : List A) → drop a xs ≡ x ++ rest → length x ≡ n → drop (a + n) xs ≡ rest
  drop_next a n xs x rest e h = rw (drop-drop, e) (drop-append n x rest h)

  -- A longer source fills the destination.
  pub copy-replicate_long :
      (n : ℕ) (z : A) (src : List A) → n ≤ length src → copy (replicate n z) src ≡ take n src
  copy-replicate_long zero z src h = refl
  copy-replicate_long (suc n) z [] h = absurd (omega arith)
  copy-replicate_long (suc n) z (s ∷ src) h = ap (◌∷◌ s) (copy-replicate_long n z src (omega arith))
