-- ===== src/Base/ByteStrings.antt =====
-- Byte strings: comparison, and the big-endian numbers of encoding/binary.
use Prim.Native.Nat.{ℕ, ◌+◌, ◌*◌, ◌/◌, ◌%◌, ◌^◌, ◌<◌}
use mathlib.Core.Path.{◌≡◌, refl}
use mathlib.Core.Bool.{Bool, true, false, ◌&&◌}
use mathlib.Core.List.{List, [], ◌∷◌}
use native.Mathlib.Omega.{arith}
use armored_witness_os.Base.Tests.{◌==◌}

-- A byte is a number; where its range matters it is a hypothesis.
abbrev pub Bytes : Type 0
Bytes = List ℕ

-- `bytes.Equal`, `hmac.Equal`, and `==` on byte arrays.
unfoldable pub bytes_equal : Bytes → Bytes → Bool
bytes_equal [] [] = true
bytes_equal [] (y ∷ ys) = false
bytes_equal (x ∷ xs) [] = false
bytes_equal (x ∷ xs) (y ∷ ys) = (x == y) && bytes_equal xs ys

pub bytes_equal→eq : (xs ys : Bytes) → bytes_equal xs ys ≡ true → xs ≡ ys
unfolding bytes_equal
bytes_equal→eq [] [] h = refl
bytes_equal→eq [] (y ∷ ys) h = cc
bytes_equal→eq (x ∷ xs) [] h = cc
bytes_equal→eq (x ∷ xs) (y ∷ ys) h = ground (arith, bytes_equal→eq xs ys)

pub bytes_equal_refl : (xs : Bytes) → bytes_equal xs xs ≡ true
unfolding bytes_equal
bytes_equal_refl [] = refl
bytes_equal_refl (x ∷ xs) = ground (arith, bytes_equal_refl xs)

-- `binary.BigEndian.Uint16` and `PutUint16`, on `[2]byte`.
abbrev pub uint16 : Bytes → ℕ
uint16 (a ∷ b ∷ rest) = a * 2 ^ 8 + b
uint16 _ = 0

abbrev pub put_uint16 : ℕ → Bytes
put_uint16 v = (v / 2 ^ 8 % 256) ∷ (v % 256) ∷ []

-- `binary.BigEndian.Uint32` and `PutUint32`, on `[4]byte`.
abbrev pub uint32 : Bytes → ℕ
uint32 (a ∷ b ∷ c ∷ d ∷ rest) = a * 2 ^ 24 + b * 2 ^ 16 + c * 2 ^ 8 + d
uint32 _ = 0

abbrev pub put_uint32 : ℕ → Bytes
put_uint32 v = (v / 2 ^ 24 % 256) ∷ (v / 2 ^ 16 % 256) ∷ (v / 2 ^ 8 % 256) ∷ (v % 256) ∷ []

pub uint16-put_uint16 : (v : ℕ) → v < 2 ^ 16 → uint16 (put_uint16 v) ≡ v
uint16-put_uint16 v h = omega arith

pub uint32-put_uint32 : (v : ℕ) → v < 2 ^ 32 → uint32 (put_uint32 v) ≡ v
uint32-put_uint32 v h = omega arith
