-- ===== src/Fuses.antt =====
-- The one-time programmable fuses, as the code uses them (the package crucible/otp).
use armored_witness_os.Base.{ℕ, Bytes, M}

-- `otp.ReadOCOTP(bank, word, off, size)` and `otp.BlowOCOTP(bank, word, off, size, val)`.
pub record Otp (W : Type 0) : Type 0 where
  pub read_ocotp : ℕ → ℕ → ℕ → ℕ → M W Bytes
  pub blow_ocotp : ℕ → ℕ → ℕ → ℕ → Bytes → M W (Unit {0})
