-- ===== src/Hab.antt =====
-- internal/hab/hab.go: activating secure boot by burning fuses.
pub mod Fused
pub mod Tests
use armored_witness_os.Base.{
  ℕ, Bool, true, false, not, List, [], ◌∷◌, ◌||◌, Bytes, length, replicate, bytes_equal, ◌==◌,
  if◌then◌else◌, M, ◌>>=◌, ◌>>◌, pure, fail, require, or_fail, hab_enabled, invalid_srk,
  fuse_read_error, fuse_readback_error,
}
use armored_witness_os.Fuses.{Otp}

abbrev pub srk_size : ℕ
srk_size = 32

-- The arguments of one call of `fuse`, less the name that is logged.
pub record Setting : Type 0 where
  pub bank : ℕ
  pub word : ℕ
  pub off : ℕ
  pub size : ℕ
  pub val : Bytes

module _ {W : Type 0} (otp : Otp W) where
  open otp use {read_ocotp, blow_ocotp}

  -- `fuse`: the value is read, burnt, and read back.
  unfoldable pub fuse : ℕ → ℕ → ℕ → ℕ → Bytes → M W (Unit {0})
  fuse bank word off size val = do
    or_fail (read_ocotp bank word off size) fuse_read_error >>= λ _. pure tt
    blow_ocotp bank word off size val
    res ← or_fail (read_ocotp bank word off size) fuse_readback_error
    require (bytes_equal val res) fuse_readback_error

  -- `hab`: the calls of `fuse`, each made if the one before it succeeded.
  -- The endianness is switched by the package crucible/util.
  unfoldable pub hab : (Bytes → Bytes) → Bytes → M W (Unit {0})
  hab switch_endianness srk = do
    require (length srk == srk_size) invalid_srk
    fuse 3 0 0 256 (switch_endianness srk)
    fuse 0 0 14 1 (1 ∷ [])
    fuse 0 6 0 2 (0b11 ∷ [])
    fuse 0 6 3 1 (1 ∷ [])
    fuse 0 6 20 1 (1 ∷ [])
    fuse 0 6 22 2 (0b11 ∷ [])
    fuse 0 6 27 1 (1 ∷ [])
    fuse 0 6 26 1 (1 ∷ [])
    fuse 0 6 18 1 (1 ∷ [])
    fuse 0 7 4 1 (1 ∷ [])

  -- `Activate`. Whether the SNVS is available is read from the hardware.
  unfoldable pub activate : M W Bool → (Bytes → Bytes) → Bytes → M W (Unit {0})
  activate snvs_available switch_endianness srk = do
    available ← snvs_available
    if available
        then fail hab_enabled
        else if not (length srk == srk_size)
        then fail invalid_srk
        else if bytes_equal srk (replicate srk_size 0)
        then fail invalid_srk
        else hab switch_endianness srk
