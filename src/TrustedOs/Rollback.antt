-- ===== src/TrustedOs/Rollback.antt =====
-- trusted_os/rpmb.go: the RPMB of the OS, and the version check against rollback.
pub mod Store
pub mod Versioning
pub mod Keying
pub mod Refine
pub mod Setup
pub mod Calls
pub mod Refused
use armored_witness_os.Base.{
  ℕ, Bool, true, false, not, [], ◌∷◌, Bytes, length, replicate, bytes_equal, ◌==◌, if◌then◌else◌,
  Option, none, some, is_some, Result, ok, err, halt, M, next, ◌>>=◌, ◌>>◌, pure, fail, lift,
  require, when, or_fail, Error, as_operation_error, derive_failed, flag_unreadable, not_usdhc,
  init_failed, counter_unreadable, fuse_failed, program_key_failed, rpmb_uninitialized,
  version_mismatch, unsupported_hardware,
}
use armored_witness_os.Fuses.{Otp}
use armored_witness_os.Rpmb.Frame.{authentication_key_not_yet_programmed}
use armored_witness_os.Rpmb.Op
use armored_witness_os.Rpmb.Op.{Platform, Partition}
use armored_witness_os.Rpmb.Device
use armored_witness_os.Rpmb.Device.{program_key}

abbrev pub dummy_sector : ℕ
dummy_sector = 0

abbrev pub version_length : ℕ
version_length = 32

abbrev pub os_version_sector : ℕ
os_version_sector = 1

abbrev pub ta_version_sector : ℕ
ta_version_sector = 2

abbrev pub ta_user_sector : ℕ
ta_user_sector = 3

abbrev pub rpmb_fuse_bank : ℕ
rpmb_fuse_bank = 4

abbrev pub rpmb_fuse_word : ℕ
rpmb_fuse_word = 6

-- The key derivation of the two crypto units, either of which may be missing, and pbkdf2 over the
-- unit's identifier.
pub record KeySource (W : Type 0) : Type 0 where
  pub caam : Option (M W Bytes)
  pub dcp : Option (M W Bytes)
  pub stretch : Bytes → Bytes

-- go-semver and gob: texts are byte strings.
pub data Decoded : Type 0 where
  decoded : Bytes → Decoded
  at_eof : Decoded
  undecodable : Error → Decoded

pub record Versions (V : Type 0) : Type 0 where
  pub new_version : Bytes → Result V
  pub to_text : V → Bytes
  pub less_than : V → V → Bool
  pub equal : V → V → Bool
  pub zero_text : Bytes
  pub encode : Bytes → Result Bytes
  pub decode : Bytes → Decoded

-- A partition as its users see it: `Read`, `Write` and `Counter` of the package rpmb.
pub record Sectors (W : Type 0) : Type 0 where
  pub read : ℕ → Bytes → M W Bytes
  pub write : ℕ → Bytes → M W (Unit {0})
  pub counter : Bool → M W ℕ

abbrev pub sectors_of : {W : Type 0} → Platform W → Partition → Sectors W
sectors_of pf p = record {
  read = Device.read pf p;
  write = Device.write pf p;
  counter = Op.counter pf p;
}

module _ {W : Type 0} (otp : Otp W) where
  -- `isProgrammed`
  unfoldable pub is_programmed : M W Bool
  is_programmed = do
    res ← or_fail (otp.read_ocotp rpmb_fuse_bank rpmb_fuse_word 0 1) flag_unreadable
    pure (bytes_equal res (1 ∷ []))

module _ {W : Type 0} (pf : Platform W) (otp : Otp W) (ks : KeySource W) where
  -- The derived key, from the first unit that there is.
  unfoldable pub derive : Option (M W Bytes) → Option (M W Bytes) → M W Bytes
  derive (some caam) dcp = or_fail caam derive_failed
  derive none (some dcp) = or_fail dcp derive_failed
  derive none none = fail derive_failed

  -- An unauthenticated counter read may fail for want of a key, and in no other way.
  abbrev pub tolerate : Result ℕ × W → Result (Unit {0}) × W
  tolerate (ok n, w) = (ok tt, w)
  tolerate (halt, w) = (halt, w)
  tolerate (err e, w) = elim (as_operation_error e) [
    | none ↦ (err counter_unreadable, w)
    | some r ↦
        if r == authentication_key_not_yet_programmed
        then (ok tt, w)
        else (err counter_unreadable, w)
  ]

  unfoldable pub probe : Partition → M W (Unit {0})
  probe p w = tolerate (Op.counter pf p false w)

  -- `(*RPMB).init`, with the partition that it sets up. The card is `none` if the storage is no
  -- uSDHC card, and otherwise tells whether it is an MMC.
  unfoldable pub init : Option Bool → M W Partition
  init card = do
    dk ← derive ks.caam ks.dcp
    require (is_some card) not_usdhc
    programmed ← is_programmed otp
    p ← or_fail (Device.init pf card (ks.stretch dk) dummy_sector programmed) init_failed
    probe p
    if programmed then pure p else (do
      or_fail (otp.blow_ocotp rpmb_fuse_bank rpmb_fuse_word 0 1 (1 ∷ [])) fuse_failed
      or_fail (program_key pf p) program_key_failed
      pure p)

-- `RPMB`: its partition is nil before `init`.
pub record Rpmb (W : Type 0) : Type 0 where
  pub partition : Option (Sectors W)

-- What `expectedVersion` makes of the decoder's answer.
abbrev pub stored_version : {V : Type 0} → Versions V → Decoded → Result V
stored_version vs (decoded v) = vs.new_version v
stored_version vs at_eof = vs.new_version vs.zero_text
stored_version vs (undecodable e) = err e

module _ {V W : Type 0} (vs : Versions V) where
  open vs use {new_version, to_text, less_than, equal}

  unfoldable pub expected_version : Rpmb W → ℕ → M W V
  expected_version r offset = elim r.partition [
    | none ↦ fail rpmb_uninitialized
    | some p ↦ p.read offset (replicate version_length 0) >>= λ buf.
        lift (stored_version vs (vs.decode buf))
  ]

  unfoldable pub update_version : Rpmb W → ℕ → V → M W (Unit {0})
  update_version r offset version = elim r.partition [
    | none ↦ fail rpmb_uninitialized
    | some p ↦ lift (vs.encode (to_text version)) >>= λ buf. p.write offset buf
  ]

  unfoldable pub check_version : Rpmb W → ℕ → Bytes → M W (Unit {0})
  check_version r offset s = do
    running ← lift (new_version s)
    expected ← expected_version r offset
    if less_than running expected
        then fail version_mismatch
        else if equal expected running
        then pure tt
        else if less_than expected running
        then update_version r offset running
        else pure tt

-- `(*RPMB).transfer`: the buffer and, if there was a place for it, the counter.
module _ {W : Type 0} where
  abbrev pub access : Sectors W → ℕ → Bytes → Bool → M W Bytes
  access p offset buf true = p.write offset buf >>= λ _. pure buf
  access p offset buf false = p.read offset buf

  -- The counter is asked for only after an error, which it replaces.
  abbrev pub with_counter :
      Sectors W → Bytes → Bool → Result Bytes × W → Result (Bytes × Option ℕ) × W
  with_counter p buf true (err e, w) = (p.counter true >>= λ n. pure (buf, some n)) w
  with_counter p buf false (err e, w) = (err e, w)
  with_counter p buf _ (ok out, w) = (ok (out, none), w)
  with_counter p buf _ (halt, w) = (halt, w)

  -- A nil partition is a nil pointer that is read.
  unfoldable pub transfer : Rpmb W → ℕ → Bytes → Bool → Bool → M W (Bytes × Option ℕ)
  transfer r offset buf wants_counter write w = elim r.partition [
    | none ↦ (halt, w)
    | some p ↦ with_counter p buf wants_counter (access p offset buf write w)
  ]
