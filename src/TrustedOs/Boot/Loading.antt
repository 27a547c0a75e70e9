-- ===== src/TrustedOs/Boot/Loading.antt =====
-- What a start of the OS keeps of a sector beside the check of its version: trusted_os/main.go and the
-- reads of trusted_os/flash.go.
use armored_witness_os.Base.{
  ℕ, ◌≡◌, ◌∙◌, Bool, true, Bytes, Option, Result, ok, err, halt, M, Keeps, keeps_rules, arith,
}
use armored_witness_os.Fuses.{Otp}
use armored_witness_os.Disk.{Card}
use armored_witness_os.Rpmb.Op.{Platform}
use armored_witness_os.TrustedOs.Firmware.{ConfigCodec, Loaded}
use armored_witness_os.TrustedOs.Flash
use armored_witness_os.TrustedOs.Flash.{determine_loaded_os_block, read_config, checked_block_size}
use armored_witness_os.TrustedOs.Rollback.{KeySource, Rpmb, Versions, os_version_sector}
use armored_witness_os.TrustedOs.Boot.{Build, load, find_applet, fatal, logged}

-- The storage and the SNVS are beside the RPMB: their use changes no sector. The device is secured:
-- the SNVS is available.
pub record IsSecured {W : Type 0} (storage : Card W) (snvs_available : M W Bool)
    (content : W → ℕ → Bytes) : Type 0 where
  pub detects : (w : W) (o : ℕ) → content (storage.detect w).1 o ≡ content w o
  pub reads : (off size : ℕ) (w : W) (o : ℕ) → content (storage.read off size w).1 o ≡ content w o
  pub senses : (w : W) (o : ℕ) → content (snvs_available w).1 o ≡ content w o
  pub available : (w v : W) (a : Bool) → snvs_available w ≡ (ok a, v) → a ≡ true

module _ {W : Type 0} {P : W → Type 0} where
  pub fatal-Keeps : {A : Type 0} (m : M W A) → Keeps P m → Keeps P (λ w. fatal (m w))
  fatal-Keeps m k = record { at = λ w h. go (m w) (k.at w h) }
    where
      go : {A : Type 0} (r : Result A × W) → P r.1 → P (fatal r).1
      go (ok a, w) h = h
      go (err e, w) h = h
      go (halt, w) h = h

  pub logged-Keeps : {A : Type 0} (d : A) (m : M W A) → Keeps P m → Keeps P (λ w. logged d (m w))
  logged-Keeps d m k = record { at = λ w h. go d (m w) (k.at w h) }
    where
      go : {A : Type 0} (d : A) (r : Result A × W) → P r.1 → P (logged d r).1
      go d (ok a, w) h = h
      go d (err e, w) h = h
      go d (halt, w) h = h

module _ {K V W : Type 0} (vs : Versions V) (new_verifier : Bytes → Result K) (codec : ConfigCodec)
    (storage : Card W) (storage_kind : Option Bool) (pf : Platform W) (otp : Otp W)
    (ks : KeySource W) (snvs_available : M W Bool) (unloaded : Loaded) (content : W → ℕ → Bytes)
    (secured : IsSecured storage snvs_available content) (build : Build) (bs : Bytes) where
  abbrev pub P : W → Type 0
  P w = content w os_version_sector ≡ bs

  read-Keeps : (off size : ℕ) → Keeps P (storage.read off size)
  read-Keeps off size = record { at = λ w h. secured.reads off size w os_version_sector ∙ h }

  size-Keeps : Keeps P (checked_block_size storage)
  size-Keeps = record { at = λ w h. ground arith }

  config-Keeps : (block : ℕ) → Keeps P (read_config storage codec block)
  unfolding read_config
  config-Keeps block = search (read-Keeps, keeps_rules)

  determine-Keeps : (l : Loaded) → Keeps P (determine_loaded_os_block storage codec l)
  unfolding determine_loaded_os_block
  determine-Keeps l = search (size-Keeps, config-Keeps, keeps_rules)

  applet-Keeps : (l : Loaded) → Keeps P (Flash.read storage codec l)
  unfolding Flash.read
  applet-Keeps l = search (size-Keeps, config-Keeps, read-Keeps, keeps_rules)

  find-Keeps :
      (l : Loaded)
      → Keeps P (find_applet build vs new_verifier codec storage storage_kind pf otp ks l)
  unfolding find_applet
  find-Keeps l = search (applet-Keeps, logged-Keeps, keeps_rules)

  pub load-Keeps :
      (rpmb : Rpmb W)
      → Keeps P (load build vs new_verifier codec storage storage_kind pf otp ks unloaded rpmb)
  unfolding load
  load-Keeps rpmb =
      search (determine-Keeps, find-Keeps, fatal-Keeps, logged-Keeps, keeps_rules) depth 12
