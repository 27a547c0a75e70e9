-- ===== src/TrustedOs/Boot/Tries.antt =====
-- A start of a build that is before the version that is stored keeps the sector, however it ends:
-- `main` of trusted_os/main.go.
use armored_witness_os.Base.{
  ℕ, ◌≡◌, ◌∙◌, Bool, true, Bytes, Option, some, Result, ok, M, copy, replicate, Keeps,
  bind_at-Keeps, then-Keeps, bind-Keeps, if-Keeps, pure-Keeps, arith,
}
use armored_witness_os.Fuses.{Otp}
use armored_witness_os.Disk.{Card}
use armored_witness_os.Rpmb.Op.{Platform, Partition}
use armored_witness_os.Rpmb.Card.{IsCard}
use armored_witness_os.TrustedOs.Firmware.{ConfigCodec, Loaded}
use armored_witness_os.TrustedOs.Rollback
use armored_witness_os.TrustedOs.Rollback.{
  KeySource, Rpmb, Sectors, Versions, stored_version, version_length, sectors_of, check_version,
  os_version_sector,
}
use armored_witness_os.TrustedOs.Rollback.Store.{IsVersioning}
use armored_witness_os.TrustedOs.Rollback.Setup.{IsUnit, partition, init-Keeps, init-partition}
use armored_witness_os.TrustedOs.Rollback.Refused.{refused-Keeps}
use armored_witness_os.TrustedOs.Boot.Loading.{IsSecured, fatal-Keeps, load-Keeps}
use armored_witness_os.TrustedOs.Boot.{
  Build, boot, set_up_rpmb, check_rollback, trim_v, fatal, fatal-eq-ok,
}

module _ {K V W : Type 0} (vs : Versions V) (order : IsVersioning vs)
    (new_verifier : Bytes → Result K) (codec : ConfigCodec) (storage : Card W)
    (storage_kind : Option Bool) (pf : Platform W) (otp : Otp W) (ks : KeySource W)
    (snvs_available : M W Bool) (unloaded : Loaded) (content : W → ℕ → Bytes) (key : Bytes)
    (unit : IsUnit otp ks content key) (card : IsCard pf key content)
    (secured : IsSecured storage snvs_available content) where
  module _ (build : Build) (bs : Bytes) (stored old : V)
      (held : stored_version vs (vs.decode (copy (replicate version_length 0) bs)) ≡ ok stored)
      (parsed : vs.new_version (trim_v build.version) ≡ ok old)
      (older : vs.less_than old stored ≡ true) where
    abbrev P : W → Type 0
    P w = content w os_version_sector ≡ bs

    check-Keeps :
        (p : Partition)
        → p ≡ partition key
        → Keeps P (
            check_version vs
              (record { partition = some (sectors_of pf p) })
              os_version_sector
              (trim_v build.version))
    check-Keeps p e = rw e (
        refused-Keeps vs order pf (partition key) content card os_version_sector (omega arith) bs
          stored held (trim_v build.version) old parsed older)

    check_rollback-Keeps :
        Keeps P (check_rollback build vs new_verifier codec storage storage_kind pf otp ks)
    unfolding check_rollback
    check_rollback-Keeps =
        bind_at-Keeps (λ w. fatal (Rollback.init pf otp ks storage_kind w)) _
          (fatal-Keeps _ (
            init-Keeps pf otp ks content key unit card os_version_sector bs (omega arith)
              storage_kind))
          λ p x y made.
            let e =
              init-partition pf otp ks content key unit card storage_kind p x y
                (fatal-eq-ok (Rollback.init pf otp ks storage_kind x) made) in
            then-Keeps _ _ (fatal-Keeps _ (check-Keeps p e)) (pure-Keeps _)

    sense-Keeps : Keeps P snvs_available
    sense-Keeps = record { at = λ w h. secured.senses w os_version_sector ∙ h }

    detect-Keeps : Keeps P storage.detect
    detect-Keeps = record { at = λ w h. secured.detects w os_version_sector ∙ h }

    set_up-Keeps :
        Keeps P (
          set_up_rpmb build vs new_verifier codec storage storage_kind pf otp ks true
            snvs_available)
    unfolding set_up_rpmb
    set_up-Keeps =
        bind-Keeps _ _ sense-Keeps
          λ available. if-Keeps available _ _ check_rollback-Keeps (pure-Keeps _)

    pub boot-Keeps : Keeps P (
        boot build vs new_verifier codec storage storage_kind pf otp ks true snvs_available
          unloaded)
    unfolding boot
    boot-Keeps = then-Keeps _ _ (fatal-Keeps _ detect-Keeps) (
        bind-Keeps _ _ set_up-Keeps (
          load-Keeps vs new_verifier codec storage storage_kind pf otp ks snvs_available unloaded
            content secured build bs))
