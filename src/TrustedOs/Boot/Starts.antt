-- ===== src/TrustedOs/Boot/Starts.antt =====
-- What a start of the OS that succeeds has found and left in the OS's sector: trusted_os/main.go on a
-- card that keeps its standard.
use armored_witness_os.Base.{
  ℕ, ◌≡◌, ◌∙◌, refl, sym, ap, subst, Bool, true, Bytes, Option, some, Result, ok, M, copy,
  replicate, inl, inr, unbind, pure-eq, Keeps, arith,
}
use armored_witness_os.Fuses.{Otp}
use armored_witness_os.Disk.{Card}
use armored_witness_os.Rpmb.Op.{Platform}
use armored_witness_os.Rpmb.Card.{IsCard}
use armored_witness_os.TrustedOs.Firmware.{ConfigCodec, Loaded}
use armored_witness_os.TrustedOs.Rollback
use armored_witness_os.TrustedOs.Rollback.{
  KeySource, Rpmb, Sectors, Versions, stored_version, version_length, sectors_of, check_version,
  os_version_sector,
}
use armored_witness_os.TrustedOs.Rollback.Store.{IsStore, IsVersioning}
use armored_witness_os.TrustedOs.Rollback.Versioning.{Holds}
use armored_witness_os.TrustedOs.Rollback.Refine.{sectors_of-IsStore}
use armored_witness_os.TrustedOs.Rollback.Setup.{IsUnit, partition, init-Keeps, init-partition}
use armored_witness_os.TrustedOs.Rpc.History.{IsPreorder, Passed, check_version-Passed}
use armored_witness_os.TrustedOs.Boot.Loading.{IsSecured, fatal-Keeps, load-Keeps}
use armored_witness_os.TrustedOs.Boot.{
  Build, Booted, boot, set_up_rpmb, check_rollback, trim_v, fatal, fatal-eq-ok,
}

module _ {K V W : Type 0} (vs : Versions V) (order : IsVersioning vs) (preorder : IsPreorder vs)
    (new_verifier : Bytes → Result K) (codec : ConfigCodec) (storage : Card W)
    (storage_kind : Option Bool) (pf : Platform W) (otp : Otp W) (ks : KeySource W)
    (snvs_available : M W Bool) (unloaded : Loaded) (content : W → ℕ → Bytes) (key : Bytes)
    (unit : IsUnit otp ks content key) (card : IsCard pf key content)
    (secured : IsSecured storage snvs_available content) where
  abbrev pub sectors : Sectors W
  sectors = sectors_of pf (partition key)

  pub store : IsStore sectors content
  store = sectors_of-IsStore pf (partition key) content card

  -- A check of the running version from what the OS's sector held, and what it holds after.
  abbrev pub Checks : Bytes → W → W → Type 0
  Checks s w w' = Passed vs sectors content store order preorder s w w'

  module _ (build : Build) where
    -- What the OS's sector holds is the same before the check of the version as at the start.
    start-Keeps :
        (bs : Bytes) → Keeps (λ w. content w os_version_sector ≡ bs) (λ w. fatal (storage.detect w))
    start-Keeps bs =
        fatal-Keeps storage.detect (record { at = λ w h. secured.detects w os_version_sector ∙ h })

    moved-Passed :
        (s : Bytes) (w z v w' : W)
        → content z os_version_sector ≡ content w os_version_sector
        → content w' os_version_sector ≡ content v os_version_sector
        → Passed vs sectors content store order preorder s z v
        → Passed vs sectors content store order preorder s w w'
    moved-Passed s w z v w' before after c = record {
      running = c.running;
      stored = c.stored;
      parsed = c.parsed;
      held = same-Holds c.stored z w (sym before) c.held;
      not_older = c.not_older;
      kept_if = λ short. elim (c.kept_if short) [
        | inl (e, h) ↦ inl (e, same-Holds c.stored v w' after h)
        | inr (e, h) ↦ inr (e, same-Holds c.running v w' after h)
      ];
    }
      where
        same-Holds :
            (u : V) (w w' : W)
            → content w' os_version_sector ≡ content w os_version_sector
            → Holds vs sectors content store order w os_version_sector u
            → Holds vs sectors content store order w' os_version_sector u
        same-Holds u w w' e held =
            ap (λ c. stored_version vs (vs.decode (copy (replicate version_length 0) c))) e ∙ held

    check_rollback-Passed :
        (w w' : W) (rpmb : Rpmb W)
        → check_rollback build vs new_verifier codec storage storage_kind pf otp ks w
          ≡ (ok rpmb, w')
        → Checks (trim_v build.version) w w'
    unfolding check_rollback
    check_rollback-Passed w w' rpmb h =
        unbind (λ v. fatal (Rollback.init pf otp ks storage_kind v)) _ w h
          λ p z made k.
            let inited = fatal-eq-ok (Rollback.init pf otp ks storage_kind w) made in
            let same = init-partition pf otp ks content key unit card storage_kind p w z inited in
            unbind
              (λ v. fatal (
                check_version vs (record { partition = some (sectors_of pf p) }) os_version_sector
                  (trim_v build.version) v))
              _ z k
              λ _ y checked rest.
                let at_own : check_version vs (record { partition = some sectors })
                      os_version_sector (trim_v build.version) z
                    ≡ (ok tt, y) =
                  subst
                    (λ q.
                      check_version vs (record { partition = some (sectors_of pf q) })
                        os_version_sector (trim_v build.version) z
                      ≡ (ok tt, y))
                    same
                    (fatal-eq-ok
                      (check_version vs (record { partition = some (sectors_of pf p) })
                        os_version_sector (trim_v build.version) z)
                      checked) in
                let kept =
                  (init-Keeps pf otp ks content key unit card os_version_sector
                      (content w os_version_sector) (omega arith) storage_kind).at
                    w refl in
                moved-Passed (trim_v build.version) w z y w'
                  (ap (λ r. content r.1 os_version_sector) (sym inited) ∙ kept)
                  (ap (λ v. content v os_version_sector) (sym (pure-eq rest).1))
                  (check_version-Passed vs sectors content store order preorder
                    (trim_v build.version) z y at_own)

    abbrev pub starts_with : M W (Booted K W)
    starts_with =
        boot build vs new_verifier codec storage storage_kind pf otp ks true snvs_available unloaded

    pub boot-Passed :
        (w w' : W) (booted : Booted K W)
        → starts_with w ≡ (ok booted, w')
        → Checks (trim_v build.version) w w'
    unfolding boot set_up_rpmb
    boot-Passed w w' booted h =
        let rollback = check_rollback build vs new_verifier codec storage storage_kind pf otp ks in
        unbind (λ v. fatal (storage.detect v)) _ w h
          λ _ x detected k.
            unbind
              (set_up_rpmb build vs new_verifier codec storage storage_kind pf otp ks true
                snvs_available)
              _ x k
              λ rpmb y set_up rest. unbind snvs_available _ x set_up λ available z sensed k2.
                let on = secured.available x z available sensed in
                let checked : rollback z ≡ (ok rpmb, y) = rw on at k2 in
                let held = (start-Keeps (content w os_version_sector)).at w refl in
                let loads =
                  (load-Keeps vs new_verifier codec storage storage_kind pf otp ks snvs_available
                      unloaded content secured build (content y os_version_sector) rpmb).at
                    y refl in
                moved-Passed (trim_v build.version) w z y w'
                  (ap (λ r. content r.1 os_version_sector) (sym sensed)
                    ∙ secured.senses x os_version_sector
                    ∙ ap (λ r. content r.1 os_version_sector) (sym detected)
                    ∙ held)
                  (ap (λ r. content r.1 os_version_sector) (sym rest) ∙ loads)
                  (check_rollback-Passed z y rpmb checked)
