-- ===== src/TrustedOs/Rollback/Keying.antt =====
-- The programming of the RPMB key: `init` of trusted_os/rpmb.go.
use armored_witness_os.Base.{
  ◌≡◌, ◌⊎◌, ◌∙◌, inl, inr, ap, subst, Bool, true, false, [], ◌∷◌, Bytes, Option, ok, is_some,
  unbind, pure, ◌>>◌, refl, M, if◌then◌else◌, or_fail, or_fail-eq-ok, require, require-world,
  not_usdhc, init_failed, fuse_failed, program_key_failed,
}
use armored_witness_os.Fuses.{Otp}
use armored_witness_os.Rpmb.Op.{Platform, Partition}
use armored_witness_os.Rpmb.Device
use armored_witness_os.Rpmb.Device.{program_key}
use armored_witness_os.TrustedOs.Rollback.{
  KeySource, is_programmed, derive, probe, init, rpmb_fuse_bank, rpmb_fuse_word, dummy_sector,
}

module _ {W : Type 0} (pf : Platform W) (otp : Otp W) (ks : KeySource W) where
  -- What follows the probe of the counter.
  abbrev program : Bool → Partition → M W Partition
  program flag p =
      if flag
      then pure p
      else (or_fail (otp.blow_ocotp rpmb_fuse_bank rpmb_fuse_word 0 1 (1 ∷ [])) fuse_failed
          >> (or_fail (program_key pf p) program_key_failed >> pure p))

  -- Nothing was done where the flag was fused; else it was fused first and the key programmed last.
  abbrev pub Programmed : Bool → Partition → W → W → Type 0
  Programmed flag p v w' =
      ((flag ≡ true) × (v ≡ w'))
      ⊎ ((flag ≡ false)
          × (fused : W) × (otp.blow_ocotp rpmb_fuse_bank rpmb_fuse_word 0 1 (1 ∷ []) v
              ≡ (ok tt, fused))
          × (program_key pf p fused ≡ (ok tt, w')))

  program-Programmed :
      (flag : Bool) (q p : Partition) (v w' : W)
      → program flag q v ≡ (ok p, w')
      → (q ≡ p) × Programmed flag q v w'
  program-Programmed true q p v w' h = (cc (ap (λ r. r.0) h), inl (refl, ap (λ r. r.1) h))
  program-Programmed false q p v w' h =
      unbind (or_fail (otp.blow_ocotp rpmb_fuse_bank rpmb_fuse_word 0 1 (1 ∷ [])) fuse_failed) _ v h
        λ _ x e k. unbind (or_fail (program_key pf q) program_key_failed) _ x k λ _ y e' k'. (
          cc (ap (λ r. r.0) k'),
          inr (
            refl,
            x,
            or_fail-eq-ok (otp.blow_ocotp rpmb_fuse_bank rpmb_fuse_word 0 1 (1 ∷ [])) fuse_failed v
                e,
            or_fail-eq-ok (program_key pf q) program_key_failed x e'
                ∙ ap (λ t. (ok tt, t)) (ap (λ r. r.1) k'),
          ),
        )

  -- How the key of a partition was set up: the flag was read, the partition made with the derived
  -- key, its counter probed, and the key programmed or not.
  pub record Keyed (card : Option Bool) (p : Partition) (w w' : W) : Type 0 where
    pub dk : Bytes
    pub derived : W
    pub flag : Bool
    pub flagged : W
    pub made : W
    pub probed : W
    pub derives : derive pf otp ks ks.caam ks.dcp w ≡ (ok dk, derived)
    pub read_flag : is_programmed otp derived ≡ (ok flag, flagged)
    pub makes : Device.init pf card (ks.stretch dk) dummy_sector flag flagged ≡ (ok p, made)
    pub probes : probe pf otp ks p made ≡ (ok tt, probed)
    pub keyed : Programmed flag p probed w'

  -- An `init` that succeeds has derived the key, read the flag, made the partition with the derived
  -- key and probed its counter; then, if the flag was fused, it has done nothing more, and if it was
  -- not, it has fused the flag and after that programmed the key.
  pub init-Keyed :
      (card : Option Bool) (p : Partition) (w w' : W)
      → init pf otp ks card w ≡ (ok p, w')
      → Keyed card p w w'
  unfolding init
  init-Keyed card p w w' h = unbind (derive pf otp ks ks.caam ks.dcp) _ w h λ dk w1 e1 h1.
      unbind (require (is_some card) not_usdhc) _ w1 h1 λ _ w2 e2 h2.
        unbind (is_programmed otp) _ w2 h2 λ flag w3 e3 h3.
          unbind (or_fail (Device.init pf card (ks.stretch dk) dummy_sector flag) init_failed) _ w3
            h3
            λ q w4 e4 h4. unbind (probe pf otp ks q) _ w4 h4 λ _ w5 e5 h5.
              let (same, done) = program-Programmed flag q p w5 w' h5 in
              record {
                dk = dk;
                derived = w1;
                flag = flag;
                flagged = w3;
                made = w4;
                probed = w5;
                derives = e1;
                read_flag =
                    ap (is_programmed otp) (require-world (is_some card) not_usdhc w1 e2) ∙ e3;
                makes =
                    subst
                      (λ x. Device.init pf card (ks.stretch dk) dummy_sector flag w3 ≡ (ok x, w4))
                      same
                      (or_fail-eq-ok (Device.init pf card (ks.stretch dk) dummy_sector flag)
                        init_failed w3 e4);
                probes = subst (λ x. probe pf otp ks x w4 ≡ (ok tt, w5)) same e5;
                keyed = subst (λ x. Programmed flag x w5 w') same done;
              }
