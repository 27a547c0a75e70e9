-- ===== src/TrustedOs/Flash/Parts.antt =====
-- The steps of a reading and of an update that succeed: `read` and `updateApplet` of
-- trusted_os/flash.go.
use armored_witness_os.Base.{
  ℕ, ◌/◌, ◌≡◌, ◌∙◌, sym, ap, Bytes, ok, some, ◌>>=◌, pure, lift, unbind, pure-eq, or_fail,
  or_fail-eq-ok, arith, config_unreadable, firmware_unreadable, Result,
}
use armored_witness_os.Disk.{Card}
use armored_witness_os.TrustedOs.Firmware.{
  FirmwareType, Loaded, Bundle, Config, ConfigCodec, ProofBundle, Slot, bundle_of,
  expected_block_size, ta_conf_block, os_conf_block,
}
use armored_witness_os.TrustedOs.Flash.{
  determine_loaded_os_block, checked_block_size, read_config, read, update, flash_firmware,
}

-- What a reading of the applet has read, and what it makes of it.
abbrev pub loaded_bundle : Config → Bytes → Bundle
loaded_bundle conf image = record {
  checkpoint = conf.bundle.checkpoint;
  index = conf.bundle.log_index;
  inclusion_proof = conf.bundle.inclusion_proof;
  manifest = conf.bundle.manifest;
  firmware = image;
}

module _ {W : Type 0} (card : Card W) (codec : ConfigCodec) where
  checked_block_size-world : (w : W) {n : ℕ} {v : W} → checked_block_size card w ≡ (ok n, v) → v ≡ w
  checked_block_size-world w h = ground arith

  size_checked :
      (w v : W) {u : Unit {0}} → (checked_block_size card >>= λ _. pure tt) w ≡ (ok u, v) → v ≡ w
  size_checked w v h =
      unbind (checked_block_size card) _ w h
        λ n x e k. sym (ap (λ r. r.1) k) ∙ checked_block_size-world w e

  pub read_parts :
      (unloaded : Loaded) (w v : W) (found : Bundle × Loaded × Slot)
      → read card codec unloaded w ≡ (ok found, v)
      → (conf : Config) × (x : W) × (image : Bytes) × (read_config card codec ta_conf_block w
          ≡ (ok conf, x))
        × (card.read conf.offset conf.size x ≡ (ok image, v))
        × (found.0 ≡ loaded_bundle conf image)
        × (found.1.applet_block ≡ conf.offset / expected_block_size)
  unfolding read
  read_parts unloaded w v found h =
      unbind (checked_block_size card >>= λ _. pure tt) _ w h λ _ w1 e1 h1.
        unbind (or_fail (read_config card codec ta_conf_block) config_unreadable) _ w1 h1
          λ conf x e2 h2.
            unbind (or_fail (card.read conf.offset conf.size) firmware_unreadable) _ x h2
              λ image y e3 h3. (
                conf,
                x,
                image,
                ap (read_config card codec ta_conf_block) (sym (size_checked w w1 e1))
                    ∙ or_fail-eq-ok (read_config card codec ta_conf_block) config_unreadable w1 e2,
                or_fail-eq-ok (card.read conf.offset conf.size) firmware_unreadable x e3
                    ∙ ap (λ t. (ok image, t)) (ap (λ r. r.1) h3),
                ap (λ f. f.0) (sym (pure-eq h3).0),
                ap (λ f. f.1.applet_block) (sym (pure-eq h3).0),
              )

  pub determine_parts :
      (unloaded : Loaded) (w v : W) (found : Loaded × Slot)
      → determine_loaded_os_block card codec unloaded w ≡ (ok found, v)
      → (conf : Config) × (x : W) × (read_config card codec os_conf_block w ≡ (ok conf, x))
        × (found.0.os_block ≡ conf.offset / expected_block_size)
  unfolding determine_loaded_os_block
  determine_parts unloaded w v found h =
      unbind (checked_block_size card >>= λ _. pure tt) _ w h λ _ w1 e1 h1.
        unbind (or_fail (read_config card codec os_conf_block) config_unreadable) _ w1 h1
          λ conf x e2 h2. (
            conf,
            x,
            ap (read_config card codec os_conf_block) (sym (size_checked w w1 e1))
                ∙ or_fail-eq-ok (read_config card codec os_conf_block) config_unreadable w1 e2,
            ap (λ f. f.0.os_block) (sym (pure-eq h2).0),
          )

  -- An update that succeeds has had the bundle verified and then flashed it.
  pub update_parts :
      {A : Type 0} (loaded : Loaded) (verify : Bundle → Result A) (t : FirmwareType) (elf : Bytes)
      (pb : ProofBundle) (w w' : W)
      → update codec loaded verify (some card) t elf pb w ≡ (ok tt, w')
      → (a : A) × (verify (bundle_of elf pb) ≡ ok a)
        × (flash_firmware codec loaded (some card) t elf pb w ≡ (ok tt, w'))
  unfolding update
  update_parts loaded verify t elf pb w w' h =
      unbind (lift (verify (bundle_of elf pb)) >>= λ _. pure tt) _ w h λ _ x e k.
        unbind (lift (verify (bundle_of elf pb))) _ w e λ a y e' k'. (
          a,
          ap (λ r. r.0) e',
          ap (flash_firmware codec loaded (some card) t elf pb)
                (ap (λ r. r.1) e' ∙ ap (λ r. r.1) k')
              ∙ k,
        )
