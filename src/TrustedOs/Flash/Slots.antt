-- ===== src/TrustedOs/Flash/Slots.antt =====
-- Updates and the two slots (`flashFirmware` of trusted_os/flash.go): which bytes an update may
-- touch, in which order, and what it leaves when it succeeds.

use armored_witness_os.Base.{
  ℕ, ◌+◌, ◌-◌, ◌*◌, ◌≤◌, ◌≡◌, ◌∙◌, ◌⊎◌, inl, inr, refl, sym, ap, true, false, Bytes, length,
  length-append, length-replicate, replicate, Result, M, ok, some, next, next-keeps, unbind, lift,
  or_fail, or_fail-world, or_fail-eq-ok, lift-keeps, next-cases, arith, flashing_failed,
  config_flashing_failed,
}
use armored_witness_os.Disk.{
  Card, IsDisk, overlay, overlay-inside, within, within_same, overlay_same, inside, inside_shorter,
  inside_longer, byte_of,
}
use armored_witness_os.TrustedOs.Firmware.{
  FirmwareType, firmware_applet, firmware_os, Loaded, Config, ConfigCodec, ProofBundle, elf_block,
  conf_block, ota_limit, expected_block_size, ta_block_a, ta_block_b, os_block_a, os_block_b,
}
use armored_witness_os.TrustedOs.Flash.{flash, flash_firmware}
use armored_witness_os.TrustedOs.Flash.Loop.{padded, padding, flash-written, flash-confined}

-- The room for a config: the blocks from it to slot A.
abbrev pub conf_room : ℕ
conf_room = 80 * 512

-- The block that the firmware of a type was loaded from, and its two slots.
abbrev pub running_block : FirmwareType → Loaded → ℕ
running_block firmware_applet l = l.applet_block
running_block firmware_os l = l.os_block

abbrev pub block_a : FirmwareType → ℕ
block_a firmware_applet = ta_block_a
block_a firmware_os = os_block_a

abbrev pub block_b : FirmwareType → ℕ
block_b firmware_applet = ta_block_b
block_b firmware_os = os_block_b

pub padding-le : (n : ℕ) → padding n ≤ 512
unfolding padding
padding-le n = ground arith

pub length-padded : (buf : Bytes) → length (padded buf) ≤ length buf + 512
length-padded buf = omega (
  arith,
  length-append buf (replicate (padding (length buf)) 0),
  length-replicate {0} {A = ℕ} (padding (length buf)) 0,
  padding-le (length buf),
)

-- What an update may fill: a config and the zeros behind it, a firmware and the zeros behind it.
abbrev pub InConf : FirmwareType → ℕ → Type 0
InConf t a = inside (conf_block t * 512) conf_room a ≡ true

abbrev pub slot_room : ℕ
slot_room = ota_limit + 512

abbrev pub InSlot : ℕ → ℕ → Type 0
InSlot block a = inside (block * 512) slot_room a ≡ true

pub elf_block-cases :
    (t : FirmwareType) (l : Loaded) → (elf_block t l ≡ block_a t) ⊎ (elf_block t l ≡ block_b t)
elf_block-cases firmware_applet l = ground arith
elf_block-cases firmware_os l = ground arith

conf_apart :
    (t : FirmwareType) (block a : ℕ)
    → (block ≡ block_a t) ⊎ (block ≡ block_b t)
    → InConf t a
    → inside (block * 512) slot_room a ≡ false
conf_apart firmware_applet block a h c = ground arith
conf_apart firmware_os block a h c = ground arith

slot_apart :
    (t : FirmwareType) (block a : ℕ)
    → (block ≡ block_a t) ⊎ (block ≡ block_b t)
    → InSlot block a
    → inside (conf_block t * 512) conf_room a ≡ false
slot_apart firmware_applet block a h c = ground arith
slot_apart firmware_os block a h c = ground arith

-- An update goes to the slot that is not running.
other_slot :
    (t : FirmwareType) (l : Loaded) (a : ℕ)
    → (running_block t l ≡ block_a t) ⊎ (running_block t l ≡ block_b t)
    → InSlot (running_block t l) a
    → inside (elf_block t l * 512) slot_room a ≡ false
other_slot firmware_applet l a h c = ground arith
other_slot firmware_os l a h c = ground arith

module _ {W : Type 0} (card : Card W) (disk : W → ℕ → ℕ) (is_disk : IsDisk card disk)
    (codec : ConfigCodec) (loaded : Loaded) (t : FirmwareType) (elf : Bytes) (pb : ProofBundle)
    (elf_fits : length elf ≤ ota_limit) where
  abbrev pub new_config : Config
  new_config = record {
    size = length elf;
    offset = elf_block t loaded * expected_block_size;
    bundle = pb;
  }

  abbrev pub ConfFits : Type 0
  ConfFits = (b : Bytes) → codec.encode new_config ≡ ok b → length b + 512 ≤ conf_room

  abbrev pub install : W → Result (Unit {0}) × W
  install = flash_firmware codec loaded (some card) t elf pb

  abbrev write_conf : Bytes → M W (Unit {0})
  write_conf b = or_fail (flash card b (conf_block t)) config_flashing_failed

  outside_elf :
      (w : W) (a : ℕ)
      → inside (elf_block t loaded * 512) slot_room a ≡ false
      → disk (or_fail (flash card elf (elf_block t loaded)) flashing_failed w).1 a ≡ disk w a
  outside_elf w a h =
      ap (λ s. disk s a) (or_fail-world (flash card elf (elf_block t loaded)) flashing_failed w)
      ∙ flash-confined card disk is_disk elf (elf_block t loaded) w a (
          inside_shorter _ (length (padded elf)) slot_room a
            (omega (arith, length-padded elf, elf_fits)) h)

  outside_conf :
      (b : Bytes) (w : W) (a : ℕ)
      → length b + 512 ≤ conf_room
      → inside (conf_block t * 512) conf_room a ≡ false
      → disk (or_fail (flash card b (conf_block t)) config_flashing_failed w).1 a ≡ disk w a
  outside_conf b w a fits h =
      ap (λ s. disk s a) (or_fail-world (flash card b (conf_block t)) config_flashing_failed w)
      ∙ flash-confined card disk is_disk b (conf_block t) w a
          (inside_shorter _ (length (padded b)) conf_room a (omega (arith, length-padded b)) h)

  -- However an update ends, it touches nothing but the room of its config and the slot it writes.
  install-confined :
      (w : W) (a : ℕ)
      → ConfFits
      → inside (conf_block t * 512) conf_room a ≡ false
      → inside (elf_block t loaded * 512) slot_room a ≡ false
      → disk (install w).1 a ≡ disk w a
  unfolding flash_firmware
  install-confined w a fits conf_out elf_out =
      lift-keeps (λ s. disk s a ≡ disk w a) _ (codec.encode new_config) w refl
        λ b e.
          next-keeps (λ s. disk s a ≡ disk w a) _
            (or_fail (flash card elf (elf_block t loaded)) flashing_failed w)
            (outside_elf w a elf_out) λ _ v same. outside_conf b v a (fits b e) conf_out ∙ same

  -- On a card that is a disk, however an update of the applet or of the OS ends, by success, an
  -- error or a halt in the middle of a write, the slot that the running firmware was loaded from
  -- is as it was, if that is slot A or B, the new image is within the OTA limit and the encoded
  -- config within the room before slot A.
  pub running_slot_kept :
      (w : W) (a : ℕ)
      → ConfFits
      → (running_block t loaded ≡ block_a t) ⊎ (running_block t loaded ≡ block_b t)
      → InSlot (running_block t loaded) a
      → disk (install w).1 a ≡ disk w a
  running_slot_kept w a fits running here =
      install-confined w a fits (slot_apart t (running_block t loaded) a running here)
        (other_slot t loaded a running here)

  -- The new firmware is in place, byte for byte.
  abbrev pub HoldsElf : W → Type 0
  HoldsElf v =
      (a : ℕ)
      → inside (elf_block t loaded * 512) (length (padded elf)) a ≡ true
      → disk v a ≡ byte_of (padded elf) (a - elf_block t loaded * 512)

  elf_then_conf :
      (b : Bytes) (w v : W)
      → length b + 512 ≤ conf_room
      → flash card elf (elf_block t loaded) w ≡ (ok tt, v)
      → HoldsElf (or_fail (flash card b (conf_block t)) config_flashing_failed v).1
  elf_then_conf b w v fits e a h =
      outside_conf b v a fits (
        slot_apart t (elf_block t loaded) a (elf_block-cases t loaded) (
          inside_longer _ (length (padded elf)) slot_room a
            (omega (arith, length-padded elf, elf_fits)) h))
      ∙ flash-written card disk is_disk elf (elf_block t loaded) w v e a
      ∙ overlay-inside (elf_block t loaded * 512) (padded elf) (disk w) a h

  pub unchanged_or_held :
      (w : W)
      → ConfFits
      → ((a : ℕ) → InConf t a → disk (install w).1 a ≡ disk w a) ⊎ HoldsElf (install w).1
  unfolding flash_firmware
  unchanged_or_held w fits =
      lift-keeps (λ s. ((a : ℕ) → InConf t a → disk s a ≡ disk w a) ⊎ HoldsElf s) _
        (codec.encode new_config) w (inl (λ a h. refl))
        λ b e. elim (next-cases (or_fail (flash card elf (elf_block t loaded)) flashing_failed w)) [
          | inl (_, v, done) ↦ inr λ a h.
              ap (λ r. disk (next (λ _. write_conf b) r).1 a) done
              ∙ elf_then_conf b w v (fits b e)
                  (or_fail-eq-ok (flash card elf (elf_block t loaded)) flashing_failed w done) a h
          | inr stopped ↦ inl λ a h.
              ap (λ s. disk s a) (stopped (Unit {0}) (λ _. write_conf b))
              ∙ outside_elf w a (conf_apart t (elf_block t loaded) a (elf_block-cases t loaded) h)
        ]

  install-held :
      (w w' : W)
      → ConfFits
      → install w ≡ (ok tt, w')
      → (b : Bytes) × (codec.encode new_config ≡ ok b)
        × HoldsElf w'
        × ((a : ℕ)
            → inside (conf_block t * 512) (length (padded b)) a ≡ true
            → disk w' a ≡ byte_of (padded b) (a - conf_block t * 512))
  unfolding flash_firmware
  install-held w w' fits h = unbind (lift (codec.encode new_config)) _ w h λ b w1 e1 h1.
      unbind (or_fail (flash card elf (elf_block t loaded)) flashing_failed) _ w1 h1 λ _ v e2 h2.
        let encoded = ap (λ r. r.0) e1 in
        (
          b,
          encoded,
          λ a here.
              ap (λ r. disk r.1 a) (sym h2)
              ∙ elf_then_conf b w1 v (fits b encoded)
                  (or_fail-eq-ok (flash card elf (elf_block t loaded)) flashing_failed w1 e2) a
                  here,
          λ a here.
              flash-written card disk is_disk b (conf_block t) v w'
                (or_fail-eq-ok (flash card b (conf_block t)) config_flashing_failed v h2) a
              ∙ overlay-inside (conf_block t * 512) (padded b) (disk v) a here,
        )

  -- Writing the image, with its padding, to its slot again would change nothing.
  abbrev pub ElfInPlace : W → Type 0
  ElfInPlace v = (a : ℕ) → overlay (elf_block t loaded * 512) (padded elf) (disk v) a ≡ disk v a

  -- On a card that is a disk, however an update ends, either no byte of the config's room has
  -- changed or the whole new firmware is in its slot, if the image is within the OTA limit and the
  -- encoded config within the room before slot A.
  pub config_last :
      (w : W)
      → ConfFits
      → ((a : ℕ)
          → within (conf_block t * 512) conf_room (disk (install w).1) a
            ≡ within (conf_block t * 512) conf_room (disk w) a)
        ⊎ ElfInPlace (install w).1
  config_last w fits = elim (unchanged_or_held w fits) [
    | inl same ↦ inl (within_same (conf_block t * 512) conf_room (disk (install w).1) (disk w) same)
    | inr held ↦
        inr (overlay_same (elf_block t loaded * 512) (padded elf) (disk (install w).1) held)
  ]

  -- On a card that is a disk, an update that succeeds leaves the new firmware in its slot, and at
  -- the config's blocks an encoding of the config that names the slot, the size and the proofs, if
  -- the image is within the OTA limit and the encoded config within the room before slot A.
  pub install-written :
      (w w' : W)
      → ConfFits
      → install w ≡ (ok tt, w')
      → (b : Bytes) × (codec.encode new_config ≡ ok b)
        × ElfInPlace w'
        × ((a : ℕ) → overlay (conf_block t * 512) (padded b) (disk w') a ≡ disk w' a)
  install-written w w' fits h =
      let (b, encoded, held, conf_held) = install-held w w' fits h in
      (
        b,
        encoded,
        overlay_same (elf_block t loaded * 512) (padded elf) (disk w') held,
        overlay_same (conf_block t * 512) (padded b) (disk w') conf_held,
      )
