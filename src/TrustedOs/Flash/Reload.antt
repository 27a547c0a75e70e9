-- ===== src/TrustedOs/Flash/Reload.antt =====
-- What is installed is what is loaded next: `updateApplet`, `updateOS`, `read` and
-- `determineLoadedOSBlock` of trusted_os/flash.go.
use armored_witness_os.Base.{
  ℕ, ◌+◌, ◌*◌, ◌/◌, ◌≤◌, ◌≡◌, ◌≢◌, ◌==◌, Bool-cases, inl, inr, ◌∙◌, ap, Bytes, length, ok, some,
  arith, Result,
}
use armored_witness_os.Disk.{Card, IsDisk, ReadsBack}
use armored_witness_os.TrustedOs.Firmware.{
  firmware_applet, firmware_os, os_block_a, Loaded, Bundle, ConfigCodec, ProofBundle, Slot,
  conf_block, elf_block, bundle_of, ota_limit, expected_block_size,
}
use armored_witness_os.TrustedOs.Flash.{read, determine_loaded_os_block, update}
use armored_witness_os.TrustedOs.Flash.Parts.{determine_parts, update_parts}
use armored_witness_os.TrustedOs.Flash.Slots.{ConfFits, install-written}
use armored_witness_os.TrustedOs.Flash.Held.{IsCodec, still_held, block_of, held-read, conf_read}

-- Where the slot written last is the one that is loaded, the next is the other.
slots_alternate :
    (l l' : Loaded)
    → l'.os_block ≡ elf_block firmware_os l
    → elf_block firmware_os l' ≢ elf_block firmware_os l
slots_alternate l l' same = elim (Bool-cases (l.os_block == os_block_a)) [
  | inl at_a ↦ λ e. ground (arith, rw (at_a) at same, rw (at_a) at e)
  | inr at_b ↦ λ e. ground (arith, rw (at_b) at same, rw (at_b) at e)
]

module _ {W : Type 0} (card : Card W) (disk : W → ℕ → ℕ) (is_disk : IsDisk card disk) (capacity : ℕ)
    (Good : W → Type 0) (reads : ReadsBack card disk capacity Good) where
  module _ (codec : ConfigCodec) (is_codec : IsCodec codec) (loaded unloaded : Loaded) (elf : Bytes)
      (pb : ProofBundle) (elf_fits : length elf ≤ ota_limit) where
    -- On a card that is a disk and reads back what it holds, with room for a config and a slot: after
    -- an update of the applet that succeeds, if the encoded config fits its room, a reading of the
    -- applet that succeeds while the disk is the same gives the very bundle that was sent, which the verifier has accepted, from
    -- the slot that the update chose.
    pub update-read :
        {A : Type 0} (verify : Bundle → Result A) (w w' u v : W) (found : Bundle × Loaded × Slot)
        → ConfFits card disk is_disk codec loaded firmware_applet elf pb elf_fits
        → conf_block firmware_applet * 512 + codec.max_length ≤ capacity
        → elf_block firmware_applet loaded * 512 + ota_limit ≤ capacity
        → Good u
        → ((a : ℕ) → disk u a ≡ disk w' a)
        → update codec loaded verify (some card) firmware_applet elf pb w ≡ (ok tt, w')
        → read card codec unloaded u ≡ (ok found, v)
        → (found.0 ≡ bundle_of elf pb)
          × (found.1.applet_block ≡ elf_block firmware_applet loaded)
          × (a : A) × (verify found.0 ≡ ok a)
    update-read verify w w' u v found conf_fits conf_room elf_room good unchanged h k =
        let (a, accepted, done) =
          update_parts card codec loaded verify firmware_applet elf pb w w' h in
        let (b, encoded, elf_held, conf_held) =
          install-written card disk is_disk codec loaded firmware_applet elf pb elf_fits w w'
            conf_fits done in
        let (bundle, block) =
          held-read card disk is_disk capacity Good reads codec is_codec loaded unloaded elf pb
            elf_fits u v found b conf_fits conf_room elf_room good encoded
            (still_held (conf_block firmware_applet * 512) b (disk w') (disk u) unchanged conf_held)
            (still_held (elf_block firmware_applet loaded * 512) elf (disk w') (disk u) unchanged
              elf_held)
            k in
        (bundle, block, a, ap verify bundle ∙ accepted)

    -- On a card that is a disk and reads back what it holds, with room for a config: after an update
    -- of the OS that succeeds, if the encoded config fits its room, a start on the same disk takes the slot that
    -- the update has written for the one that is loaded, if it can determine it, and then an update of
    -- the OS writes the other slot.
    pub update-determine_loaded_os_block :
        {A : Type 0} (verify : Bundle → Result A) (w w' u v : W) (found : Loaded × Slot)
        → ConfFits card disk is_disk codec loaded firmware_os elf pb elf_fits
        → conf_block firmware_os * 512 + codec.max_length ≤ capacity
        → Good u
        → ((a : ℕ) → disk u a ≡ disk w' a)
        → update codec loaded verify (some card) firmware_os elf pb w ≡ (ok tt, w')
        → determine_loaded_os_block card codec unloaded u ≡ (ok found, v)
        → (found.0.os_block ≡ elf_block firmware_os loaded)
          × (elf_block firmware_os found.0 ≢ elf_block firmware_os loaded)
    update-determine_loaded_os_block verify w w' u v found conf_fits conf_room good unchanged h k =
        let (_, _, done) = update_parts card codec loaded verify firmware_os elf pb w w' h in
        let (conf, x, conf_found, block) = determine_parts card codec unloaded u v found k in
        let (b, encoded, _, conf_held) =
          install-written card disk is_disk codec loaded firmware_os elf pb elf_fits w w' conf_fits
            done in
        let (named, _, _) =
          conf_read card disk is_disk capacity Good reads codec is_codec loaded firmware_os elf pb
            elf_fits conf_fits conf_room u x conf b good encoded
            (still_held (conf_block firmware_os * 512) b (disk w') (disk u) unchanged conf_held)
            conf_found in
        let same : found.0.os_block ≡ elf_block firmware_os loaded =
          block
          ∙ ap (λ c. c.offset / expected_block_size) named
          ∙ block_of (elf_block firmware_os loaded) in
        (same, λ e. slots_alternate loaded found.0 same e)
