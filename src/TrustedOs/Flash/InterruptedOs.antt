-- ===== src/TrustedOs/Flash/InterruptedOs.antt =====
-- An update of the OS that does not come through: what the next start determines (`updateOS`,
-- `flashFirmware` and `determineLoadedOSBlock` of trusted_os/flash.go).
use armored_witness_os.Base.{
  ℕ, ◌+◌, ◌*◌, ◌/◌, ◌≤◌, ◌≡◌, ◌∙◌, ◌⊎◌, inl, inr, sym, ap, length, Bytes, some, Result, ok, M,
}
use armored_witness_os.Disk.{Card, IsDisk, ReadsBack}
use armored_witness_os.TrustedOs.Firmware.{
  firmware_os, Loaded, Bundle, ConfigCodec, ProofBundle, Slot, conf_block, elf_block, bundle_of,
  ota_limit, expected_block_size,
}
use armored_witness_os.TrustedOs.Flash.{determine_loaded_os_block, update}
use armored_witness_os.TrustedOs.Flash.Parts.{determine_parts}
use armored_witness_os.TrustedOs.Flash.Slots.{ConfFits, ElfInPlace}
use armored_witness_os.TrustedOs.Flash.Held.{IsCodec, block_of, conf_read}
use armored_witness_os.TrustedOs.Flash.Stopped.{stopped-held}

module _ {W A : Type 0} (card : Card W) (disk : W → ℕ → ℕ) (is_disk : IsDisk card disk)
    (capacity : ℕ) (Good : W → Type 0) (reads : ReadsBack card disk capacity Good)
    (codec : ConfigCodec) (is_codec : IsCodec codec) (verify : Bundle → Result A)
    (loaded running unloaded : Loaded) (elf next_elf : Bytes) (pb next_pb : ProofBundle)
    (fits : length elf ≤ ota_limit) (next_fits : length next_elf ≤ ota_limit)
    (runs : running.os_block ≡ elf_block firmware_os loaded)
    (next_conf_fits : ConfFits card disk is_disk codec running firmware_os next_elf next_pb
      next_fits) where
  abbrev next_os : M W (Unit {0})
  next_os = update codec running verify (some card) firmware_os next_elf next_pb

  -- On a card that is a disk and reads back what it holds, with room for the config, with images
  -- within the OTA limit and configs whose encodings decode and fit before slot A: after an update
  -- of the OS that succeeds, and a second one, from the slot that the first one chose, that ends
  -- by success, an error or a halt at any point, a start that can determine the loaded slot finds
  -- that slot and the first image is whole in it, or the verifier has accepted the second bundle
  -- and its whole image is in its slot.
  pub interrupted-determine_loaded_os_block :
      (w w1 w2 w3 u v : W) (r : Result (Unit {0})) (found : Loaded × Slot)
      → ConfFits card disk is_disk codec loaded firmware_os elf pb fits
      → conf_block firmware_os * 512 + codec.max_length ≤ capacity
      → update codec loaded verify (some card) firmware_os elf pb w ≡ (ok tt, w1)
      → ((a : ℕ) → disk w2 a ≡ disk w1 a)
      → next_os w2 ≡ (r, w3)
      → ((a : ℕ) → disk u a ≡ disk w3 a)
      → Good u
      → determine_loaded_os_block card codec unloaded u ≡ (ok found, v)
      → ((found.0.os_block ≡ elf_block firmware_os loaded)
          × ElfInPlace card disk is_disk codec loaded firmware_os elf pb fits u)
        ⊎ ((a : A) × (verify (bundle_of next_elf next_pb) ≡ ok a)
            × ElfInPlace card disk is_disk codec running firmware_os next_elf next_pb next_fits u)
  interrupted-determine_loaded_os_block w w1 w2 w3 u v r found conf_fits room first between second
        after good k =
      let (b, encoded, cases) =
        stopped-held card disk is_disk codec verify firmware_os loaded running elf next_elf pb
          next_pb fits next_fits conf_fits next_conf_fits runs w w1 w2 u first between
          (λ o. after o ∙ ap (λ q. disk q.1 o) (sym second)) in
      elim cases [
        | inl (conf_held, elf_held) ↦
            let (conf, x, conf_found, block) = determine_parts card codec unloaded u v found k in
            let (named, _, _) =
              conf_read card disk is_disk capacity Good reads codec is_codec loaded firmware_os elf
                pb fits conf_fits room u x conf b good encoded conf_held conf_found in
            inl (
              block
                  ∙ ap (λ c. c.offset / expected_block_size) named
                  ∙ block_of (elf_block firmware_os loaded),
              elf_held,
            )
        | inr held ↦ inr held
      ]
