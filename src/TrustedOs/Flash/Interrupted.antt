-- ===== src/TrustedOs/Flash/Interrupted.antt =====
-- An update of the applet that does not come through: what the next start reads
-- (`updateApplet`, `flashFirmware` and `read` of trusted_os/flash.go).
use armored_witness_os.Base.{
  ℕ, ◌+◌, ◌*◌, ◌≤◌, ◌≡◌, ◌∙◌, ◌⊎◌, inl, inr, sym, ap, Bytes, length, some, Result, ok, M,
}
use armored_witness_os.Disk.{Card, IsDisk, ReadsBack}
use armored_witness_os.TrustedOs.Firmware.{
  firmware_applet, Loaded, Bundle, ConfigCodec, ProofBundle, Slot, conf_block, elf_block, bundle_of,
  ota_limit,
}
use armored_witness_os.TrustedOs.Flash.{read, update}
use armored_witness_os.TrustedOs.Flash.Slots.{ConfFits, ElfInPlace}
use armored_witness_os.TrustedOs.Flash.Held.{IsCodec, held-read}
use armored_witness_os.TrustedOs.Flash.Stopped.{stopped-held}

module _ {W A : Type 0} (card : Card W) (disk : W → ℕ → ℕ) (is_disk : IsDisk card disk)
    (capacity : ℕ) (Good : W → Type 0) (reads : ReadsBack card disk capacity Good)
    (codec : ConfigCodec) (is_codec : IsCodec codec) (verify : Bundle → Result A)
    (loaded running unloaded : Loaded) (elf next_elf : Bytes) (pb next_pb : ProofBundle)
    (fits : length elf ≤ ota_limit) (next_fits : length next_elf ≤ ota_limit)
    (runs : running.applet_block ≡ elf_block firmware_applet loaded)
    (next_conf_fits : ConfFits card disk is_disk codec running firmware_applet next_elf next_pb
      next_fits) where
  abbrev next_applet : M W (Unit {0})
  next_applet = update codec running verify (some card) firmware_applet next_elf next_pb

  -- On a card that is a disk and reads back what it holds, with room for the config and the slot,
  -- with images within the OTA limit and configs whose encodings decode and fit before slot A:
  -- after an update of the applet that succeeds, and a second one, from the slot that the first
  -- one chose, that ends by success, an error or a halt at any point, a start that can read the
  -- applet reads the first bundle from that slot, or the verifier has accepted the second bundle
  -- and its whole image is in its slot.
  pub interrupted-read :
      (w w1 w2 w3 u v : W) (r : Result (Unit {0})) (found : Bundle × Loaded × Slot)
      → ConfFits card disk is_disk codec loaded firmware_applet elf pb fits
      → conf_block firmware_applet * 512 + codec.max_length ≤ capacity
      → elf_block firmware_applet loaded * 512 + ota_limit ≤ capacity
      → update codec loaded verify (some card) firmware_applet elf pb w ≡ (ok tt, w1)
      → ((a : ℕ) → disk w2 a ≡ disk w1 a)
      → next_applet w2 ≡ (r, w3)
      → ((a : ℕ) → disk u a ≡ disk w3 a)
      → Good u
      → read card codec unloaded u ≡ (ok found, v)
      → ((found.0 ≡ bundle_of elf pb) × (found.1.applet_block ≡ elf_block firmware_applet loaded))
        ⊎ ((a : A) × (verify (bundle_of next_elf next_pb) ≡ ok a)
            × ElfInPlace card disk is_disk codec running firmware_applet next_elf next_pb next_fits
                u)
  interrupted-read w w1 w2 w3 u v r found conf_fits room elf_room first between second after good
        k =
      let (b, encoded, cases) =
        stopped-held card disk is_disk codec verify firmware_applet loaded running elf next_elf pb
          next_pb fits next_fits conf_fits next_conf_fits runs w w1 w2 u first between
          (λ o. after o ∙ ap (λ q. disk q.1 o) (sym second)) in
      elim cases [
        | inl (conf_held, elf_held) ↦ inl (
            held-read card disk is_disk capacity Good reads codec is_codec loaded unloaded elf pb
              fits u v found b conf_fits room elf_room good encoded conf_held elf_held k)
        | inr held ↦ inr held
      ]
