-- ===== src/TrustedOs/Flash/Stopped.antt =====
-- What an update keeps however it ends: `updateApplet`, `updateOS` and `flashFirmware` of
-- trusted_os/flash.go.
use armored_witness_os.Base.{
  ◌*◌, arith, ℕ, ◌≤◌, ◌≡◌, ◌∙◌, ◌⊎◌, inl, inr, refl, sym, ap, subst, true, Bytes, length, some,
  Result, ok, err, halt, M,
}
use armored_witness_os.Disk.{
  Card, IsDisk, overlay, overlay-inside, overlay_same, inside, inside_longer,
}
use armored_witness_os.TrustedOs.Firmware.{
  FirmwareType, Loaded, Bundle, ConfigCodec, ProofBundle, elf_block, bundle_of, ota_limit,
  conf_block,
}
use armored_witness_os.TrustedOs.Flash.{update, flash_firmware}
use armored_witness_os.TrustedOs.Flash.Loop.{padded}
use armored_witness_os.TrustedOs.Flash.Parts.{update_parts}
use armored_witness_os.TrustedOs.Flash.Slots.{
  running_block, block_a, block_b, ConfFits, HoldsElf, InConf, InSlot, elf_block-cases,
  running_slot_kept, unchanged_or_held, new_config, ElfInPlace, conf_room, slot_room,
  install-written, length-padded,
}

-- A string of bytes that a disk holds, another disk holds that has the same bytes there.
held_on :
    (off : ℕ) (bs : Bytes) (f g : ℕ → ℕ)
    → ((a : ℕ) → inside off (length (padded bs)) a ≡ true → g a ≡ f a)
    → ((a : ℕ) → overlay off (padded bs) f a ≡ f a)
    → (a : ℕ) → overlay off (padded bs) g a ≡ g a
held_on off bs f g same held =
    overlay_same off (padded bs) g
      (λ a here. same a here ∙ sym (held a) ∙ overlay-inside off (padded bs) f a here)

module _ {W A : Type 0} (card : Card W) (codec : ConfigCodec) (running : Loaded)
    (verify : Bundle → Result A) (t : FirmwareType) (elf : Bytes) (pb : ProofBundle) where
  -- An update whose bundle is rejected does nothing, and any other is the flashing of it.
  update-cases :
      (w : W) (q : Result A)
      → verify (bundle_of elf pb) ≡ q
      → ((update codec running verify (some card) t elf pb w).1 ≡ w)
        ⊎ ((a : A) × (verify (bundle_of elf pb) ≡ ok a)
            × ((update codec running verify (some card) t elf pb w).1
                ≡ (flash_firmware codec running (some card) t elf pb w).1))
  unfolding update
  update-cases w (ok a) e = inr (a, e, rw e refl)
  update-cases w (err x) e = inl (rw e refl)
  update-cases w halt e = inl (rw e refl)

module _ {W A : Type 0} (card : Card W) (disk : W → ℕ → ℕ) (is_disk : IsDisk card disk)
    (codec : ConfigCodec) (verify : Bundle → Result A) (t : FirmwareType) (loaded running : Loaded)
    (next_elf : Bytes) (next_pb : ProofBundle) (next_fits : length next_elf ≤ ota_limit)
    (next_conf_fits : ConfFits card disk is_disk codec running t next_elf next_pb next_fits) where
  abbrev next_update : M W (Unit {0})
  next_update = update codec running verify (some card) t next_elf next_pb

  -- The slot of the firmware that runs is kept.
  slot_kept :
      (runs : running_block t running ≡ elf_block t loaded) (w : W) (a : ℕ)
      → InSlot (elf_block t loaded) a
      → disk (next_update w).1 a ≡ disk w a
  slot_kept runs w a here =
      elim (update-cases card codec running verify t next_elf next_pb w _ refl) [
        | inl same ↦ ap (λ x. disk x a) same
        | inr (_, _, same) ↦
            ap (λ x. disk x a) same
            ∙ running_slot_kept card disk is_disk codec running t next_elf next_pb next_fits w a
                next_conf_fits
                (subst (λ b. (b ≡ block_a t) ⊎ (b ≡ block_b t)) (sym runs)
                  (elf_block-cases t loaded))
                (subst (λ b. InSlot b a) (sym runs) here)
      ]

  -- The config is kept, or the verifier has accepted the next firmware and it is in its slot.
  conf_kept :
      (w : W)
      → ((a : ℕ) → InConf t a → disk (next_update w).1 a ≡ disk w a)
        ⊎ ((a : A) × (verify (bundle_of next_elf next_pb) ≡ ok a)
            × HoldsElf card disk is_disk codec running t next_elf next_pb next_fits
                (next_update w).1)
  conf_kept w = elim (update-cases card codec running verify t next_elf next_pb w _ refl) [
    | inl same ↦ inl (λ a here. ap (λ x. disk x a) same)
    | inr (a, accepted, same) ↦
        elim (unchanged_or_held card disk is_disk codec running t next_elf next_pb next_fits w
          next_conf_fits) [
            | inl kept ↦ inl (λ o here. ap (λ x. disk x o) same ∙ kept o here)
            | inr held ↦ inr (a, accepted, λ o here. ap (λ x. disk x o) same ∙ held o here)
          ]
  ]

module _ {W A : Type 0} (card : Card W) (disk : W → ℕ → ℕ) (is_disk : IsDisk card disk)
    (codec : ConfigCodec) (verify : Bundle → Result A) (t : FirmwareType) (loaded running : Loaded)
    (elf next_elf : Bytes) (pb next_pb : ProofBundle) (fits : length elf ≤ ota_limit)
    (next_fits : length next_elf ≤ ota_limit)
    (conf_fits : ConfFits card disk is_disk codec loaded t elf pb fits)
    (next_conf_fits : ConfFits card disk is_disk codec running t next_elf next_pb next_fits)
    (runs : running_block t running ≡ elf_block t loaded) where
  -- After an update that succeeded and another one from its slot that has ended in any way, the config
  -- and the image of the first are still there, or the second was accepted and its image is there.
  pub stopped-held :
      (w w1 w2 u : W)
      → update codec loaded verify (some card) t elf pb w ≡ (ok tt, w1)
      → ((a : ℕ) → disk w2 a ≡ disk w1 a)
      → ((a : ℕ)
          → disk u a ≡ disk (update codec running verify (some card) t next_elf next_pb w2).1 a)
      → (b : Bytes) × (codec.encode (new_config card disk is_disk codec loaded t elf pb fits)
          ≡ ok b)
        × ((((a : ℕ) → overlay (conf_block t * 512) (padded b) (disk u) a ≡ disk u a)
              × ElfInPlace card disk is_disk codec loaded t elf pb fits u)
            ⊎ ((a : A) × (verify (bundle_of next_elf next_pb) ≡ ok a)
                × ElfInPlace card disk is_disk codec running t next_elf next_pb next_fits u))
  stopped-held w w1 w2 u first between after =
      let (_, _, done) = update_parts card codec loaded verify t elf pb w w1 first in
      let (b, encoded, elf_held, conf_held) =
        install-written card disk is_disk codec loaded t elf pb fits w w1 conf_fits done in
      (
        b,
        encoded,
        elim (conf_kept card disk is_disk codec verify t loaded running next_elf next_pb next_fits
            next_conf_fits w2) [
              | inl kept ↦ inl (
                held_on (conf_block t * 512) b (disk w1) (disk u)
                    (λ o here.
                      after o
                      ∙ kept o (
                          inside_longer _ (length (padded b)) conf_room o
                            (omega (arith, length-padded b, conf_fits b encoded)) here)
                      ∙ between o)
                    conf_held,
                held_on (elf_block t loaded * 512) elf (disk w1) (disk u)
                    (λ o here.
                      after o
                      ∙ slot_kept card disk is_disk codec verify t loaded running next_elf next_pb
                          next_fits next_conf_fits runs w2 o
                          (inside_longer _ (length (padded elf)) slot_room o
                            (omega (arith, length-padded elf)) here)
                      ∙ between o)
                    elf_held,
              )
              | inr (a, accepted, held) ↦ inr (
                a,
                accepted,
                overlay_same (elf_block t running * 512) (padded next_elf) (disk u)
                    (λ o here. after o ∙ held o here),
              )
            ],
      )
