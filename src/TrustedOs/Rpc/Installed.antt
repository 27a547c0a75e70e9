-- ===== src/TrustedOs/Rpc/Installed.antt =====
-- From the calls that install firmware to the next start: trusted_os/rpc.go and trusted_os/flash.go.
use armored_witness_os.Base.{
  ℕ, ◌≡◌, ◌≢◌, ◌∙◌, ◌*◌, ◌+◌, ◌≤◌, sym, ap, refl, subst, [], ◌∷◌, ◌++◌, Bytes, length, some, Result,
  ok, unbind, List, Keeps, keeps_rules,
}
use armored_witness_os.Disk.{Card, IsDisk, ReadsBack}
use armored_witness_os.TrustedOs.Firmware.{
  FirmwareType, firmware_applet, firmware_os, ConfigCodec, Loaded, Bundle, Slot, bundle_of,
  elf_block, conf_block, ota_limit,
}
use armored_witness_os.TrustedOs.Flash
use armored_witness_os.TrustedOs.Flash.{update, determine_loaded_os_block}
use armored_witness_os.TrustedOs.Flash.Slots.{ConfFits}
use armored_witness_os.TrustedOs.Flash.Held.{IsCodec}
use armored_witness_os.TrustedOs.Flash.Reload.{update-read, update-determine_loaded_os_block}
use armored_witness_os.TrustedOs.Flash.Parts.{update_parts}
use armored_witness_os.TrustedOs.Rpc.{
  Board, Receiver, FirmwareUpdate, buffer_of, extended, install, restart, reboot,
}
use armored_witness_os.TrustedOs.Rpc.Install.{is_closed}
use armored_witness_os.TrustedOs.Rpc.Attempts.{
  Call, after, attempt, attempt-last, calls_of, after-attempt,
}

-- The end of the applet and the reset of the device leave the disk as it is.
pub record IsBeside {W : Type 0} (board : Board W) (disk : W → ℕ → ℕ) : Type 0 where
  pub stops : (w : W) (a : ℕ) → disk (board.stop w).1 a ≡ disk w a
  pub awaits : (w : W) (a : ℕ) → disk (board.await_done w).1 a ≡ disk w a
  pub resets : (w : W) (a : ℕ) → disk (board.reset w).1 a ≡ disk w a

module _ {A W : Type 0} (board : Board W) (card : Card W) (disk : W → ℕ → ℕ)
    (beside : IsBeside board disk) (codec : ConfigCodec) (loaded : Loaded)
    (verify : FirmwareType → Bundle → Result A) where
  abbrev Same : (ℕ → ℕ) → W → Type 0
  Same f w = (a : ℕ) → disk w a ≡ f a

  stop-Keeps : (f : ℕ → ℕ) → Keeps (Same f) board.stop
  stop-Keeps f = record { at = λ w h a. beside.stops w a ∙ h a }

  await-Keeps : (f : ℕ → ℕ) → Keeps (Same f) board.await_done
  await-Keeps f = record { at = λ w h a. beside.awaits w a ∙ h a }

  reset-Keeps : (f : ℕ → ℕ) → Keeps (Same f) board.reset
  reset-Keeps f = record { at = λ w h a. beside.resets w a ∙ h a }

  restart-Keeps :
      (f : ℕ → ℕ) (t : FirmwareType)
      → Keeps (Same f) (restart board codec loaded (some card) verify t)
  unfolding restart reboot
  restart-Keeps f firmware_os = search (stop-Keeps, await-Keeps, reset-Keeps, keeps_rules)
  restart-Keeps f firmware_applet = search (stop-Keeps, reset-Keeps, keeps_rules)

  -- An installing call that succeeds has updated the storage with the buffer, and left the disk at that.
  updated :
      (t : FirmwareType) (b : FirmwareUpdate) (r r' : Receiver) (w w' : W)
      → length b.proof.checkpoint ≢ 0
      → install board codec loaded (some card) verify t b (r, w) ≡ (ok tt, (r', w'))
      → (x : W) × (update codec loaded
            (verify t)
            (some card)
            t
            (extended b (buffer_of t r))
            b.proof
            w
          ≡ (ok tt, x))
        × ((a : ℕ) → disk w' a ≡ disk x a)
  unfolding install
  updated t b r r' w w' closed h =
      let buffer = extended b (buffer_of t r) in
      let k = rw (is_closed board codec loaded (some card) verify t b closed) at h in
      unbind (update codec loaded (verify t) (some card) t buffer b.proof)
        (λ _. restart board codec loaded (some card) verify t) w (λ i. ((k i).0, (k i).1.1))
        λ _ x done rest. (
          x,
          done,
          λ a. ap (λ s. disk s.1 a) (sym rest) ∙ (restart-Keeps (disk x) t).at x (λ o. refl) a,
        )

  module _ (is_disk : IsDisk card disk) (capacity : ℕ) (Good : W → Type 0)
      (reads : ReadsBack card disk capacity Good) (is_codec : IsCodec codec) (unloaded : Loaded)
      (cs : List Call) (last : FirmwareUpdate) (s : Receiver × W) where
    -- What the calls for the applet have sent since the last call of sequence 0, behind what the buffer
    -- held if there was none.
    abbrev pub sent : Bytes
    sent = attempt (calls_of firmware_applet cs ++ (last ∷ [])) s.0.applet_firmware_buffer

    -- On a card that is a disk, reads back what it holds and has room for a config and a slot, beside a
    -- board whose reset leaves the disk as it is: take any calls for the OS and for the applet, in any
    -- order and whatever they returned, and then a call with a checkpoint for the applet that succeeds.
    -- What was sent are the images of the applet's calls from the last one of sequence 0 on, joined in
    -- order; where no call was of sequence 0, behind what the buffer held. If that is within otaLimit
    -- and the encoded config fits its room, a start that can read the applet gets it with the last
    -- call's proof, from the slot that the update chose, and the verifier has accepted that bundle.
    pub install-read :
        (fits : length sent ≤ ota_limit) (r' : Receiver) (w' v : W) (found : Bundle × Loaded × Slot)
        → length last.proof.checkpoint ≢ 0
        → ConfFits card disk is_disk codec loaded firmware_applet sent last.proof fits
        → conf_block firmware_applet * 512 + codec.max_length ≤ capacity
        → elf_block firmware_applet loaded * 512 + ota_limit ≤ capacity
        → Good w'
        → install board codec loaded
            (some card)
            verify
            firmware_applet
            last
            (after board codec loaded (some card) verify cs s)
          ≡ (ok tt, (r', w'))
        → Flash.read card codec unloaded w' ≡ (ok found, v)
        → (found.0 ≡ bundle_of sent last.proof)
          × (found.1.applet_block ≡ elf_block firmware_applet loaded)
          × (a : A) × (verify firmware_applet found.0 ≡ ok a)
    install-read fits r' w' v found closed conf_fits conf_room elf_room good h read =
        let s1 = after board codec loaded (some card) verify cs s in
        let (x, done, same) = updated firmware_applet last s1.0 r' s1.1 w' closed h in
        let joined =
          ap (extended last)
            (after-attempt board codec loaded (some card) verify firmware_applet cs s)
          ∙ sym (attempt-last last (calls_of firmware_applet cs) s.0.applet_firmware_buffer) in
        update-read card disk is_disk capacity Good reads codec is_codec loaded unloaded sent
          last.proof fits (verify firmware_applet) s1.1 x w' v found conf_fits conf_room elf_room
          good same
          (subst
            (λ b.
              update codec loaded (verify firmware_applet) (some card) firmware_applet b last.proof
                s1.1
              ≡ (ok tt, x))
            joined done)
          read

    -- What the calls for the OS have sent, likewise.
    abbrev pub sent_os : Bytes
    sent_os = attempt (calls_of firmware_os cs ++ (last ∷ [])) s.0.os_firmware_buffer

    -- On a card that is a disk, reads back what it holds and has room for a config, beside a board whose
    -- reset leaves the disk as it is: take any calls for the OS and for the applet, in any order and
    -- whatever they returned, and then a call with a checkpoint for the OS that succeeds. What was sent
    -- are the images of the OS's calls from the last one of sequence 0 on, joined in order; where no
    -- call was of sequence 0, behind what the buffer held. If that is within otaLimit and the encoded
    -- config fits its room, the verifier has accepted the bundle of what was sent with the last call's
    -- proof, a start that can determine the slot of the OS finds the one that the update chose, and
    -- then an update of the OS chooses the other.
    pub install-determine_loaded_os_block :
        (fits : length sent_os ≤ ota_limit) (r' : Receiver) (w' v : W) (found : Loaded × Slot)
        → length last.proof.checkpoint ≢ 0
        → ConfFits card disk is_disk codec loaded firmware_os sent_os last.proof fits
        → conf_block firmware_os * 512 + codec.max_length ≤ capacity
        → Good w'
        → install board codec loaded
            (some card)
            verify
            firmware_os
            last
            (after board codec loaded (some card) verify cs s)
          ≡ (ok tt, (r', w'))
        → determine_loaded_os_block card codec unloaded w' ≡ (ok found, v)
        → (a : A) × (verify firmware_os (bundle_of sent_os last.proof) ≡ ok a)
          × (found.0.os_block ≡ elf_block firmware_os loaded)
          × (elf_block firmware_os found.0 ≢ elf_block firmware_os loaded)
    install-determine_loaded_os_block fits r' w' v found closed conf_fits conf_room good h read =
        let s1 = after board codec loaded (some card) verify cs s in
        let (x, done, same) = updated firmware_os last s1.0 r' s1.1 w' closed h in
        let joined =
          ap (extended last) (after-attempt board codec loaded (some card) verify firmware_os cs s)
          ∙ sym (attempt-last last (calls_of firmware_os cs) s.0.os_firmware_buffer) in
        let written =
          subst
            (λ b.
              update codec loaded (verify firmware_os) (some card) firmware_os b last.proof s1.1
              ≡ (ok tt, x))
            joined done in
        let (a, accepted, _) =
          update_parts card codec loaded (verify firmware_os) firmware_os sent_os last.proof s1.1 x
            written in
        let (found_it, alternates) =
          update-determine_loaded_os_block card disk is_disk capacity Good reads codec is_codec
            loaded unloaded sent_os last.proof fits (verify firmware_os) s1.1 x w' v found conf_fits
            conf_room good same written read in
        (a, accepted, found_it, alternates)
