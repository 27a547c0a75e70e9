-- ===== src/TrustedOs/Flash.antt =====
-- trusted_os/flash.go: loading, flashing and updating firmware in two slots, and the crash log.
-- The board's light, which blinks meanwhile, is left out.
pub mod Loop
pub mod Slots
pub mod CrashLog
pub mod Parts
pub mod Held
pub mod Reload
pub mod Stopped
pub mod Interrupted
pub mod InterruptedOs
use armored_witness_os.Base.{
  ℕ, zero, suc, ◌+◌, ◌-◌, ◌*◌, ◌/◌, Bool, true, false, not, List, [], ◌∷◌, ◌++◌, Bytes, length,
  take, drop, copy, replicate, ltb, leb, ◌==◌, if◌then◌else◌, Option, none, some, Result, ok, err,
  halt, M, ◌>>=◌, ◌>>◌, pure, fail, lift, require, or_fail, block_size_mismatch, config_unreadable,
  firmware_unreadable, missing_storage, flashing_failed, config_flashing_failed,
}
use armored_witness_os.Disk.{Card, CardInfo}
use armored_witness_os.TrustedOs.Firmware.{
  expected_block_size, batch_size, os_conf_block, ta_conf_block, os_block_a, os_block_b, ta_block_a,
  ta_block_b, crash_log_block, crash_log_num_blocks, FirmwareType, ProofBundle, Bundle, Config,
  ConfigCodec, Loaded, Slot, slot_of, conf_block, elf_block, bundle_of,
}
use mathlib.Core.Option

-- The next chunk that `flash` writes, and what it leaves of the buffer.
unfoldable pub chunk_of : ℕ → Bytes → Bytes
chunk_of block_size buf =
    if leb (block_size * batch_size) (length buf)
    then take (block_size * batch_size) buf
    else copy (replicate ((length buf / block_size + 1) * block_size) 0) buf

unfoldable pub rest_of : ℕ → Bytes → Bytes
rest_of block_size buf =
    if leb (block_size * batch_size) (length buf) then drop (block_size * batch_size) buf else []

module _ {W : Type 0} (card : Card W) where
  abbrev block_size : W → ℕ
  block_size w = (card.info w).block_size

  -- `blockSize := card.Info().BlockSize` and its check
  abbrev pub checked_block_size : M W ℕ
  checked_block_size w =
      if block_size w == expected_block_size
      then (ok (block_size w), w)
      else (err block_size_mismatch, w)

  -- The loop of `flash`, on fuel. It ends when the buffer is empty.
  unfoldable pub flash_loop : ℕ → ℕ → ℕ → ℕ → Bytes → M W (Unit {0})
  flash_loop fuel block_size lba blocks [] = pure tt
  flash_loop zero block_size lba blocks (b ∷ bs) = λ w. (halt, w)
  flash_loop (suc fuel) block_size lba blocks (b ∷ bs) =
      card.write_blocks (lba + blocks) (chunk_of block_size (b ∷ bs)) >>= λ _.
      flash_loop fuel block_size lba (blocks + length (chunk_of block_size (b ∷ bs)) / block_size)
        (rest_of block_size (b ∷ bs))

  -- `flash`: each round takes at least one byte, so the buffer's length is fuel enough.
  unfoldable pub flash : Bytes → ℕ → M W (Unit {0})
  flash buf lba = checked_block_size >>= λ block_size. flash_loop (length buf) block_size lba 0 buf

  -- `readConfig`
  unfoldable pub read_config : ConfigCodec → ℕ → M W Config
  read_config codec block = do
    buf ← card.read (block * expected_block_size) codec.max_length
    lift (codec.decode buf)

  -- `determineLoadedOSBlock`, with the slot that is logged
  unfoldable pub determine_loaded_os_block : ConfigCodec → Loaded → M W (Loaded × Slot)
  determine_loaded_os_block codec loaded = do
    checked_block_size >>= λ _. pure tt
    conf ← or_fail (read_config codec os_conf_block) config_unreadable
    let block = conf.offset / expected_block_size
    pure (record loaded { os_block = block }, slot_of os_block_a os_block_b block)

  -- `read`
  unfoldable pub read : ConfigCodec → Loaded → M W (Bundle × Loaded × Slot)
  read codec loaded = do
    checked_block_size >>= λ _. pure tt
    conf ← or_fail (read_config codec ta_conf_block) config_unreadable
    image ← or_fail (card.read conf.offset conf.size) firmware_unreadable
    let block = conf.offset / expected_block_size
    let bundle : Bundle = record {
      checkpoint = conf.bundle.checkpoint;
      index = conf.bundle.log_index;
      inclusion_proof = conf.bundle.inclusion_proof;
      manifest = conf.bundle.manifest;
      firmware = image;
    }
    pure (bundle, record loaded { applet_block = block }, slot_of ta_block_a ta_block_b block)

-- `flashFirmware`; the storage is `none` for nil.
module _ {W : Type 0} (codec : ConfigCodec) (loaded : Loaded) where
  unfoldable pub flash_firmware :
      Option (Card W) → FirmwareType → Bytes → ProofBundle → M W (Unit {0})
  flash_firmware none t elf pb = fail missing_storage
  flash_firmware (some card) t elf pb = do
    encoded ← lift (
        codec.encode (record {
          size = length elf;
          offset = elf_block t loaded * expected_block_size;
          bundle = pb;
        }))
    or_fail (flash card elf (elf_block t loaded)) flashing_failed
    or_fail (flash card encoded (conf_block t)) config_flashing_failed

  -- `updateApplet` and `updateOS`, each with its verifier
  unfoldable pub update :
      {A : Type 0}
      → (Bundle → Result A)
      → Option (Card W)
      → FirmwareType
      → Bytes
      → ProofBundle
      → M W (Unit {0})
  update verify storage t elf pb = do
    lift (verify (bundle_of elf pb)) >>= λ _. pure tt
    flash_firmware storage t elf pb

-- The crash log, at most `max_log_size` bytes long.
abbrev pub max_log_size : ℕ
max_log_size = crash_log_num_blocks * expected_block_size

-- The last bytes of a log that is too long, and zeros behind one that is too short.
unfoldable pub fit_log : ℕ → Bytes → Bytes
fit_log max l =
    if ltb max (length l)
    then drop (length l - max) l
    else if ltb (length l) max
    then l ++ replicate (max - length l) 0
    else l

-- `bytes.IndexByte(r, 0)`
unfoldable pub index_zero : Bytes → Option ℕ
index_zero [] = none
index_zero (b ∷ bs) = if b == 0 then some 0 else Option.map suc (index_zero bs)

-- A zero at the front does not end the log.
unfoldable pub trim_log : Bytes → Bytes
unfolding index_zero
trim_log r = elim (index_zero r) [ none ↦ r | some p ↦ if ltb 0 p then take p r else r ]

module _ {W : Type 0} (card : Card W) where
  unfoldable pub store_applet_crash_log : Bytes → M W (Unit {0})
  store_applet_crash_log l = card.write_blocks crash_log_block (fit_log max_log_size l)

  unfoldable pub retrieve_last_crash_log : M W Bytes
  retrieve_last_crash_log = do
    r ← card.read (crash_log_block * expected_block_size) max_log_size
    pure (trim_log r)
