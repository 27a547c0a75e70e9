-- ===== src/TrustedOs/FakeCard.antt =====
-- trusted_os/storage_debug.go: the storage of emulated builds, a map from sectors to their bytes.
pub mod Laws
use armored_witness_os.Base.{
  ℕ, zero, suc, ◌+◌, ◌-◌, ◌*◌, ◌/◌, ◌%◌, ◌≤◌, ◌≡◌, Bool, true, false, not, [], ◌∷◌, ◌++◌, Bytes,
  length, take, drop, copy, replicate, ltb, leb, ◌==◌, if◌then◌else◌, Result, ok, err, halt, M,
  offset_past_end, lba_past_end,
}
use armored_witness_os.Disk.{Card, CardInfo, byte_of}

abbrev pub fake_card_block_size : ℕ
fake_card_block_size = 512

-- 4 GiB in blocks
abbrev pub fake_card_num_blocks : ℕ
fake_card_num_blocks = 8388608

-- A sector that is not in the map is nil.
pub record FakeCard : Type 0 where
  pub info : CardInfo
  pub mem : ℕ → Bytes

-- `newFakeCard`
abbrev pub new_fake_card : ℕ → FakeCard
new_fake_card num_blocks = record {
  info = record { mmc = false; block_size = fake_card_block_size; blocks = num_blocks };
  mem = λ sector. [];
}

-- `storage` of an emulated build, or of the board.
abbrev pub storage : {C : Type 0} → Bool → C → (ℕ → C) → C
storage native mmc emulated = if native then mmc else emulated fake_card_num_blocks

-- The loop of `Read` over `r[i*fakeCardBlockSize:]`, with the bytes that remain; each round takes one
-- sector, so `rem` is fuel enough.
unfoldable pub read_loop : ℕ → ℕ → (ℕ → Bytes) → ℕ → Bytes → Bytes
read_loop zero rem mem sector r = r
read_loop (suc fuel) rem mem sector r =
    let copied = copy r (mem sector) in
    let rest = read_loop fuel (rem - 512) mem (sector + 1) (drop 512 copied) in
    if rem == 0 then r else take 512 copied ++ rest

-- `Read`, clipped at the end of the storage; an offset within a sector is a panic.
unfoldable pub read : ℕ → ℕ → M FakeCard Bytes
read offset size fc =
    let l = fake_card_num_blocks * fake_card_block_size in
    let clipped = if ltb l (offset + size) then l - offset else size in
    if leb l offset
    then (err offset_past_end, fc)
    else if not (offset % fake_card_block_size == 0)
    then (halt, fc)
    else (
      ok (read_loop clipped clipped fc.mem (offset / fake_card_block_size) (replicate clipped 0)),
      fc,
    )

-- `fc.mem[sector] = buf`
abbrev pub set_sector : ℕ → Bytes → (ℕ → Bytes) → ℕ → Bytes
set_sector sector buf mem s = if s == sector then buf else mem s

-- The loop of `WriteBlocks`, on the bytes that remain; their number is fuel enough.
unfoldable pub write_loop : ℕ → Bytes → ℕ → (ℕ → Bytes) → ℕ → Bytes
write_loop fuel [] sector mem = mem
write_loop zero (x ∷ xs) sector mem = mem
write_loop (suc fuel) (x ∷ xs) sector mem =
    write_loop fuel (drop 512 (x ∷ xs)) (sector + 1)
      (set_sector sector (copy (replicate 512 0) (x ∷ xs)) mem)

-- The bytes padded to whole sectors.
unfoldable pub pad_to_sector : Bytes → Bytes
pad_to_sector b =
    if length b % fake_card_block_size == 0
    then b
    else b ++ replicate (fake_card_block_size - length b % fake_card_block_size) 0

-- `WriteBlocks`
unfoldable pub write_blocks : ℕ → Bytes → M FakeCard (Unit {0})
write_blocks lba b fc =
    if leb fake_card_num_blocks lba
    then (err lba_past_end, fc)
    else (let padded = pad_to_sector b in
        (ok tt, record fc { mem = write_loop (length padded) padded lba fc.mem }))

-- The fake card as the OS's `Card`; `Detect` only logs.
abbrev pub fake_card : Card FakeCard
fake_card = record {
  read = read;
  write_blocks = write_blocks;
  info = λ fc. fc.info;
  detect = λ fc. (ok tt, fc);
}

-- Its bytes.
abbrev pub bytes_of : FakeCard → ℕ → ℕ
bytes_of fc a = byte_of (fc.mem (a / 512)) (a % 512)

-- No sector is longer than a block.
abbrev pub IsBlocks : FakeCard → Type 0
IsBlocks fc = (sector : ℕ) → length (fc.mem sector) ≤ 512
