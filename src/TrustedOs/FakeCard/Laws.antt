-- ===== src/TrustedOs/FakeCard/Laws.antt =====
-- The fake card is a disk.
use armored_witness_os.Base.{
  ℕ, zero, suc, ◌+◌, ◌-◌, ◌*◌, ◌/◌, ◌%◌, ◌≤◌, ◌≡◌, ◌∙◌, sym, ap, true, false, [], ◌∷◌, Bytes,
  length, take, drop, copy, replicate, length-drop, length-take, take-append-drop,
  copy-replicate_long, leb, fun_ext, err, lba_past_end, arith, Bool-cases, inl, inr,
}
use armored_witness_os.Disk.{IsDisk, overlay, overlay_nil, overlay-outside, overlay-append, byte_of}
use armored_witness_os.TrustedOs.FakeCard.{
  FakeCard, write_loop, write_blocks, set_sector, read, fake_card, bytes_of, pad_to_sector,
  fake_card_num_blocks,
}

abbrev bytes_in : (ℕ → Bytes) → ℕ → ℕ
bytes_in mem a = byte_of (mem (a / 512)) (a % 512)

-- One sector that is written.
set_sector-overlay :
    (sector : ℕ) (buf : Bytes) (mem : ℕ → Bytes) (a : ℕ)
    → length buf ≡ 512
    → bytes_in (set_sector sector buf mem) a ≡ overlay (sector * 512) buf (bytes_in mem) a
unfolding overlay
set_sector-overlay sector buf mem a h =
    ground (arith, ap (byte_of buf) {x = a % 512} {y = a - sector * 512})

next_sector : (sector n : ℕ) → n ≡ 512 → (sector + 1) * 512 ≡ sector * 512 + n
next_sector sector n h = omega arith

write_loop-overlay :
    (fuel : ℕ) (b : Bytes) (sector : ℕ) (mem : ℕ → Bytes) (a : ℕ)
    → length b ≤ fuel
    → length b % 512 ≡ 0
    → bytes_in (write_loop fuel b sector mem) a ≡ overlay (sector * 512) b (bytes_in mem) a
unfolding write_loop
write_loop-overlay fuel [] sector mem a h whole = sym (overlay_nil (sector * 512) _ a)
write_loop-overlay zero (x ∷ xs) sector mem a h whole = absurd (omega arith)
write_loop-overlay (suc fuel) (x ∷ xs) sector mem a h whole =
    let b = x ∷ xs in
    let block : copy (replicate 512 0) b ≡ take 512 b = copy-replicate_long 512 0 b (omega arith) in
    let size : length (take 512 b) ≡ 512 = omega (arith, length-take 512 b) in
    let mem' = set_sector sector (take 512 b) mem in
    ap (λ c. bytes_in (write_loop fuel (drop 512 b) (sector + 1) (set_sector sector c mem)) a) block
    ∙ write_loop-overlay fuel (drop 512 b) (sector + 1) mem' a (omega (arith, length-drop 512 b))
        (omega (arith, length-drop 512 b))
    ∙ ap (λ f. overlay ((sector + 1) * 512) (drop 512 b) f a)
        (fun_ext (λ k. set_sector-overlay sector (take 512 b) mem k size))
    ∙ ap (λ o. overlay o (drop 512 b) (overlay (sector * 512) (take 512 b) (bytes_in mem)) a)
        (next_sector sector (length (take 512 b)) size)
    ∙ overlay-append (sector * 512) (take 512 b) (drop 512 b) (bytes_in mem) a
    ∙ ap (λ c. overlay (sector * 512) c (bytes_in mem) a) (take-append-drop 512 b)

pad_whole : (b : Bytes) → length b % 512 ≡ 0 → pad_to_sector b ≡ b
unfolding pad_to_sector
pad_whole b h = rw h

-- What a write of whole sectors does.
write_blocks-overlay :
    (lba : ℕ) (bs : Bytes) (w : FakeCard) (a : ℕ)
    → length bs % 512 ≡ 0
    → leb fake_card_num_blocks lba ≡ false
    → bytes_of (write_blocks lba bs w).1 a ≡ overlay (lba * 512) bs (bytes_of w) a
unfolding write_blocks
write_blocks-overlay lba bs w a whole room =
    rw (room, pad_whole bs whole)
      (write_loop-overlay (length bs) bs lba w.mem a (omega arith) whole)

write_blocks-refused :
    (lba : ℕ) (bs : Bytes) (w : FakeCard)
    → leb fake_card_num_blocks lba ≡ true
    → write_blocks lba bs w ≡ (err lba_past_end, w)
unfolding write_blocks
write_blocks-refused lba bs w h = rw h

read-world : (off size : ℕ) (w : FakeCard) → (read off size w).1 ≡ w
unfolding read
read-world off size w = ground arith

-- The fake card is a disk: a write of whole sectors that succeeds puts them in place and changes
-- nothing else, however a write ends it touches nothing outside, and reads change nothing.
pub fake_card-IsDisk : IsDisk fake_card bytes_of
fake_card-IsDisk = record {
  written = λ lba bs w v whole h a. elim (Bool-cases (leb fake_card_num_blocks lba)) [
    | inl past ↦ absurd (ground (arith, sym (write_blocks-refused lba bs w past) ∙ h))
    | inr room ↦ ap (λ r. bytes_of r.1 a) (sym h) ∙ write_blocks-overlay lba bs w a whole room
  ];
  confined = λ lba bs w a whole out. elim (Bool-cases (leb fake_card_num_blocks lba)) [
    | inl past ↦ ap (λ r. bytes_of r.1 a) (write_blocks-refused lba bs w past)
    | inr room ↦
        write_blocks-overlay lba bs w a whole room
        ∙ overlay-outside (lba * 512) bs (bytes_of w) a out
  ];
  read_keeps = λ off size w a. ap (λ v. bytes_of v a) (read-world off size w);
}
