-- ===== src/TrustedOs/Flash/Loop.antt =====
-- `flash` of trusted_os/flash.go: what it writes, where, and that it ends.
use armored_witness_os.Base.{
  ℕ, zero, suc, ◌+◌, ◌-◌, ◌*◌, ◌/◌, ◌%◌, ◌≤◌, ◌<◌, ◌≡◌, ◌≢◌, ◌∙◌, refl, sym, ap, fun_ext, subst,
  next-keeps, next-no-halt, block_size_mismatch, ◌⊎◌, inl, inr, true, false, [], ◌∷◌, ◌++◌, Bytes,
  length, take, drop, copy, replicate, length-append, length-take, length-drop, length-copy,
  length-replicate, take-append-drop, append_assoc, append-nil, copy-replicate, leb, min, leb→le,
  not_leb→lt, ==_iff, Bool-cases, ◌==◌, if◌then◌else◌, ok, err, halt, unbind, arith,
}
use native.Mathlib.Nat.{add-zero}
use armored_witness_os.Disk.{
  Card, IsDisk, overlay, overlay-append, overlay_nil, inside, inside_first, inside_rest,
}
use armored_witness_os.TrustedOs.Flash.{chunk_of, rest_of, flash_loop, flash}

-- The zeros behind the last chunk: a whole block if the buffer ends on a block within a batch.
unfoldable pub padding : ℕ → ℕ
padding n = if n % 1048576 == 0 then 0 else 512 - n % 512

abbrev pub padded : Bytes → Bytes
padded buf = buf ++ replicate (padding (length buf)) 0

padding-sub : (n : ℕ) → 1048576 ≤ n → padding n ≡ padding (n - 1048576)
unfolding padding
padding-sub n h = ground arith

padding-last : (n : ℕ) → 0 < n → n < 1048576 → padding n ≡ (n / 512 + 1) * 512 - n
unfolding padding
padding-last n p h = ground arith

round_up : (n : ℕ) → n ≤ (n / 512 + 1) * 512
round_up n = omega arith

abbrev zeros : ℕ → Bytes
zeros n = replicate n 0

batch_length : (m n : ℕ) → 1048576 ≤ n → m ≡ min 1048576 n → m % 512 ≡ 0
batch_length m n h e = omega arith

last_length : (m n : ℕ) → m ≡ (n / 512 + 1) * 512 → m % 512 ≡ 0
last_length m n e = omega arith

batch_rest : (m n : ℕ) → 1048576 ≤ n → m ≡ n - 1048576 → m < n
batch_rest m n h e = omega arith

padding_zero : padding 0 ≡ 0
unfolding padding
padding_zero = refl

chunk_of-full :
    (buf : Bytes)
    → leb 1048576 (length buf) ≡ true
    → (chunk_of 512 buf ≡ take 1048576 buf) × (rest_of 512 buf ≡ drop 1048576 buf)
unfolding chunk_of rest_of
chunk_of-full buf h = (rw h, rw h)

chunk_of-last :
    (buf : Bytes)
    → leb 1048576 (length buf) ≡ false
    → (chunk_of 512 buf ≡ copy (replicate ((length buf / 512 + 1) * 512) 0) buf)
      × (rest_of 512 buf ≡ [])
unfolding chunk_of rest_of
chunk_of-last buf h = (rw h, rw h)

length-chunk_of :
    (buf : Bytes)
    → 0 < length buf
    → (length (chunk_of 512 buf) % 512 ≡ 0) × (length (rest_of 512 buf) < length buf)
length-chunk_of buf h = elim (Bool-cases (leb 1048576 (length buf))) [
  | inl full ↦
      let (c, r) = chunk_of-full buf full in
      let enough = leb→le 1048576 (length buf) full in
      (
        batch_length _ (length buf) enough (ap length c ∙ length-take 1048576 buf),
        batch_rest _ (length buf) enough (ap length r ∙ length-drop 1048576 buf),
      )
  | inr last ↦
      let (c, r) = chunk_of-last buf last in
      (
        last_length _ (length buf) (
            ap length c
            ∙ length-copy (zeros ((length buf / 512 + 1) * 512)) buf
            ∙ length-replicate _ 0),
        subst (λ n. n < length buf) (sym (ap length r)) h,
      )
]

-- The first chunk, and then what is left with its padding, are the buffer with its padding.
padded-chunk_of :
    (buf : Bytes) → 0 < length buf → padded buf ≡ chunk_of 512 buf ++ padded (rest_of 512 buf)
padded-chunk_of buf h = elim (Bool-cases (leb 1048576 (length buf))) [
  | inl full ↦
      let (c, r) = chunk_of-full buf full in
      rw (c, r, ← append_assoc, take-append-drop)
        (ap (λ k. buf ++ zeros k)
          (padding-sub (length buf) (leb→le 1048576 (length buf) full)
            ∙ ap padding (sym (length-drop 1048576 buf))))
  | inr last ↦
      let (c, r) = chunk_of-last buf last in
      let short = not_leb→lt 1048576 (length buf) last in
      rw (c, r, copy-replicate _ 0 buf (round_up (length buf)), padding_zero, append-nil)
        (ap (λ k. buf ++ zeros k) (padding-last (length buf) h short))
]

flash-cases :
    {W : Type 0} (card : Card W) (buf : Bytes) (lba : ℕ) (w : W)
    → (flash card buf lba w ≡ flash_loop card (length buf) 512 lba 0 buf w)
      ⊎ (flash card buf lba w ≡ (err block_size_mismatch, w))
unfolding flash
flash-cases card buf lba w = elim (Bool-cases ((card.info w).block_size == 512)) [
  | inl e ↦ inl (rw e (ap (λ n. flash_loop card (length buf) n lba 0 buf w) ((==_iff _ 512).0 e)))
  | inr e ↦ inr (rw e)
]

-- A round takes what is left below the fuel that is left.
flash_loop_halts_not :
    {W : Type 0} (card : Card W)
    → ((lba : ℕ) (bs : Bytes) (w : W) → (card.write_blocks lba bs w).0 ≢ halt)
    → (fuel lba blocks : ℕ) (buf : Bytes) (w : W) → length buf ≤ fuel
    → (flash_loop card fuel 512 lba blocks buf w).0 ≢ halt
unfolding flash_loop
flash_loop_halts_not card sane fuel lba blocks [] w h = λ e. cc
flash_loop_halts_not card sane zero lba blocks (b ∷ bs) w h = absurd (omega arith)
flash_loop_halts_not card sane (suc fuel) lba blocks (b ∷ bs) w h =
    let (_, less) = length-chunk_of (b ∷ bs) (omega arith) in
    next-no-halt _ (card.write_blocks (lba + blocks) (chunk_of 512 (b ∷ bs)) w)
      (sane (lba + blocks) (chunk_of 512 (b ∷ bs)) w)
      λ _ v.
        flash_loop_halts_not card sane fuel lba (blocks + length (chunk_of 512 (b ∷ bs)) / 512)
          (rest_of 512 (b ∷ bs)) v (omega arith)

module _ {W : Type 0} (card : Card W) (disk : W → ℕ → ℕ) (is_disk : IsDisk card disk) where
  next_block :
      (lba blocks len : ℕ)
      → len % 512 ≡ 0
      → (lba + (blocks + len / 512)) * 512 ≡ (lba + blocks) * 512 + len
  next_block lba blocks len h = omega arith

  -- A loop that ends well has put the buffer and its padding in place, and nothing else.
  flash_loop-written :
      (fuel lba blocks : ℕ) (buf : Bytes) (w w' : W)
      → flash_loop card fuel 512 lba blocks buf w ≡ (ok tt, w')
      → (a : ℕ) → disk w' a ≡ overlay ((lba + blocks) * 512) (padded buf) (disk w) a
  unfolding flash_loop
  flash_loop-written fuel lba blocks [] w w' h a =
      rw (padding_zero, overlay_nil) (ap (λ s. disk s a) (sym (ap (λ r. r.1) h)))
  flash_loop-written zero lba blocks (b ∷ bs) w w' h a = ground arith
  flash_loop-written (suc fuel) lba blocks (b ∷ bs) w w' h a =
      let chunk = chunk_of 512 (b ∷ bs) in
      let rest = rest_of 512 (b ∷ bs) in
      let (whole, _) = length-chunk_of (b ∷ bs) (omega arith) in
      unbind (card.write_blocks (lba + blocks) chunk) _ w h λ _ v e k.
        flash_loop-written fuel lba (blocks + length chunk / 512) rest v w' k a
        ∙ ap (λ f. overlay ((lba + (blocks + length chunk / 512)) * 512) (padded rest) f a)
            (fun_ext (is_disk.written (lba + blocks) chunk w v whole e))
        ∙ ap (λ o. overlay o (padded rest) (overlay ((lba + blocks) * 512) chunk (disk w)) a)
            (next_block lba blocks (length chunk) whole)
        ∙ overlay-append ((lba + blocks) * 512) chunk (padded rest) (disk w) a
        ∙ ap (λ bytes. overlay ((lba + blocks) * 512) bytes (disk w) a)
            (sym (padded-chunk_of (b ∷ bs) (omega arith)))

  -- However it ends, it touches no byte outside.
  flash_loop-confined :
      (fuel lba blocks : ℕ) (buf : Bytes) (w : W) (a : ℕ)
      → inside ((lba + blocks) * 512) (length (padded buf)) a ≡ false
      → disk (flash_loop card fuel 512 lba blocks buf w).1 a ≡ disk w a
  unfolding flash_loop
  flash_loop-confined fuel lba blocks [] w a h = refl
  flash_loop-confined zero lba blocks (b ∷ bs) w a h = refl
  flash_loop-confined (suc fuel) lba blocks (b ∷ bs) w a h =
      let chunk = chunk_of 512 (b ∷ bs) in
      let rest = rest_of 512 (b ∷ bs) in
      let (whole, _) = length-chunk_of (b ∷ bs) (omega arith) in
      let split : inside ((lba + blocks) * 512) (length chunk + length (padded rest)) a ≡ false =
        subst (λ n. inside ((lba + blocks) * 512) n a ≡ false)
          (ap length (padded-chunk_of (b ∷ bs) (omega arith)) ∙ length-append chunk (padded rest))
          h in
      next-keeps (λ s. disk s a ≡ disk w a) _ (card.write_blocks (lba + blocks) chunk w)
        (is_disk.confined (lba + blocks) chunk w a whole
          (inside_first ((lba + blocks) * 512) (length chunk) _ a split))
        λ _ v same.
          flash_loop-confined fuel lba (blocks + length chunk / 512) rest v a (
            subst (λ o. inside o (length (padded rest)) a ≡ false)
              (sym (next_block lba blocks (length chunk) whole))
              (inside_rest ((lba + blocks) * 512) (length chunk) _ a split))
          ∙ same

  -- On a card that is a disk, a flash that succeeds leaves the buffer at its block, zeros behind
  -- it as its padding, and every other byte as it was.
  pub flash-written :
      (buf : Bytes) (lba : ℕ) (w w' : W)
      → flash card buf lba w ≡ (ok tt, w')
      → (a : ℕ) → disk w' a ≡ overlay (lba * 512) (padded buf) (disk w) a
  unfolding flash
  flash-written buf lba w w' h a = elim (flash-cases card buf lba w) [
    | inl e ↦ flash_loop-written (length buf) lba 0 buf w w' (sym e ∙ h) a ∙ at_lba
    | inr e ↦ absurd (ground (arith, sym e ∙ h))
  ]
    where
      at_lba :
          overlay ((lba + 0) * 512) (padded buf) (disk w) a
          ≡ overlay (lba * 512) (padded buf) (disk w) a
      at_lba = ap (λ o. overlay (o * 512) (padded buf) (disk w) a) (add-zero lba)

  -- On a card that is a disk, however a flash ends, it touches no byte outside the buffer and its
  -- padding.
  pub flash-confined :
      (buf : Bytes) (lba : ℕ) (w : W) (a : ℕ)
      → inside (lba * 512) (length (padded buf)) a ≡ false
      → disk (flash card buf lba w).1 a ≡ disk w a
  unfolding flash
  flash-confined buf lba w a h = elim (flash-cases card buf lba w) [
    | inl e ↦
        ap (λ r. disk r.1 a) e
        ∙ flash_loop-confined (length buf) lba 0 buf w a
            (subst (λ o. inside (o * 512) (length (padded buf)) a ≡ false) (sym (add-zero lba)) h)
    | inr e ↦ ap (λ r. disk r.1 a) e
  ]

-- If no write of the card halts, no flash does: the loop has fuel enough.
pub flash_halts_not :
    {W : Type 0} (card : Card W)
    → ((lba : ℕ) (bs : Bytes) (w : W) → (card.write_blocks lba bs w).0 ≢ halt)
    → (buf : Bytes) (lba : ℕ) (w : W) → (flash card buf lba w).0 ≢ halt
unfolding flash
flash_halts_not card sane buf lba w = elim (flash-cases card buf lba w) [
  | inl e ↦
      subst (λ r. r.0 ≢ halt) (sym e)
        (flash_loop_halts_not card sane (length buf) lba 0 buf w (omega arith))
  | inr e ↦ subst (λ r. r.0 ≢ halt) (sym e) (λ k. cc)
]
