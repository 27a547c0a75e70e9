-- ===== src/TrustedOs/Flash/CrashLog.antt =====
-- The crash log of trusted_os/flash.go: what is stored comes back.

use armored_witness_os.Base.{
  ℕ, zero, suc, ◌+◌, ◌-◌, ◌*◌, ◌%◌, ◌≤◌, ◌<◌, ◌≡◌, ◌≢◌, ◌∙◌, refl, sym, ap, subst, inl, inr, [],
  ◌∷◌, ◌++◌, Bytes, length, drop, replicate, length-append, length-drop, length-replicate,
  take-append, ltb, ltb→lt, not_ltb→le, Bool-cases, some, none, ok, unbind, arith,
}
use armored_witness_os.Disk.{Card, IsDisk, ReadsBack, read_overlay}
use armored_witness_os.TrustedOs.Firmware.{crash_log_block, expected_block_size}
use armored_witness_os.TrustedOs.Flash.{
  max_log_size, fit_log, index_zero, trim_log, store_applet_crash_log, retrieve_last_crash_log,
}

-- No byte is zero.
abbrev pub NoZeros : Bytes → Type 0
NoZeros [] = Unit
NoZeros (b ∷ bs) = (b ≢ 0) × NoZeros bs

-- The last bytes of a log, at most `max` of them.
abbrev pub last_bytes : ℕ → Bytes → Bytes
last_bytes max l = drop (length l - max) l

index_zero-padded :
    (l : Bytes) (k : ℕ) → NoZeros l → index_zero (l ++ replicate (suc k) 0) ≡ some (length l)
unfolding index_zero
index_zero-padded [] k h = refl
index_zero-padded (b ∷ bs) k h = rw (index_zero-padded bs k h.1) (ground arith)

index_zero-none : (l : Bytes) → NoZeros l → index_zero l ≡ none
unfolding index_zero
index_zero-none [] h = refl
index_zero-none (b ∷ bs) h = rw (index_zero-none bs h.1) (ground arith)

NoZeros-drop : (n : ℕ) (l : Bytes) → NoZeros l → NoZeros (drop n l)
NoZeros-drop zero l h = h
NoZeros-drop (suc n) [] h = tt
NoZeros-drop (suc n) (b ∷ bs) h = NoZeros-drop n bs h.1

trim-NoZeros : (l : Bytes) → NoZeros l → trim_log l ≡ l
unfolding trim_log
trim-NoZeros l h = rw (index_zero-none l h, trim_log)

trim-padded :
    (l : Bytes) (k : ℕ) → NoZeros l → 0 < length l → trim_log (l ++ replicate (suc k) 0) ≡ l
unfolding trim_log
trim-padded l k h some_bytes =
    rw (index_zero-padded l k h, trim_log)
      (ground (arith, take-append (length l) l (replicate (suc k) 0)))

gap : (max n : ℕ) → n < max → max - n ≡ suc (max - n - 1)
gap max n h = omega arith

whole : (l : Bytes) (max : ℕ) → length l ≤ max → last_bytes max l ≡ l
whole l max h = ap (λ k. drop k l) {x = length l - max} {y = 0} (omega arith)

length-fit : (max : ℕ) (l : Bytes) → length (fit_log max l) ≡ max
unfolding fit_log
length-fit max l = ground (
  arith,
  length-drop (length l - max) l,
  length-append l (replicate (max - length l) 0),
  length-replicate {0} {A = ℕ} (max - length l) 0,
)

-- A log that is not empty and has no zero byte is cut to its last bytes by storing it, and padding
-- and trimming undo one another.
trim-fit :
    (max : ℕ) (l : Bytes) → NoZeros l → 0 < length l → trim_log (fit_log max l) ≡ last_bytes max l
unfolding fit_log
trim-fit max l h some_bytes = elim (Bool-cases (ltb max (length l))) [
  | inl long ↦ rw long (trim-NoZeros (last_bytes max l) (NoZeros-drop (length l - max) l h))
  | inr fits ↦ elim (Bool-cases (ltb (length l) max)) [
    | inl short ↦
        rw (fits, short, gap max (length l) (ltb→lt (length l) max short))
          (trim-padded l (max - length l - 1) h some_bytes
            ∙ sym (whole l max (not_ltb→le max (length l) fits)))
    | inr exact ↦
        rw (fits, exact) (trim-NoZeros l h ∙ sym (whole l max (not_ltb→le max (length l) fits)))
  ]
]

module _ {W : Type 0} (card : Card W) (disk : W → ℕ → ℕ) (is_disk : IsDisk card disk) (capacity : ℕ)
    (Good : W → Type 0) (reads : ReadsBack card disk capacity Good)
    (room : crash_log_block * expected_block_size + max_log_size ≤ capacity) where
  read_fit :
      (fit r : Bytes) (w v u u' : W)
      → Good u
      → length fit ≡ max_log_size
      → card.write_blocks crash_log_block fit w ≡ (ok tt, v)
      → ((a : ℕ) → disk u a ≡ disk v a)
      → card.read (crash_log_block * expected_block_size) max_log_size u ≡ (ok r, u')
      → r ≡ fit
  read_fit fit r w v u u' good size stored after read =
      let start = crash_log_block * expected_block_size in
      let (len, same) = reads.read_back start max_log_size u u' r good room read in
      read_overlay start fit r (disk w) (len ∙ sym size) λ i h.
        same i (subst (λ n. i < n) size h)
        ∙ after (start + i)
        ∙ is_disk.written crash_log_block fit w v (ap (λ n. n % 512) size) stored (start + i)

  -- A crash log that is stored, and fetched from a disk with the same bytes.
  pub stored-fetched :
      (l out : Bytes) (w v u u' : W)
      → NoZeros l
      → 0 < length l
      → Good u
      → store_applet_crash_log card l w ≡ (ok tt, v)
      → ((a : ℕ) → disk u a ≡ disk v a)
      → retrieve_last_crash_log card u ≡ (ok out, u')
      → out ≡ last_bytes max_log_size l
  unfolding store_applet_crash_log retrieve_last_crash_log
  stored-fetched l out w v u u' clean some_bytes good stored after fetched =
      unbind (card.read (crash_log_block * expected_block_size) max_log_size) _ u fetched λ r t e k.
        let trimmed : trim_log r ≡ out = cc (ap (λ x. x.0) k) in
        let fit = fit_log max_log_size l in
        sym trimmed
        ∙ ap trim_log (read_fit fit r w v u t good (length-fit max_log_size l) stored after e)
        ∙ trim-fit max_log_size l clean some_bytes

  -- On a card that is a disk and reads back what it holds, with room for the crash log, a crash
  -- log that is stored and then fetched comes back as its last bytes, one MiB of them at most, if
  -- it is not empty and has no zero byte.
  crash_log_returns :
      (l out : Bytes) (w v v' : W)
      → NoZeros l
      → 0 < length l
      → Good v
      → store_applet_crash_log card l w ≡ (ok tt, v)
      → retrieve_last_crash_log card v ≡ (ok out, v')
      → out ≡ last_bytes max_log_size l
  crash_log_returns l out w v v' clean some_bytes good stored fetched =
      stored-fetched l out w v v v' clean some_bytes good stored (λ a. refl) fetched
