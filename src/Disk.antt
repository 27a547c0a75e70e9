-- ===== src/Disk.antt =====
-- The storage as the OS uses it: the interface Card of trusted_os/flash.go, and what a disk does.
use armored_witness_os.Base.{
  true, false, ok, ◌*◌, ◌%◌, ℕ, suc, zero, ◌+◌, ◌-◌, ◌≤◌, ◌<◌, ◌≡◌, Bool, [], ◌∷◌, ◌++◌, Bytes,
  length, ltb, leb, ◌&&◌, if◌then◌else◌, M, arith, refl, ◌∙◌, ap, ap₂, sym, inl, inr, Bool-cases,
  Option, none, some, length-append,
}

-- The fields of `usdhc.CardInfo` that the code reads or sets.
pub record CardInfo : Type 0 where
  pub mmc : Bool
  pub block_size : ℕ
  pub blocks : ℕ

-- `Card`
pub record Card (W : Type 0) : Type 0 where
  pub read : ℕ → ℕ → M W Bytes
  pub write_blocks : ℕ → Bytes → M W (Unit {0})
  pub info : W → CardInfo
  pub detect : M W (Unit {0})

abbrev pub byte_of : Bytes → ℕ → ℕ
byte_of [] i = 0
byte_of (b ∷ bs) zero = b
byte_of (b ∷ bs) (suc i) = byte_of bs i

abbrev pub inside : ℕ → ℕ → ℕ → Bool
inside off len a = leb off a && ltb a (off + len)

-- The bytes of a disk after `bs` are written at an offset.
unfoldable pub overlay : ℕ → Bytes → (ℕ → ℕ) → ℕ → ℕ
overlay off bs f a = if inside off (length bs) a then byte_of bs (a - off) else f a

pub byte_of-append_left :
    (xs ys : Bytes) (i : ℕ) → i < length xs → byte_of (xs ++ ys) i ≡ byte_of xs i
byte_of-append_left [] ys i h = absurd (omega arith)
byte_of-append_left (x ∷ xs) ys zero h = refl
byte_of-append_left (x ∷ xs) ys (suc i) h = byte_of-append_left xs ys i (omega arith)

byte_of-append_right :
    (xs ys : Bytes) (i : ℕ) → length xs ≤ i → byte_of (xs ++ ys) i ≡ byte_of ys (i - length xs)
byte_of-append_right [] ys i h = ap (byte_of ys) {x = i} {y = i - 0} (omega arith)
byte_of-append_right (x ∷ xs) ys zero h = absurd (omega arith)
byte_of-append_right (x ∷ xs) ys (suc i) h =
    rw (byte_of-append_right xs ys i (omega arith))
      (ap (byte_of ys) {x = i - length xs} {y = suc i - suc (length xs)} (omega arith))

-- Two byte strings of one length with the same bytes are the same.
pub bytes_ext :
    (xs ys : Bytes)
    → length xs ≡ length ys
    → ((i : ℕ) → i < length xs → byte_of xs i ≡ byte_of ys i)
    → xs ≡ ys
bytes_ext [] [] h same = refl
bytes_ext [] (y ∷ ys) h same = absurd (omega arith)
bytes_ext (x ∷ xs) [] h same = absurd (omega arith)
bytes_ext (x ∷ xs) (y ∷ ys) h same =
    ap₂ ◌∷◌ (same 0 (omega arith))
      (bytes_ext xs ys (omega arith) (λ i k. same (suc i) (omega arith)))

-- A byte string that begins with the bytes of another.
pub prefix_ext :
    (xs ys : Bytes)
    → length xs ≤ length ys
    → ((i : ℕ) → i < length xs → byte_of ys i ≡ byte_of xs i)
    → (rest : Bytes) × (ys ≡ xs ++ rest)
prefix_ext [] ys h same = (ys, refl)
prefix_ext (x ∷ xs) [] h same = absurd (omega arith)
prefix_ext (x ∷ xs) (y ∷ ys) h same =
    let (rest, e) = prefix_ext xs ys (omega arith) (λ i k. same (suc i) (omega arith)) in
    (rest, ap₂ ◌∷◌ (same 0 (omega arith)) e)

-- Writing one piece behind another is writing both at once.
pub overlay-append :
    (off : ℕ) (xs ys : Bytes) (f : ℕ → ℕ) (a : ℕ)
    → overlay (off + length xs) ys (overlay off xs f) a ≡ overlay off (xs ++ ys) f a
unfolding overlay
overlay-append off xs ys f a = ground (
  arith,
  byte_of-append_left xs ys (a - off),
  byte_of-append_right xs ys (a - off),
  length-append xs ys,
  ap (byte_of ys) {x = a - off - length xs} {y = a - (off + length xs)},
)

pub overlay_nil : (off : ℕ) (f : ℕ → ℕ) (a : ℕ) → overlay off [] f a ≡ f a
unfolding overlay
overlay_nil off f a = ground arith

pub overlay-outside :
    (off : ℕ) (bs : Bytes) (f : ℕ → ℕ) (a : ℕ)
    → inside off (length bs) a ≡ false
    → overlay off bs f a ≡ f a
unfolding overlay
overlay-outside off bs f a h = rw h

pub overlay-inside :
    (off : ℕ) (bs : Bytes) (f : ℕ → ℕ) (a : ℕ)
    → inside off (length bs) a ≡ true
    → overlay off bs f a ≡ byte_of bs (a - off)
unfolding overlay
overlay-inside off bs f a h = rw h

pub inside_at : (off n i : ℕ) → i < n → inside off n (off + i) ≡ true
inside_at off n i h = ground arith

-- What is read where `bs` was written is `bs`.
pub read_overlay :
    (off : ℕ) (bs out : Bytes) (f : ℕ → ℕ)
    → length out ≡ length bs
    → ((i : ℕ) → i < length bs → byte_of out i ≡ overlay off bs f (off + i))
    → out ≡ bs
read_overlay off bs out f size same = bytes_ext out bs size λ i h.
    let here : i < length bs = omega arith in
    same i here
    ∙ overlay-inside off bs f (off + i) (inside_at off (length bs) i here)
    ∙ ap (byte_of bs) {x = off + i - off} {y = i} (omega arith)

pub inside_shorter : (off m n a : ℕ) → m ≤ n → inside off n a ≡ false → inside off m a ≡ false
inside_shorter off m n a h e = ground arith

pub inside_longer : (off m n a : ℕ) → m ≤ n → inside off m a ≡ true → inside off n a ≡ true
inside_longer off m n a h e = ground arith

pub inside_first : (off m n a : ℕ) → inside off (m + n) a ≡ false → inside off m a ≡ false
inside_first off m n a h = ground arith

pub inside_rest : (off m n a : ℕ) → inside off (m + n) a ≡ false → inside (off + m) n a ≡ false
inside_rest off m n a h = ground arith

-- A disk seen byte by byte: a write that succeeds puts its blocks in place, one that fails may have
-- touched them and nothing else, and reads give what is there.
pub record IsDisk {W : Type 0} (card : Card W) (disk : W → ℕ → ℕ) : Type 0 where
  pub written :
      (lba : ℕ) (bs : Bytes) (w v : W)
      → length bs % 512 ≡ 0
      → card.write_blocks lba bs w ≡ (ok tt, v)
      → (a : ℕ) → disk v a ≡ overlay (lba * 512) bs (disk w) a
  pub confined :
      (lba : ℕ) (bs : Bytes) (w : W) (a : ℕ)
      → length bs % 512 ≡ 0
      → inside (lba * 512) (length bs) a ≡ false
      → disk (card.write_blocks lba bs w).1 a ≡ disk w a
  pub read_keeps : (off size : ℕ) (w : W) (a : ℕ) → disk (card.read off size w).1 a ≡ disk w a

-- What a disk holds in a region.
abbrev pub within : ℕ → ℕ → (ℕ → ℕ) → ℕ → Option ℕ
within off len f a = if inside off len a then some (f a) else none

pub within_same :
    (off len : ℕ) (f g : ℕ → ℕ)
    → ((a : ℕ) → inside off len a ≡ true → f a ≡ g a)
    → (a : ℕ) → within off len f a ≡ within off len g a
within_same off len f g same a = elim (Bool-cases (inside off len a)) [
  | inl here ↦ rw here (ap some (same a here))
  | inr there ↦ rw there
]

-- Bytes that a disk holds are not changed by writing them.
pub overlay_same :
    (off : ℕ) (bs : Bytes) (f : ℕ → ℕ)
    → ((a : ℕ) → inside off (length bs) a ≡ true → f a ≡ byte_of bs (a - off))
    → (a : ℕ) → overlay off bs f a ≡ f a
unfolding overlay
overlay_same off bs f same a = elim (Bool-cases (inside off (length bs) a)) [
  | inl here ↦ rw here (sym (same a here))
  | inr there ↦ rw there
]

-- Below its capacity, a read that succeeds returns what the disk holds.
pub record ReadsBack {W : Type 0} (card : Card W) (disk : W → ℕ → ℕ) (capacity : ℕ)
    (Good : W → Type 0) : Type 0 where
  pub read_back :
      (off size : ℕ) (w v : W) (out : Bytes)
      → Good w
      → off + size ≤ capacity
      → card.read off size w ≡ (ok out, v)
      → (length out ≡ size) × ((i : ℕ) → i < size → byte_of out i ≡ disk w (off + i))
  pub stays_good : (off size : ℕ) (w : W) → Good w → Good (card.read off size w).1
