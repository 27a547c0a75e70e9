-- ===== src/TrustedOs/Tests/MemoryCard.antt =====
-- A card of bytes in memory, and a codec of configs: what the tests of trusted_os/flash.go run on.
use armored_witness_os.Base.{
  ◌≤◌, subst, ◌++◌, Bool, List, ◌==◌, ◌&&◌, if◌then◌else◌, bytes_equal, bytes_equal→eq, Result, err,
  no_devices, Bool-cases, inl, inr, false, true, ℕ, zero, suc, ◌+◌, ◌*◌, ◌<◌, ◌≡◌, ◌∙◌, refl, sym,
  ap, [], ◌∷◌, Bytes, length, ok, arith,
}
use armored_witness_os.TrustedOs.Flash.Held.{IsCodec}
use armored_witness_os.Disk.{Card, IsDisk, ReadsBack, overlay, overlay-outside, byte_of}
use armored_witness_os.TrustedOs.Firmware.{Bundle, ProofBundle, Config, ConfigCodec}

-- The bytes from an offset on.
unfoldable pub bytes_from : (ℕ → ℕ) → ℕ → ℕ → Bytes
bytes_from f off zero = []
bytes_from f off (suc n) = f off ∷ bytes_from f (suc off) n

length-bytes_from : (f : ℕ → ℕ) (off n : ℕ) → length (bytes_from f off n) ≡ n
unfolding bytes_from
length-bytes_from f off zero = refl
length-bytes_from f off (suc n) = ap suc (length-bytes_from f (suc off) n)

byte_of-bytes_from :
    (f : ℕ → ℕ) (off n i : ℕ) → i < n → byte_of (bytes_from f off n) i ≡ f (off + i)
unfolding bytes_from
byte_of-bytes_from f off zero i h = absurd (omega arith)
byte_of-bytes_from f off (suc n) zero h = ap f {x = off} {y = off + 0} (omega arith)
byte_of-bytes_from f off (suc n) (suc i) h =
    byte_of-bytes_from f (suc off) n i (omega arith)
    ∙ ap f {x = suc off + i} {y = off + suc i} (omega arith)

abbrev pub Memory : Type 0
Memory = ℕ → ℕ

abbrev pub memory_card : Card Memory
memory_card = record {
  read = λ off size w. (ok (bytes_from w off size), w);
  write_blocks = λ lba bs w. (ok tt, overlay (lba * 512) bs w);
  info = λ w. record { mmc = true; block_size = 512; blocks = 100 };
  detect = λ w. (ok tt, w);
}

pub memory_card-IsDisk : IsDisk memory_card (λ w. w)
memory_card-IsDisk = record {
  written = λ lba bs w v whole h a. ap (λ r. r.1 a) (sym h);
  confined = λ lba bs w a whole out. overlay-outside (lba * 512) bs w a out;
  read_keeps = λ off size w a. refl;
}

pub memory_card-ReadsBack : ReadsBack memory_card (λ w. w) 0x1000000000 (λ w. Unit {0})
memory_card-ReadsBack = record {
  read_back = λ off size w v out good fits h.
      let got : bytes_from w off size ≡ out = cc (ap (λ r. r.0) h) in
      (
        ap length (sym got) ∙ length-bytes_from w off size,
        λ i k. ap (λ b. byte_of b i) (sym got) ∙ byte_of-bytes_from w off size i k,
      );
  stays_good = λ off size w good. tt;
}

abbrev pub blank : Memory
blank a = 0

-- A codec of the configs with one bundle: it writes down the size and the offset.
abbrev pub proof : ProofBundle
proof = record { checkpoint = 1 ∷ []; log_index = 5; inclusion_proof = []; manifest = 2 ∷ [] }

abbrev no_proof : List Bytes → Bool
no_proof [] = true
no_proof (p ∷ ps) = false

abbrev is_proof : ProofBundle → Bool
is_proof pb =
    (bytes_equal pb.checkpoint (1 ∷ []) && pb.log_index == 5)
    && (no_proof pb.inclusion_proof && bytes_equal pb.manifest (2 ∷ []))

abbrev sized : Bytes → Result Config
sized (n ∷ o ∷ rest) = ok (record { size = n; offset = o; bundle = proof })
sized _ = err no_devices

abbrev pub codec : ConfigCodec
codec = record {
  encode = λ c. if is_proof c.bundle then ok (c.size ∷ c.offset ∷ []) else err no_devices;
  decode = sized;
  max_length = 2;
}

nil_of : (ps : List Bytes) → no_proof ps ≡ true → ps ≡ []
nil_of [] h = refl
nil_of (p ∷ ps) h = cc

proof_of : (pb : ProofBundle) → is_proof pb ≡ true → pb ≡ proof
proof_of pb h = ground (
  arith,
  bytes_equal→eq pb.checkpoint (1 ∷ []),
  bytes_equal→eq pb.manifest (2 ∷ []),
  nil_of pb.inclusion_proof,
)

pub codec-IsCodec : IsCodec codec
codec-IsCodec = record {
  decodes = λ c b rest h. elim (Bool-cases (is_proof c.bundle)) [
    | inl fine ↦
        let b_is : c.size ∷ c.offset ∷ [] ≡ b = cc (rw fine at h) in
        subst (λ x. codec.decode (x ++ rest) ≡ ok c) b_is
          (ap (λ pb. ok (record { size = c.size; offset = c.offset; bundle = pb }))
            (sym (proof_of c.bundle fine)))
    | inr other ↦ absurd (ground (arith, rw other at h))
  ];
  within = λ c b h. ground arith;
}

abbrev pub accept : Bundle → Result (Unit {0})
accept b = if length b.firmware == 4 then ok tt else err no_devices

abbrev pub image : Bytes
image = 0x7f ∷ 0x45 ∷ 0x4c ∷ 0x46 ∷ []

pub image_fits : length image ≤ 31457280
image_fits = omega arith
