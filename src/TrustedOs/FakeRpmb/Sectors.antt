-- ===== src/TrustedOs/FakeRpmb/Sectors.antt =====
-- The sectors of the emulated RPMB (trusted_os/rpmb_fake.go).
use armored_witness_os.Base.{
  ℕ, ◌+◌, ◌%◌, ◌^◌, ◌≤◌, ◌<◌, ◌≡◌, ◌≢◌, true, false, Bytes, length, copy, length-copy, le→not_ltb,
  lt→ltb, ==_refl, none, some, ok, arith,
}
use armored_witness_os.TrustedOs.FakeRpmb.{FakeRpmb, IsMemory, transfer, put, num_sectors}

-- In a memory whose sectors have their length, a write of at most 256 bytes to one of the 16
-- sectors succeeds and tells the counter, which has gone up by one (modulo 2 ^ 32); a read of that
-- sector into at most 256 bytes gives what was written over what was there; every other sector and
-- every length is as it was.
pub transfer_lem :
    (sector : ℕ) (buf dst : Bytes) (r : FakeRpmb)
    → IsMemory r
    → sector < num_sectors
    → length buf ≤ 256
    → length dst ≤ 256
    → (r' : FakeRpmb) × (transfer sector buf true true r
        ≡ (ok (buf, some ((r.counter + 1) % 2 ^ 32)), r'))
      × (transfer sector dst false false r' ≡ (ok (copy dst (copy (r.mem sector) buf), none), r'))
      × ((s : ℕ) → s ≢ sector → r'.mem s ≡ r.mem s)
      × IsMemory r'
unfolding transfer
transfer_lem sector buf dst r lengths here fits room = (
  put sector buf r,
  rw (le→not_ltb 256 (length buf) fits, lt→ltb sector num_sectors here),
  rw (le→not_ltb 256 (length dst) room, lt→ltb sector num_sectors here, ==_refl sector),
  λ s other. ground arith,
  λ s. ground (arith, lengths s, lengths sector, length-copy (r.mem sector) buf),
)
