-- ===== src/TrustedOs/FakeRpmb.antt =====
-- trusted_os/rpmb_fake.go: the RPMB of emulated builds, in memory.
pub mod Sectors
use armored_witness_os.Base.{
  ℕ, ◌≡◌, ◌+◌, ◌%◌, ◌^◌, Bool, true, false, List, [], ◌∷◌, Bytes, length, take, copy, replicate,
  ltb, ◌==◌, if◌then◌else◌, Option, none, some, Result, ok, err, halt, M, ◌>>=◌, ◌>>◌, pure, fail,
  lift, transfer_too_large, version_mismatch,
}
use armored_witness_os.TrustedOs.Rollback.{Versions}
use armored_witness_os.TrustedOs.Rollback

abbrev pub sector_length : ℕ
sector_length = 256

abbrev pub num_sectors : ℕ
num_sectors = 16

-- `RPMB`; `newRPMB` makes every sector zero.
pub record FakeRpmb : Type 0 where
  pub mem : ℕ → Bytes
  pub counter : ℕ

abbrev pub new_rpmb : FakeRpmb
new_rpmb = record { mem = λ sector. replicate sector_length 0; counter = 0 }

-- Every sector has its length.
abbrev pub IsMemory : FakeRpmb → Type 0
IsMemory r = (sector : ℕ) → length (r.mem sector) ≡ sector_length

-- An index of the array; out of range it is a panic.
abbrev pub at_sector : {A : Type 0} → ℕ → M FakeRpmb A → M FakeRpmb A
at_sector sector m r = if ltb sector num_sectors then m r else (halt, r)

-- `copy(r.mem[sector][:], buf)` and `r.counter++`
abbrev pub put : ℕ → Bytes → FakeRpmb → FakeRpmb
put sector buf r = record {
  mem = λ s. if s == sector then copy (r.mem sector) buf else r.mem s;
  counter = (r.counter + 1) % 2 ^ 32;
}

module _ {V : Type 0} (vs : Versions V) where
  open vs use {new_version, to_text, less_than, equal}

  unfoldable pub expected_version : ℕ → M FakeRpmb V
  expected_version offset =
      at_sector offset (λ r. (new_version (take Rollback.version_length (r.mem offset)), r))

  unfoldable pub update_version : ℕ → V → M FakeRpmb (Unit {0})
  update_version offset version = at_sector offset (λ r. (ok tt, put offset (to_text version) r))

  unfoldable pub check_version : ℕ → Bytes → M FakeRpmb (Unit {0})
  check_version offset s = do
    running ← lift (new_version s)
    expected ← expected_version offset
    if less_than running expected
        then fail version_mismatch
        else if equal expected running
        then pure tt
        else if less_than expected running
        then update_version offset running
        else pure tt

-- `transfer`: the buffer as it leaves it, and the counter if there is a place for it.
unfoldable pub transfer : ℕ → Bytes → Bool → Bool → M FakeRpmb (Bytes × Option ℕ)
transfer sector buf wants_counter write =
    if ltb 256 (length buf)
    then fail transfer_too_large
    else at_sector sector (λ r.
      let r' = if write then put sector buf r else r in
      (
        ok (
          if write then buf else copy buf (r.mem sector),
          if wants_counter then some r'.counter else none,
        ),
        r',
      ))
