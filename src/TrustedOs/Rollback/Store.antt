-- ===== src/TrustedOs/Rollback/Store.antt =====
-- What the version check relies on: a store of sectors, and versions in a strict order.
use armored_witness_os.Base.{
  ℕ, ◌^◌, ◌<◌, ◌≤◌, ◌≡◌, ◌≢◌, Bytes, length, copy, replicate, true, false, ok,
}
use armored_witness_os.TrustedOs.Rollback.{Sectors, Versions, stored_version, version_length}

-- A partition whose reads give what it holds and whose writes replace a sector, when they succeed, at
-- the sectors that a `uint16` names.
pub record IsStore {W : Type 0} (p : Sectors W) (content : W → ℕ → Bytes) : Type 0 where
  pub read_law :
      (offset : ℕ) (buf out : Bytes) (w v : W)
      → offset < 2 ^ 16
      → p.read offset buf w ≡ (ok out, v)
      → (out ≡ copy buf (content w offset)) × ((o : ℕ) → o < 2 ^ 16 → content v o ≡ content w o)
  pub write_law :
      (offset : ℕ) (buf : Bytes) (w v : W)
      → offset < 2 ^ 16
      → p.write offset buf w ≡ (ok tt, v)
      → (content v offset ≡ copy (replicate 256 0) buf)
        × ((o : ℕ) → o < 2 ^ 16 → o ≢ offset → content v o ≡ content w o)

-- A text whose version, if it has one, is encoded within the length that is read back.
abbrev pub IsShort : {V : Type 0} → Versions V → Bytes → Type 0
IsShort {V} vs s =
    (v : V) (b : Bytes)
    → vs.new_version s ≡ ok v
    → vs.encode (vs.to_text v) ≡ ok b
    → length b ≤ version_length

-- What go-semver and gob document: versions are ordered, equal ones alike, and a version whose encoding
-- is read back whole decodes to itself, whatever follows.
pub record IsVersioning {V : Type 0} (vs : Versions V) : Type 0 where
  pub total : (a b : V) → vs.less_than a b ≡ false → vs.equal b a ≡ false → vs.less_than b a ≡ true
  pub respects :
      (a b c : V) → vs.equal a b ≡ true → vs.less_than c b ≡ true → vs.less_than c a ≡ true
  pub round_trip :
      (v : V) (b : Bytes)
      → vs.encode (vs.to_text v) ≡ ok b
      → length b ≤ version_length
      → stored_version vs (vs.decode (copy (replicate version_length 0) (copy (replicate 256 0) b)))
        ≡ ok v
