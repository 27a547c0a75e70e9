-- ===== src/TrustedOs/Tests/Versions.antt =====
-- Versions of one number and a store of sectors in memory: trusted_os/rpmb.go.
use armored_witness_os.Base.{
  ℕ, ◌^◌, ◌<◌, ◌≡◌, ◌≤◌, ◌==◌, if◌then◌else◌, refl, [], ◌∷◌, Bytes, length, copy, replicate, ok,
  err, Result, arith, some, ltb, version_mismatch, no_devices, subst,
}
use armored_witness_os.TrustedOs.Rollback.{
  Sectors, Rpmb, Versions, decoded, check_version, expected_version, update_version,
}
use armored_witness_os.TrustedOs.Rpc.History.{IsPreorder}
use armored_witness_os.TrustedOs.Rollback.Store.{IsStore, IsVersioning, IsShort}
use armored_witness_os.TrustedOs.Rollback.Versioning.{Checked, check_version-Checked, older_refused}

abbrev Memory : Type 0
Memory = ℕ → Bytes

abbrev memory : Sectors Memory
memory = record {
  read = λ o buf w. (ok (copy buf (w o)), w);
  write = λ o buf w. (ok tt, λ s. if s == o then copy (replicate 256 0) buf else w s);
  counter = λ auth w. (ok 0, w);
}

memory-IsStore : IsStore memory (λ w o. w o)
memory-IsStore = record {
  read_law = λ o buf out w v small h. (ground arith, λ x within. ground arith);
  write_law = λ o buf w v small h. (ground arith, λ x within ne. ground arith);
}

-- A version is a number, its text and its encoding the number's one byte.
abbrev pub number : Bytes → Result ℕ
number [] = err no_devices
number (b ∷ bs) = ok b

abbrev pub numbers : Versions ℕ
numbers = record {
  new_version = number;
  to_text = λ v. v ∷ [];
  less_than = ltb;
  equal = λ a b. a == b;
  zero_text = 0 ∷ [];
  encode = λ t. ok t;
  decode = decoded;
}

encoded : (v : ℕ) (b : Bytes) → ok (v ∷ []) ≡ ok b → v ∷ [] ≡ b
encoded v b h = cc

pub numbers-IsVersioning : IsVersioning numbers
numbers-IsVersioning = record {
  total = λ a b older same. ground arith;
  respects = λ a b c same older. ground arith;
  round_trip = λ v b h small.
      subst (λ x. number (copy (replicate 32 0) (copy (replicate 256 0) x)) ≡ ok v) (encoded v b h)
        refl;
}

pub numbers-IsShort : (s : Bytes) → IsShort numbers s
numbers-IsShort s v b parsed h = subst (λ x. length x ≤ 32) (encoded v b h) (omega arith)

-- Sector 1 holds version 4; version 6 runs.
abbrev start : Memory
start s = if s == 1 then 4 ∷ [] else []

abbrev device : Rpmb Memory
device = record { partition = some memory }

abbrev checked : Result (Unit {0}) × Memory
checked = check_version numbers device 1 (6 ∷ []) start

checked_ok : checked ≡ (ok tt, checked.1)
unfolding check_version expected_version update_version
checked_ok = refl

check_version-Checked_example :
    Checked numbers memory
      (λ w o. w o)
      memory-IsStore
      numbers-IsVersioning
      1
      (6 ∷ [])
      start
      checked.1
check_version-Checked_example =
    check_version-Checked numbers memory (λ w o. w o) memory-IsStore numbers-IsVersioning 1 (6 ∷ [])
      start checked.1 (omega arith) (numbers-IsShort (6 ∷ [])) checked_ok

now_held : expected_version numbers device 1 checked.1 ≡ (ok 6, checked.1)
unfolding check_version expected_version update_version
now_held = refl

older_refused_example :
    (check_version numbers device 1 (5 ∷ []) checked.1 ≡ (err version_mismatch, checked.1))
    × ((o : ℕ) → o < 2 ^ 16 → checked.1 o ≡ checked.1 o)
older_refused_example =
    older_refused numbers memory (λ w o. w o) memory-IsStore numbers-IsVersioning 1 (6 ∷ [])
      (5 ∷ []) start checked.1 checked.1 6 5 6 (omega arith) (numbers-IsShort (6 ∷ [])) checked_ok
      refl refl refl now_held

pub numbers-IsPreorder : IsPreorder numbers
numbers-IsPreorder = record {
  irreflexive = λ a. ground arith;
  equal_not_less = λ a b same. ground arith;
  not_less_trans = λ a b c above below. ground arith;
}
