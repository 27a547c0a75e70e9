-- ===== src/TrustedOs/Tests/Start.antt =====
-- A start of the OS on a secured device, with an RPMB that holds version 7: trusted_os/main.go.
use armored_witness_os.Base.{
  ℕ, ◌≡◌, ◌+◌, ◌==◌, if◌then◌else◌, true, refl, [], ◌∷◌, Bytes, replicate, ok, err, Result, some,
  none, pure, fail, put_uint32, ltb, no_devices, bytes_equal,
}
use armored_witness_os.Disk.{Card}
use armored_witness_os.Fuses.{Otp}
use armored_witness_os.Rpmb.Frame.{
  DataFrame, new_frame, to_bytes, signed_part, mac_region, frame_at, parse, counter_of, is_reliable,
  authenticated_data_write, result_read,
}
use armored_witness_os.Rpmb.Op.{
  Platform, Partition, with_request_mac, with_nonce, validate, op, counter, transfer_write,
  transfer_other, transfer,
}
use armored_witness_os.Rpmb.Device.{program_key, write, read}
use armored_witness_os.Rpmb.Device
use armored_witness_os.TrustedOs.Firmware.{ConfigCodec, Loaded, Bundle}
use armored_witness_os.TrustedOs.Flash
use armored_witness_os.TrustedOs.Flash.{determine_loaded_os_block, read_config}
use armored_witness_os.TrustedOs.Rollback
use armored_witness_os.TrustedOs.Rollback.{
  KeySource, Versions, decoded, is_programmed, derive, probe, check_version, expected_version,
  update_version, os_version_sector,
}
use armored_witness_os.TrustedOs.Boot.{
  Build, Booted, boot, load, set_up_rpmb, check_rollback, find_applet, create_bundle_verifier,
  trim_v,
}
use armored_witness_os.TrustedOs.Rollback.Keying.{Keyed, init-Keyed}

abbrev Toy : Type 0
Toy = ℕ × DataFrame

abbrev key : Bytes
key = replicate 32 5

abbrev answer : ℕ → DataFrame → DataFrame
answer n req = record (new_frame 0) {
  key_mac = key;
  payload = replicate 256 7;
  nonce = req.nonce;
  write_counter = put_uint32 n;
  resp = req.req;
}

abbrev counted : DataFrame → ℕ → ℕ
counted req n = if req.req == authenticated_data_write then n + 1 else n

abbrev keep : ℕ → DataFrame → DataFrame → Toy
keep n old new = if new.req == result_read then (n, old) else (counted new n, new)

abbrev platform : Platform Toy
platform = record {
  write_rpmb = λ buf rel w. (ok tt, keep w.0 w.1 (frame_at buf));
  read_rpmb = λ buf w. (ok (to_bytes (answer w.0 w.1)), w);
  rng = λ n w. (ok (replicate n 9), w);
  hmac = λ k msg. k;
}

abbrev fused : Otp Toy
fused = record {
  read_ocotp = λ bank word off size w. (ok (1 ∷ []), w);
  blow_ocotp = λ bank word off size val w. (ok tt, w);
}

abbrev unit_key : KeySource Toy
unit_key = record { caam = some (pure (1 ∷ [])); dcp = none; stretch = λ k. key }

abbrev number : Bytes → Result ℕ
number [] = err no_devices
number (b ∷ bs) = ok b

abbrev numbers : Versions ℕ
numbers = record {
  new_version = number;
  to_text = λ v. v ∷ [];
  less_than = ltb;
  equal = λ a b. a == b;
  zero_text = 0 ∷ [];
  encode = λ t. ok t;
  decode = decoded;
}

abbrev card : Card Toy
card = record {
  read = λ offset size. fail no_devices;
  write_blocks = λ lba bs. pure tt;
  info = λ w. record { mmc = true; block_size = 512; blocks = 100 };
  detect = pure tt;
}

abbrev codec : ConfigCodec
codec = record { encode = λ c. err no_devices; decode = λ b. err no_devices; max_length = 40960 }

abbrev no_bundle : Bundle
no_bundle = record {
  checkpoint = [];
  index = 0;
  inclusion_proof = [];
  manifest = [];
  firmware = [];
}

-- Version v7.
abbrev build : Build
build = record {
  version = 118 ∷ 7 ∷ [];
  log_verifier = 1 ∷ [];
  applet_manifest_verifier = 2 ∷ [];
  os_manifest_verifier1 = 3 ∷ [];
  os_manifest_verifier2 = 4 ∷ [];
  ta_elf = [];
  ta_proof_bundle = [];
  embedded = no_bundle;
}

abbrev start : Toy
start = (41, new_frame 0)

abbrev unloaded : Loaded
unloaded = record { applet_block = 0; os_block = 0 }

abbrev booted : Result (Booted ℕ Toy) × Toy
booted =
    boot build numbers number codec card (some true) platform fused unit_key true (pure true)
      unloaded start

abbrev result_of : Result (Booted ℕ Toy) → Booted ℕ Toy → Booted ℕ Toy
result_of (ok b) d = b
result_of _ d = d

abbrev nothing : Booted ℕ Toy
nothing = record {
  rpmb = record { partition = none };
  loaded = unloaded;
  log_key = 0;
  applet_keys = [];
  os_keys = [];
  ta = none;
}

abbrev after : Booted ℕ Toy
after = result_of booted.0 nothing

booted_ok : booted ≡ (ok after, booted.1)
unfolding boot load set_up_rpmb check_rollback find_applet create_bundle_verifier trim_v
    determine_loaded_os_block read_config Flash.read Rollback.init is_programmed derive probe
    check_version expected_version update_version Device.init write read transfer transfer_write
    transfer_other op counter validate parse frame_at to_bytes signed_part mac_region with_nonce
    with_request_mac counter_of is_reliable bytes_equal
booted_ok = refl

-- Fuses of which none is burnt.
abbrev unfused : Otp Toy
unfused = record {
  read_ocotp = λ bank word off size w. (ok (0 ∷ []), w);
  blow_ocotp = λ bank word off size val w. (ok tt, w);
}

abbrev keyed : Result Partition × Toy
keyed = Rollback.init platform unfused unit_key (some true) start

keyed_ok : keyed ≡ (ok (record { key = key; init = true }), keyed.1)
unfolding Rollback.init is_programmed derive probe Device.init program_key op counter validate parse
    frame_at to_bytes signed_part mac_region with_nonce with_request_mac counter_of is_reliable
    bytes_equal
keyed_ok = refl

init-Keyed_example :
    Keyed platform unfused unit_key (some true) (record { key = key; init = true }) start keyed.1
init-Keyed_example =
    init-Keyed platform unfused unit_key (some true) (record { key = key; init = true }) start
      keyed.1 keyed_ok
