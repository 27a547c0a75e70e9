-- ===== src/TrustedOs/Tests/Starts.antt =====
-- Starts of three builds on a card that keeps its standard: trusted_os/main.go.
use armored_witness_os.Base.{
  Keeps, ℕ, ◌≡◌, refl, [], ◌∷◌, ok, err, halt, Result, some, none, pure, fail, ltb, no_devices,
  bytes_equal, true, false, Bool, Bytes, Option, arith,
}
use armored_witness_os.Disk.{Card}
use armored_witness_os.Fuses.{Otp}
use armored_witness_os.Rpmb.Frame.{
  new_frame, to_bytes, signed_part, mac_region, frame_at, parse, counter_of, is_reliable,
}
use armored_witness_os.Rpmb.Op.{
  with_request_mac, with_nonce, validate, op, counter, transfer_write, transfer_other, transfer,
}
use armored_witness_os.Rpmb.Device
use armored_witness_os.Rpmb.Device.{program_key, write, read}
use armored_witness_os.TrustedOs.Firmware.{ConfigCodec, Loaded, Bundle}
use armored_witness_os.TrustedOs.Flash
use armored_witness_os.TrustedOs.Flash.{determine_loaded_os_block, read_config}
use armored_witness_os.TrustedOs.Rollback
use armored_witness_os.TrustedOs.Rollback.{
  KeySource, is_programmed, derive, probe, check_version, expected_version, update_version,
}
use armored_witness_os.TrustedOs.Rpc.{write_rpmb}
use armored_witness_os.TrustedOs.Rollback.{Rpmb, sectors_of}
use armored_witness_os.TrustedOs.Rollback.Setup.{IsUnit, init-Keeps}
use armored_witness_os.TrustedOs.Boot.{
  Build, Booted, boot, load, set_up_rpmb, check_rollback, find_applet, create_bundle_verifier,
  trim_v,
}
use armored_witness_os.TrustedOs.Boot.Loading.{IsSecured}
use armored_witness_os.TrustedOs.Boot.Downgrade.{
  tries, writes, here, later, starts, older_never_starts,
}
use armored_witness_os.TrustedOs.Tests.Cards.{State, key, content, platform, platform-IsCard, step}
use armored_witness_os.TrustedOs.Tests.Versions.{
  number, numbers, numbers-IsVersioning, numbers-IsShort, numbers-IsPreorder,
}

abbrev fused : Otp State
fused = record {
  read_ocotp = λ bank word off size w. (ok (1 ∷ []), w);
  blow_ocotp = λ bank word off size val w. (ok tt, w);
}

abbrev unit_key : KeySource State
unit_key = record { caam = some (pure (1 ∷ [])); dcp = none; stretch = λ k. key }

fused-IsUnit : IsUnit fused unit_key content key
fused-IsUnit = record {
  fuse_reads = λ bank word off size w o. refl;
  fuse_blows = λ bank word off size val w o. refl;
  derives = λ unit w o from. ground arith;
  same_key = λ unit w v dk from derived. refl;
  key_length = refl;
}

abbrev card : Card State
card = record {
  read = λ offset size. fail no_devices;
  write_blocks = λ lba bs. pure tt;
  info = λ w. record { mmc = true; block_size = 512; blocks = 100 };
  detect = pure tt;
}

abbrev sensed : State → Result Bool × State
sensed w = (ok true, w)

card-IsSecured : IsSecured card sensed content
card-IsSecured = record {
  detects = λ w o. refl;
  reads = λ off size w o. refl;
  senses = λ w o. refl;
  available = λ w v a e. ground arith;
}

abbrev codec : ConfigCodec
codec = record { encode = λ c. err no_devices; decode = λ b. err no_devices; max_length = 40960 }

abbrev no_bundle : Bundle
no_bundle = record {
  checkpoint = [];
  index = 0;
  inclusion_proof = [];
  manifest = [];
  firmware = [];
}

-- A build of a version.
abbrev build : ℕ → Build
build v = record {
  version = 118 ∷ v ∷ [];
  log_verifier = 1 ∷ [];
  applet_manifest_verifier = 2 ∷ [];
  os_manifest_verifier1 = 3 ∷ [];
  os_manifest_verifier2 = 4 ∷ [];
  ta_elf = [];
  ta_proof_bundle = [];
  embedded = no_bundle;
}

abbrev unloaded : Loaded
unloaded = record { applet_block = 0; os_block = 0 }

abbrev start : State
start = record { sectors = λ o. []; counter = 41; last = new_frame 0 }

abbrev booted : ℕ → State → Result (Booted ℕ State) × State
booted v w =
    boot (build v) numbers number codec card (some true) platform fused unit_key true sensed
      unloaded w

abbrev nothing : Booted ℕ State
nothing = record {
  rpmb = record { partition = none };
  loaded = unloaded;
  log_key = 0;
  applet_keys = [];
  os_keys = [];
  ta = none;
}

abbrev result_of : Result (Booted ℕ State) → Booted ℕ State
result_of (ok b) = b
result_of (err e) = nothing
result_of halt = nothing

abbrev own_rpmb : Rpmb State
own_rpmb = record { partition = some (sectors_of platform (record { key = key; init = true })) }

abbrev first : Result (Booted ℕ State) × State
first = booted 6 start

abbrev second : Result (Booted ℕ State) × State
second = booted 7 first.1

-- Version 3 is refused.
abbrev tried : Result (Booted ℕ State) × State
tried = booted 3 second.1

abbrev written : Result (Bytes × Option ℕ) × State
written = write_rpmb own_rpmb (1 ∷ 2 ∷ []) true tried.1

abbrev third : Result (Booted ℕ State) × State
third = booted 9 written.1

all_start :
    (first ≡ (ok (result_of first.0), first.1))
    × (second ≡ (ok (result_of second.0), second.1))
    × (tried ≡ (halt, tried.1))
    × (third ≡ (ok (result_of third.0), third.1))
unfolding boot load set_up_rpmb check_rollback find_applet create_bundle_verifier trim_v
    determine_loaded_os_block read_config Flash.read Rollback.init is_programmed derive probe
    check_version expected_version update_version Device.init write read transfer transfer_write
    transfer_other op counter validate parse frame_at to_bytes signed_part mac_region with_nonce
    with_request_mac counter_of is_reliable bytes_equal step write_rpmb Rollback.transfer
all_start = (refl, refl, refl, refl)

older_never_starts_example : ltb 9 6 ≡ false
unfolding trim_v
older_never_starts_example =
    older_never_starts numbers numbers-IsVersioning numbers-IsPreorder number codec card (some true)
      platform fused unit_key sensed unloaded content key fused-IsUnit platform-IsCard
      card-IsSecured (build 6) (build 9) start first.1 written.1 third.1 (result_of first.0)
      (result_of third.0) 6 9 (numbers-IsShort (trim_v (build 6).version)) all_start.0 refl
      (later
        (later
          (later here (
            starts (build 7) (result_of second.0) (numbers-IsShort (trim_v (build 7).version))
              all_start.1))
          (tries (build 3) halt 3 refl refl all_start.2))
        (writes (1 ∷ 2 ∷ []) true written.0 refl))
      all_start.3 refl

init-Keeps_example :
    Keeps (λ w. content w 1 ≡ 7 ∷ []) (Rollback.init platform fused unit_key (some true))
init-Keeps_example =
    init-Keeps platform fused unit_key content key fused-IsUnit platform-IsCard 1 (7 ∷ [])
      (omega arith) (some true)
