-- ===== src/WitnessCtl/Tests.antt =====
-- A run of the tool with one device: cmd/witnessctl.
mod Fusing
mod Configuring
use armored_witness_os.Base.{
  ℕ, suc, ◌≡◌, refl, none, true, false, [], ◌∷◌, Bytes, ok, pure, pure-Keeps,
}
use armored_witness_os.TrustedOs.Rpc.{Board}
use armored_witness_os.TrustedOs.Ctl.{empty_response}
use armored_witness_os.WitnessCtl.Asked.{main-asked}
use armored_witness_os.WitnessCtl.Devices.{
  DeviceInfo, Flags, default_flags, is_witness, open_witnesses, choose, detect, run, is_configured,
}
use armored_witness_os.WitnessCtl.Client.{cfg}
use armored_witness_os.WitnessCtl.Tool.{Host, main, perform}

abbrev pub witness : DeviceInfo
witness = record { path = 1 ∷ []; usage_page = 0xff00; vendor = 0x1209; product = 0x2702 }

-- A board that does nothing.
abbrev pub quiet_board : {W : Type 0} → Board W
quiet_board = record {
  native = true;
  debug = true;
  snvs_available = pure false;
  net_start = pure tt;
  stop = pure tt;
  await_done = pure tt;
  reset = pure tt;
  led = λ name on. pure tt;
  is_white = λ name. false;
  console_logs = λ w. [];
  sha256 = λ b. b;
  caam = none;
  dcp = none;
}

-- A host that counts the devices that fuse themselves and those that are configured.
abbrev Counts : Type 0
Counts = ℕ × ℕ

abbrev host : Host Counts Bytes
host = record {
  devices = pure (witness ∷ []);
  open_device = λ d. pure tt;
  ask_status = λ d. pure [];
  unmarshal_status = λ b. ok b;
  ask_hab = λ d w. (ok empty_response, (suc w.0, w.1));
  vendor_first = 64;
  ask_logs = λ d cmd continue. pure (record { payload = []; more = false });
  gunzip = λ b. ok b;
  addresses = record { is_ip = λ s. true; is_host_port = λ s. true };
  send_configuration = λ d c w. (ok empty_response, (w.0, suc w.1));
}

-- Without flags the device is configured, with the defaults.
default_configures : main host 1 default_flags [] (0, 0) ≡ (ok tt, (0, 1))
unfolding main perform detect open_witnesses is_witness choose run is_configured cfg
default_configures = refl

-- With -H, and without an answer, nothing is fused.
abbrev fuse_flags : Flags
fuse_flags = record default_flags { hab = true }

main-asked_example : (main host 1 fuse_flags [] (0, 0)).1.0 ≡ 0
main-asked_example =
    main-asked (λ w. w.0 ≡ 0) host 1 fuse_flags [] (pure-Keeps (witness ∷ []))
      (λ d is. pure-Keeps tt) (λ d is asked. pure-Keeps []) (λ d is asked said. cc)
      (λ d c is asked. pure-Keeps (record { payload = []; more = false }))
      (λ d c is asked. pure-Keeps (record { payload = []; more = false }))
      (λ d is asked valid. record { at = λ w h. h }) (0, 0) refl
