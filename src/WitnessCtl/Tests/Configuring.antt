-- ===== src/WitnessCtl/Tests/Configuring.antt =====
-- A run of the tool that configures a device: cmd/witnessctl, trusted_os/ctl.go and trusted_os/rpc.go.
use armored_witness_os.Base.{
  ℕ, suc, ◌≡◌, refl, true, false, [], ◌∷◌, ◌++◌, Bytes, codes, ok, M, pure, ◌>>=◌, some, none,
}
use armored_witness_os.TrustedOs.Rpc
use armored_witness_os.TrustedOs.Rpc.{Board, Receiver}
use armored_witness_os.TrustedOs.Ctl
use armored_witness_os.WitnessCtl.Client
use armored_witness_os.WitnessCtl.Client.{Configuration}
use armored_witness_os.WitnessCtl.Client.Kept.{AreValid}
use armored_witness_os.WitnessCtl.Configured.{loaded_again, main-configured}
use armored_witness_os.WitnessCtl.Devices.{
  Flags, default_flags, is_witness, open_witnesses, choose, detect, run, is_configured,
  configuration_of,
}
use armored_witness_os.WitnessCtl.Tests.{witness, quiet_board}
use armored_witness_os.WitnessCtl.Tool.{Host, main, perform}

abbrev board : Board ℕ
board = quiet_board

-- An applet that is loaded is counted, and asks for its configuration at once.
abbrev load : M (Receiver × ℕ) (Unit {0})
load (r, n) = (Rpc.config board (4 ∷ []) true >>= λ _. pure tt) (r, suc n)

abbrev message : Configuration → Bytes
message c = c.ip ++ c.ntp_server

abbrev host : Host (Receiver × ℕ) Bytes
host = record {
  devices = pure (witness ∷ []);
  open_device = λ d. pure tt;
  ask_status = λ d. pure [];
  unmarshal_status = λ b. ok b;
  ask_hab = λ d. pure Ctl.empty_response;
  vendor_first = 64;
  ask_logs = λ d cmd continue. pure (record { payload = []; more = false });
  gunzip = λ b. ok b;
  addresses = record { is_ip = λ s. true; is_host_port = λ s. true };
  send_configuration = λ d c. Ctl.config board load true (message c);
}

abbrev at_start : Receiver
at_start = record {
  cfg = [];
  handler = record { g = 0; p = 0 };
  witness_status = none;
  os_firmware_buffer = [];
  applet_firmware_buffer = [];
}

abbrev flags : Flags
flags = record default_flags { ip = codes "10.0.0.7" }

abbrev configured : Receiver × ℕ
configured = (record at_start { cfg = 4 ∷ [] }, 1)

run_ok : main host 1 flags [] (at_start, 0) ≡ (ok tt, configured)
unfolding main perform detect open_witnesses is_witness choose run is_configured Client.cfg
    Ctl.config Rpc.config
run_ok = refl

given : is_configured flags ≡ true
unfolding is_configured
given = refl

main-configured_example :
    AreValid host.addresses (configuration_of flags)
    × ((x : Receiver × ℕ) × (loaded_again load true x ≡ (ok tt, configured))
        × (Rpc.config board (4 ∷ []) true x
            ≡ (ok (some (message (configuration_of flags))), (record x.0 { cfg = 4 ∷ [] }, x.1))))
main-configured_example =
    main-configured host 1 board load true message (λ d c s. refl) flags [] (at_start, 0) configured
      (4 ∷ []) (refl, refl, refl, refl) given run_ok
