-- ===== src/WitnessCtl/Tests/Fusing.antt =====
-- A run of the tool with -H on a device whose fuses are in memory: cmd/witnessctl, trusted_os/ctl.go
-- and internal/hab/hab.go.
use armored_witness_os.Base.{
  ◌≡◌, ◌≢◌, refl, true, false, [], ◌∷◌, Bytes, codes, Result, ok, pure, replicate, bytes_equal,
}
use armored_witness_os.Hab.{activate, hab, fuse, srk_size}
use armored_witness_os.Hab.Fused.{Burnt, closed_device}
use armored_witness_os.Hab.Tests.{Fields, fields, blank, srk, swap}
use armored_witness_os.TrustedOs.Rpc.{Board}
use armored_witness_os.TrustedOs.Ctl
use armored_witness_os.WitnessCtl.Client
use armored_witness_os.WitnessCtl.Devices.{
  DeviceInfo, Flags, default_flags, is_witness, open_witnesses, choose, detect, run,
}
use armored_witness_os.WitnessCtl.Fused.{main-Burnt}
use armored_witness_os.WitnessCtl.Tests.{witness, quiet_board}
use armored_witness_os.WitnessCtl.Tool.{Host, main, perform}

abbrev board : Board Fields
board = quiet_board

abbrev host : Host Fields Bytes
host = record {
  devices = pure (witness ∷ []);
  open_device = λ d. pure tt;
  ask_status = λ d. pure [];
  unmarshal_status = λ b. ok b;
  ask_hab = λ d. Ctl.hab board fields swap (ok srk);
  vendor_first = 64;
  ask_logs = λ d cmd continue. pure (record { payload = []; more = false });
  gunzip = λ b. ok b;
  addresses = record { is_ip = λ s. true; is_host_port = λ s. true };
  send_configuration = λ d c. pure Ctl.empty_response;
}

abbrev fuse_flags : Flags
fuse_flags = record default_flags { hab = true }

abbrev fused : Result (Unit {0}) × Fields
fused = main host 1 fuse_flags (codes "y") blank

fused_ok : fused ≡ (ok tt, fused.1)
unfolding main perform detect open_witnesses is_witness choose run Client.hab Client.status Ctl.hab
    activate hab fuse bytes_equal
fused_ok = refl

main-Burnt_example :
    (codes "y" ≡ codes "y")
    × ((d : DeviceInfo) × (key : Bytes) × (u : Fields) × (v : Fields) × (is_witness d ≡ true)
        × (ok srk ≡ ok key)
        × (pure false u ≡ (ok false, v))
        × (key ≢ replicate srk_size 0)
        × Burnt fields (closed_device (swap key)) v fused.1)
main-Burnt_example =
    main-Burnt host 1 (λ d. board) (λ d. fields) swap (λ d. ok srk) (λ d w. refl) fuse_flags
      (codes "y") blank fused.1 refl fused_ok
