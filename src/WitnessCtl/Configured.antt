-- ===== src/WitnessCtl/Configured.antt =====
-- A configuration from witnessctl to the applet: cfg of cmd/witnessctl/api.go, Config of
-- trusted_os/ctl.go and Config of trusted_os/rpc.go.
use armored_witness_os.Base.{
  Error, ap₂, ℕ, ◌≡◌, ◌∙◌, refl, sym, ap, Bool, true, false, not, ◌||◌, List, [], ◌∷◌, Bytes,
  length, some, ok, M, ◌>>◌, unbind, pure, require, ◌==◌, arith, if◌then◌else◌, missing_addresses,
  bad_ip, bad_netmask, bad_gateway, bad_dns, empty_configuration,
}
use armored_witness_os.TrustedOs.Rpc
use armored_witness_os.TrustedOs.Rpc.{Board, Receiver, io, modify}
use armored_witness_os.TrustedOs.Ctl
use armored_witness_os.TrustedOs.Ctl.{Response, empty_response}
use armored_witness_os.WitnessCtl.Client
use armored_witness_os.WitnessCtl.Client.{Addresses, Configuration, checked, confirm}
use armored_witness_os.WitnessCtl.Client.Kept.{AreValid}
use armored_witness_os.WitnessCtl.Client.Answers.{checked-eq-ok, answer-eq-ok}
use armored_witness_os.WitnessCtl.Devices.{
  DeviceInfo, Action, Flags, configure, open_witnesses, detect, run, is_configured,
  configuration_of,
}
use armored_witness_os.WitnessCtl.Tool.{Host, perform, main}

-- What `require` has let through, with the rest behind it.
unrequire :
    {W P : Type 0} (b : Bool) (e : Error) (m : M W (Unit {0})) (w w' : W)
    → (require b e >> m) w ≡ (ok tt, w')
    → (b ≡ true → m w ≡ (ok tt, w') → P)
    → P
unrequire true e m w w' h use_rest = use_rest refl h
unrequire false e m w w' h use_rest = ground (arith, h)

-- A configuration that is sent with success had valid addresses.
cfg-sent :
    {W : Type 0} (net : Addresses) (send : Configuration → M W Response) (c : Configuration)
    (w w' : W)
    → Client.cfg net send c w ≡ (ok tt, w')
    → AreValid net c × (send c w ≡ (ok empty_response, w'))
unfolding Client.cfg
cfg-sent net send c w w' h =
    unrequire (not (length c.ip == 0 || (length c.gateway == 0 || length c.resolver == 0)))
      missing_addresses _ w w' h
      λ _ h1. unrequire (net.is_ip c.ip) bad_ip _ w w' h1 λ ip h2.
        unrequire (net.is_ip c.netmask) bad_netmask _ w w' h2 λ netmask h3.
          unrequire (net.is_ip c.gateway) bad_gateway _ w w' h3 λ gateway h4.
            unrequire (net.is_host_port c.resolver) bad_dns _ w w' h4 λ resolver h5.
              unbind (send c) checked w h5 λ rsp v e k.
                let (none_failed, same) = checked-eq-ok rsp v w' k in
                (
                  record { ip = ip; netmask = netmask; gateway = gateway; resolver = resolver },
                  e ∙ ap₂ (λ r t. (ok r, t)) none_failed same,
                )

-- The applet is loaded again if one runs.
abbrev pub loaded_again :
    {W : Type 0} → M (Receiver × W) (Unit {0}) → Bool → M (Receiver × W) (Unit {0})
loaded_again load true = load
loaded_again load false = pure tt

-- A configuration that the device has taken is not empty, and the receiver has it when the applet is
-- loaded again, or at the end if none runs.
config-held :
    {W : Type 0} (board : Board W) (load : M (Receiver × W) (Unit {0})) (running : Bool)
    (req : Bytes) (s t : Receiver × W)
    → Ctl.config board load running req s ≡ (ok empty_response, t)
    → ((length req == 0) ≡ false)
      × ((x : Receiver × W) × (x.0.cfg ≡ req) × (loaded_again load running x ≡ (ok tt, t)))
unfolding Ctl.config
config-held {W = W} board load running req s t h =
    unrequire (not (length req == 0)) empty_configuration _ s t (answer-eq-ok _ t h)
      λ some_bytes k. (ground (arith, some_bytes), sent running k)
  where
    sent :
        (running : Bool)
        → (modify (λ r. record r { cfg = req })
              >> (if running then (io (board.stop >> board.await_done) >> load) else pure tt))
            s
          ≡ (ok tt, t)
        → (x : Receiver × W) × (x.0.cfg ≡ req) × (loaded_again load running x ≡ (ok tt, t))
    sent true k =
        unbind (io (board.stop >> board.await_done)) (λ _. load) (record s.0 { cfg = req }, s.1) k
          λ _ x e loads. (x, sym (ap (λ q. q.1.0.cfg) e), loads)
    sent false k = (t, sym (ap (λ q. q.1.0.cfg) k), refl)

-- A run without the flags for anything else that succeeds has configured one device.
run-configures :
    {W : Type 0} (act : Action → M W (Unit {0})) (f : Flags) (confirmed : Bool)
    (devs : List DeviceInfo) (w w' : W)
    → (f.hab ≡ false) × (f.status ≡ false) × (f.console_logs ≡ false) × (f.crash_logs ≡ false)
    → is_configured f ≡ true
    → run act f confirmed devs w ≡ (ok tt, w')
    → (d : DeviceInfo) × (devs ≡ d ∷ []) × (act (configure d (configuration_of f)) w ≡ (ok tt, w'))
unfolding run is_configured
run-configures act f confirmed [] w w' (hab, status, console, crash) asked h =
    absurd (ground (arith, rw (hab, status, console, crash, asked) at h))
run-configures act f confirmed (d ∷ []) w w' (hab, status, console, crash) asked h =
    (d, refl, rw (hab, status, console, crash, asked) at h)
run-configures act f confirmed (d ∷ e ∷ ds) w w' (hab, status, console, crash) asked h =
    absurd (ground (arith, rw (hab, status, console, crash, asked) at h))

module _ {W S : Type 0} (host : Host (Receiver × W) S) (fuel : ℕ) (board : Board W)
    (load : M (Receiver × W) (Unit {0})) (running : Bool) (encode : Configuration → Bytes)
    (delivers : (d : DeviceInfo) (c : Configuration) (s : Receiver × W)
      → host.send_configuration d c s ≡ Ctl.config board load running (encode c) s) where
  -- Where a device gets its configuration by its control interface: a run of witnessctl that asks
  -- for nothing but a configuration, and succeeds, had valid addresses. There is a state, the one
  -- in which the applet is loaded again or, where none runs, the last one, in which the applet's
  -- request for its configuration gets the message with the values of the flags, each in its
  -- place; from that state the load has brought about the last one.
  pub main-configured :
      (f : Flags) (answer : Bytes) (s t : Receiver × W) (current : Bytes)
      → (f.hab ≡ false) × (f.status ≡ false) × (f.console_logs ≡ false) × (f.crash_logs ≡ false)
      → is_configured f ≡ true
      → main host fuel f answer s ≡ (ok tt, t)
      → AreValid host.addresses (configuration_of f)
        × ((x : Receiver × W) × (loaded_again load running x ≡ (ok tt, t))
            × (Rpc.config board current true x ≡ (
              ok (
                  some (
                    encode (record {
                      dhcp = f.dhcp;
                      ip = f.ip;
                      netmask = f.mask;
                      gateway = f.gw;
                      resolver = f.dns;
                      ntp_server = f.ntp;
                    }))),
              (record x.0 { cfg = current }, x.1),
            )))
  unfolding main perform Rpc.config
  main-configured f answer s t current nothing_else asked h =
      unbind host.devices _ s h λ connected s1 e1 k1.
        unbind (detect (open_witnesses host.open_device connected) f.hid_path) _ s1 k1
          λ devs s2 e2 k2.
            let (d, one, done) =
              run-configures (perform host fuel) f (confirm answer) devs s2 t nothing_else asked
                k2 in
            let (valid, sent) =
              cfg-sent host.addresses (host.send_configuration d) (configuration_of f) s2 t done in
            let (some_bytes, (x, held, again)) =
              config-held board load running (encode (configuration_of f)) s2 t
                (sym (delivers d (configuration_of f) s2) ∙ sent) in
            (valid, (x, again, rw (held, some_bytes)))
