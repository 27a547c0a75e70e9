-- ===== src/WitnessCtl/Client/Kept.antt =====
-- What the exchanges of cmd/witnessctl/api.go keep of the world, however they end.
use armored_witness_os.Base.{
  ℕ, zero, suc, ◌≡◌, refl, inl, inr, Bool, true, false, Bool-cases, Bytes, Option, some, none,
  Error, Result, ok, err, halt, M, next-keeps, Keeps, ◌>>◌, require, require-Keeps, fail-Keeps,
  pure-Keeps, lift-Keeps, bind-Keeps, then-Keeps, or_fail-Keeps, undecodable_status, device_error,
  missing_addresses, bad_ip, bad_netmask, bad_gateway, bad_dns,
}
use armored_witness_os.TrustedOs.Ctl.{LogMessages, Response, error_response, empty_response}
use armored_witness_os.WitnessCtl.Client.{
  Addresses, Configuration, get_chunks, received, finished, checked, get_log_messages, status, hab,
  cfg,
}

-- What `cfg` has asked net of a configuration.
pub record AreValid (net : Addresses) (c : Configuration) : Type 0 where
  pub ip : net.is_ip c.ip ≡ true
  pub netmask : net.is_ip c.netmask ≡ true
  pub gateway : net.is_ip c.gateway ≡ true
  pub resolver : net.is_host_port c.resolver ≡ true

module _ {W : Type 0} (P : W → Type 0) where
  received-Keeps :
      (command : Bool → M W LogMessages) (fuel : ℕ)
      → Keeps P (get_chunks command fuel true)
      → (r : Result LogMessages × W) → P r.1
      → P (received command (get_chunks command fuel true) r).1
  received-Keeps command fuel k (ok rsp, v) h = elim (Bool-cases rsp.more) [
    | inl more ↦ rw more (next-keeps P _ (get_chunks command fuel true v) (k.at v h) (λ _ u p. p))
    | inr last ↦ rw last h
  ]
  received-Keeps command fuel k (err e, v) h = h
  received-Keeps command fuel k (halt, v) h = h

  finished-Keeps : (e : Option Error) (logs : Bytes) → Keeps P (finished e logs)
  finished-Keeps none logs = pure-Keeps logs
  finished-Keeps (some e) logs = fail-Keeps e

  checked-Keeps : (rsp : Response) → Keeps P (checked rsp)
  checked-Keeps (error_response e) = fail-Keeps device_error
  checked-Keeps empty_response = pure-Keeps tt

  get_chunks-Keeps :
      (command : Bool → M W LogMessages) (fuel : ℕ) (continue : Bool)
      → ((c : Bool) → Keeps P (command c))
      → Keeps P (get_chunks command fuel continue)
  unfolding get_chunks
  get_chunks-Keeps command zero continue k = record { at = λ w h. h }
  get_chunks-Keeps command (suc fuel) continue k = record {
    at = λ w h.
        received-Keeps command fuel (get_chunks-Keeps command fuel true k) (command continue w)
          ((k continue).at w h);
  }

  pub status-Keeps :
      {S : Type 0} (send : M W Bytes) (unmarshal : Bytes → Result S)
      → Keeps P send
      → Keeps P (status send unmarshal)
  unfolding status
  status-Keeps send unmarshal k =
      bind-Keeps _ _ k (λ res. or_fail-Keeps _ undecodable_status (lift-Keeps (unmarshal res)))

  pub hab-Keeps : (send : M W Response) → Keeps P send → Keeps P (hab send)
  unfolding hab
  hab-Keeps send k = bind-Keeps _ _ k checked-Keeps

  pub get_log_messages-Keeps :
      (gunzip : Bytes → Result Bytes) (vendor_first : ℕ) (send : ℕ → Bool → M W LogMessages)
      (fuel cmd : ℕ)
      → ((c : Bool) → Keeps P (send cmd c))
      → Keeps P (get_log_messages gunzip vendor_first send fuel cmd)
  unfolding get_log_messages
  get_log_messages-Keeps gunzip vendor_first send fuel cmd k =
      bind-Keeps _ _ (get_chunks-Keeps (send cmd) fuel false k) (λ piped.
        bind-Keeps _ _ (lift-Keeps (gunzip piped.0)) (λ logs. finished-Keeps piped.1 logs))

  guard-Keeps :
      (b : Bool) (e : Error) (m : M W (Unit {0}))
      → (b ≡ true → Keeps P m)
      → Keeps P (require b e >> m)
  guard-Keeps true e m k = record { at = λ w h. (k refl).at w h }
  guard-Keeps false e m k = record { at = λ w h. h }

  -- `cfg` sends a configuration only if its addresses are valid.
  pub cfg-Keeps :
      (net : Addresses) (send : Configuration → M W Response) (c : Configuration)
      → (AreValid net c → Keeps P (send c))
      → Keeps P (cfg net send c)
  unfolding cfg
  cfg-Keeps net send c k = then-Keeps _ _ (require-Keeps _ missing_addresses) (
      guard-Keeps (net.is_ip c.ip) bad_ip _ (λ ip.
        guard-Keeps (net.is_ip c.netmask) bad_netmask _ (λ netmask.
          guard-Keeps (net.is_ip c.gateway) bad_gateway _ (λ gateway.
            guard-Keeps (net.is_host_port c.resolver) bad_dns _ (λ resolver.
              bind-Keeps _ _
                (k (record { ip = ip; netmask = netmask; gateway = gateway; resolver = resolver }))
                checked-Keeps)))))
