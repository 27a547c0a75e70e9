-- ===== src/WitnessCtl/Asked.antt =====
-- What witnessctl does to which devices (cmd/witnessctl/witnessctl.go and usb.go).
use armored_witness_os.Base.{
  bytes_equal→eq, codes, ℕ, ◌≡◌, ◌⊎◌, inl, inr, refl, sym, subst, Bool, true, false, Bool-cases,
  List, [], ◌∷◌, Bytes, length, ◌==◌, if◌then◌else◌, Result, ok, err, halt, M, Keeps, if-Keeps,
  fail-Keeps, pure-Keeps, bind-Keeps, then-Keeps, bind_at-Keeps, user_cancelled, device_not_chosen,
}
use armored_witness_os.TrustedOs.Usb.{Request, command_of}
use armored_witness_os.WitnessCtl.Client
use armored_witness_os.WitnessCtl.Client.{confirm}
use armored_witness_os.WitnessCtl.Client.Kept.{
  AreValid, status-Keeps, hab-Keeps, get_log_messages-Keeps, cfg-Keeps,
}
use armored_witness_os.WitnessCtl.Devices.{
  DeviceInfo, Action, Flags, get_status, fuse_hab, get_console_logs, get_crash_logs, configure,
  is_witness, run, for_each, on_first, ask_status, dereferenced, logged, beside_status,
  is_configured, configuration_of,
}
use armored_witness_os.WitnessCtl.Devices.Detected.{AllWitnesses, detect-AllWitnesses, detect-Keeps}
use armored_witness_os.WitnessCtl.Tool.{Host, perform, main}

-- What the flags ask for, of any witness: to fuse it also takes the user's confirmation, and to
-- configure it that nothing else is asked for.
abbrev IsAsked : Flags → Bool → Action → Type 0
IsAsked f confirmed (get_status d) = (is_witness d ≡ true) × ((f.hab ≡ true) ⊎ (f.status ≡ true))
IsAsked f confirmed (fuse_hab d) = (is_witness d ≡ true) × (f.hab ≡ true) × (confirmed ≡ true)
IsAsked f confirmed (get_console_logs d) = (is_witness d ≡ true) × (f.console_logs ≡ true)
IsAsked f confirmed (get_crash_logs d) = (is_witness d ≡ true) × (f.crash_logs ≡ true)
IsAsked f confirmed (configure d c) =
    (is_witness d ≡ true)
    × ((f.hab ≡ false) × (f.status ≡ false) × (f.console_logs ≡ false) × (f.crash_logs ≡ false))
    × (c ≡ configuration_of f)

logged-world : {W : Type 0} (r : Result (Unit {0}) × W) → (logged r).1 ≡ r.1
logged-world (ok a, v) = refl
logged-world (err e, v) = refl
logged-world (halt, v) = refl

dereferenced-world : {W : Type 0} (r : Result (Unit {0}) × W) → (dereferenced r).1 ≡ r.1
dereferenced-world (ok a, v) = refl
dereferenced-world (err e, v) = elim (Bool-cases (beside_status e)) [
  | inl yes_it_is ↦ rw yes_it_is refl
  | inr no_it_is_not ↦ rw no_it_is_not refl
]
dereferenced-world (halt, v) = refl

module _ {W : Type 0} (P : W → Type 0) where
  for_each-Keeps :
      (action : DeviceInfo → M W (Unit {0})) (act : Action → M W (Unit {0})) (ds : List DeviceInfo)
      → AllWitnesses ds
      → ((d : DeviceInfo) → is_witness d ≡ true → Keeps P (action d))
      → Keeps P (for_each act action ds)
  unfolding for_each
  for_each-Keeps action act [] all keeps = pure-Keeps tt
  for_each-Keeps action act (d ∷ ds) (yes_it_is, all) keeps =
      bind-Keeps _ _ (keeps d yes_it_is) (λ _. for_each-Keeps action act ds all keeps)

  on_first-Keeps :
      (action : DeviceInfo → M W (Unit {0})) (act : Action → M W (Unit {0})) (ds : List DeviceInfo)
      → AllWitnesses ds
      → ((d : DeviceInfo) → is_witness d ≡ true → Keeps P (action d))
      → Keeps P (on_first act action ds)
  on_first-Keeps action act [] all keeps = record { at = λ w h. h }
  on_first-Keeps action act (d ∷ ds) (yes_it_is, all) keeps = keeps d yes_it_is

  logged-Keeps : (m : M W (Unit {0})) → Keeps P m → Keeps P (λ w. logged (m w))
  logged-Keeps m k = record { at = λ w h. subst P (sym (logged-world (m w))) (k.at w h) }

  ask_status-Keeps :
      (act : Action → M W (Unit {0})) (d : DeviceInfo)
      → Keeps P (act (get_status d))
      → Keeps P (ask_status act d)
  ask_status-Keeps act d k = record {
    at = λ w h. subst P (sym (dereferenced-world (act (get_status d) w))) (k.at w h);
  }

  branch-Keeps :
      (b : Bool) (m n : M W (Unit {0}))
      → (b ≡ true → Keeps P m)
      → (b ≡ false → Keeps P n)
      → Keeps P (if b then m else n)
  branch-Keeps true m n k l = k refl
  branch-Keeps false m n k l = l refl

  run-Keeps :
      (act : Action → M W (Unit {0})) (f : Flags) (confirmed : Bool) (ds : List DeviceInfo)
      → ((a : Action) → IsAsked f confirmed a → Keeps P (act a))
      → AllWitnesses ds
      → Keeps P (run act f confirmed ds)
  unfolding run
  run-Keeps act f confirmed ds keeps all =
      branch-Keeps f.hab _ _
        (λ hab. on_first-Keeps _ act ds all (λ d is.
          then-Keeps _ _ (ask_status-Keeps act d (keeps (get_status d) (is, inl hab))) (
            branch-Keeps confirmed _ _ (λ yes. keeps (fuse_hab d) (is, hab, yes))
              (λ no. fail-Keeps user_cancelled))))
        (λ no_hab.
          branch-Keeps f.status _ _
            (λ status.
              for_each-Keeps _ act ds all
                (λ d is. ask_status-Keeps act d (keeps (get_status d) (is, inr status))))
            (λ no_status.
              branch-Keeps f.console_logs _ _
                (λ console.
                  for_each-Keeps _ act ds all
                    (λ d is. logged-Keeps _ (keeps (get_console_logs d) (is, console))))
                (λ no_console.
                  branch-Keeps f.crash_logs _ _
                    (λ crash.
                      for_each-Keeps _ act ds all
                        (λ d is. logged-Keeps _ (keeps (get_crash_logs d) (is, crash))))
                    (λ no_crash.
                      branch-Keeps (is_configured f) _ _
                        (λ _.
                          if-Keeps (length ds == 1) _ _
                            (on_first-Keeps _ act ds all (λ d is.
                              keeps (configure d (configuration_of f))
                                (is, (no_hab, no_status, no_console, no_crash), refl)))
                            (fail-Keeps device_not_chosen))
                        (λ _. pure-Keeps tt)))))

-- The exchanges with a witness that the flags and the user's answer ask for.
module _ {W S : Type 0} (P : W → Type 0) (host : Host W S) (fuel : ℕ) (f : Flags) (answer : Bytes)
    (lists : Keeps P host.devices)
    (opens : (d : DeviceInfo) → is_witness d ≡ true → Keeps P (host.open_device d))
    (statuses : (d : DeviceInfo)
      → is_witness d ≡ true
      → (f.hab ≡ true) ⊎ (f.status ≡ true)
      → Keeps P (host.ask_status d))
    (fuses : (d : DeviceInfo)
      → is_witness d ≡ true
      → f.hab ≡ true
      → answer ≡ codes "y"
      → Keeps P (host.ask_hab d))
    (consoles : (d : DeviceInfo) (c : Bool)
      → is_witness d ≡ true
      → f.console_logs ≡ true
      → Keeps P (host.ask_logs d (command_of host.vendor_first Request.console_logs) c))
    (crashes : (d : DeviceInfo) (c : Bool)
      → is_witness d ≡ true
      → f.crash_logs ≡ true
      → Keeps P (host.ask_logs d (command_of host.vendor_first Request.crash_logs) c))
    (configures : (d : DeviceInfo)
      → is_witness d ≡ true
      → (f.hab ≡ false) × (f.status ≡ false) × (f.console_logs ≡ false) × (f.crash_logs ≡ false)
      → AreValid host.addresses (configuration_of f)
      → Keeps P (host.send_configuration d (configuration_of f))) where
  perform-Keeps : (a : Action) → IsAsked f (confirm answer) a → Keeps P (perform host fuel a)
  unfolding perform Client.console_logs Client.crash_logs
  perform-Keeps (get_status d) (is, asked) =
      bind-Keeps _ _ (status-Keeps P _ host.unmarshal_status (statuses d is asked))
        (λ _. pure-Keeps tt)
  perform-Keeps (fuse_hab d) (is, asked, confirmed) =
      hab-Keeps P _ (fuses d is asked (bytes_equal→eq answer (codes "y") confirmed))
  perform-Keeps (get_console_logs d) (is, asked) =
      bind-Keeps _ _
        (get_log_messages-Keeps P host.gunzip host.vendor_first (host.ask_logs d) fuel _
          (λ c. consoles d c is asked))
        (λ _. pure-Keeps tt)
  perform-Keeps (get_crash_logs d) (is, asked) =
      bind-Keeps _ _
        (get_log_messages-Keeps P host.gunzip host.vendor_first (host.ask_logs d) fuel _
          (λ c. crashes d c is asked))
        (λ _. pure-Keeps tt)
  perform-Keeps (configure d c) (is, asked, same) =
      cfg-Keeps P host.addresses (host.send_configuration d) c (λ valid.
        subst (λ x. AreValid host.addresses x → Keeps P (host.send_configuration d x)) (sym same)
          (configures d is asked) valid)

  -- Whatever holds of the world, and is kept by listing the devices, by opening witnesses and by
  -- the exchanges that are asked for, holds after a run of witnessctl, however that ends. Asked
  -- for are: with witnesses only, the status with -H or -s, fusing with -H and the answer y,
  -- console logs with -l, crash logs with -L, and the configuration that the flags give where its
  -- addresses are valid and none of -H, -s, -l and -L is given.
  pub main-asked : (w : W) → P w → P (main host fuel f answer w).1
  unfolding main
  main-asked w h =
      (bind-Keeps _ _ lists (λ connected.
          bind_at-Keeps _ _ (detect-Keeps P host.open_device f.hid_path connected opens)
            (λ devs v u found.
              run-Keeps P (perform host fuel) f (confirm answer) devs perform-Keeps
                (detect-AllWitnesses host.open_device f.hid_path connected devs v u found)))).at
        w h
