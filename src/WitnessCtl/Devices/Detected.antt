-- ===== src/WitnessCtl/Devices/Detected.antt =====
-- The devices that witnessctl finds are witnesses: detect of usb.go and witnessctl.go
-- (cmd/witnessctl).
use armored_witness_os.Base.{
  ◌≡◌, inl, inr, refl, sym, ap, subst, true, Bool-cases, List, [], ◌∷◌, Bytes, Option, some, none,
  length, ltb, ◌==◌, bytes_equal, ok, M, unbind, Keeps, if-Keeps, fail-Keeps, pure-Keeps,
  bind-Keeps, no_devices,
}
use armored_witness_os.WitnessCtl.Devices.{
  DeviceInfo, is_witness, open_witnesses, find_path, choose, detect,
}
use armored_witness_os.WitnessCtl.Devices.Choice.{witnesses, open_witnesses-witnesses}

-- All of the devices are witnesses.
abbrev pub AllWitnesses : List DeviceInfo → Type 0
AllWitnesses [] = Unit
AllWitnesses (d ∷ ds) = (is_witness d ≡ true) × AllWitnesses ds

witnesses-AllWitnesses : (ds : List DeviceInfo) → AllWitnesses (witnesses ds)
witnesses-AllWitnesses [] = tt
witnesses-AllWitnesses (d ∷ ds) = elim (Bool-cases (is_witness d)) [
  | inl yes_it_is ↦ rw yes_it_is (yes_it_is, witnesses-AllWitnesses ds)
  | inr no_it_is_not ↦ rw no_it_is_not (witnesses-AllWitnesses ds)
]

find_path-is_witness :
    (path : Bytes) (ds : List DeviceInfo) (d : DeviceInfo)
    → AllWitnesses ds
    → find_path path ds ≡ some d
    → is_witness d ≡ true
unfolding find_path
find_path-is_witness path [] d all h = cc
find_path-is_witness path (x ∷ ds) d (is, all) h = elim (Bool-cases (bytes_equal x.path path)) [
  | inl same ↦ let found : x ≡ d = cc (rw same at h) in subst (λ y. is_witness y ≡ true) found is
  | inr other ↦ find_path-is_witness path ds d all (rw other at h)
]

chosen-AllWitnesses :
    (path : Bytes) (ds : List DeviceInfo) (q : Option DeviceInfo)
    → find_path path ds ≡ q
    → AllWitnesses ds
    → AllWitnesses (choose path ds)
unfolding choose
chosen-AllWitnesses path ds (some d) found all = elim (Bool-cases (ltb 0 (length path))) [
  | inl given ↦ rw (given, found) (find_path-is_witness path ds d all found, tt)
  | inr none_given ↦ rw none_given all
]
chosen-AllWitnesses path ds none missing all = elim (Bool-cases (ltb 0 (length path))) [
  | inl given ↦ rw (given, missing) all
  | inr none_given ↦ rw none_given all
]

pub detect-AllWitnesses :
    {W : Type 0} (open_device : DeviceInfo → M W (Unit {0})) (path : Bytes)
    (connected devs : List DeviceInfo) (w v : W)
    → detect (open_witnesses open_device connected) path w ≡ (ok devs, v)
    → AllWitnesses devs
unfolding detect
detect-AllWitnesses open_device path connected devs w v h =
    unbind (open_witnesses open_device connected) _ w h λ found u e k.
      let all =
        subst AllWitnesses (sym (open_witnesses-witnesses open_device connected found w u e))
          (witnesses-AllWitnesses connected) in
      elim (Bool-cases (length found == 0)) [
        | inl empty ↦ absurd (cc (ap (λ r. r.0) (rw empty at k)))
        | inr some_found ↦
            let same : choose path found ≡ devs = cc (ap (λ r. r.0) (rw some_found at k)) in
            subst AllWitnesses same (chosen-AllWitnesses path found _ refl all)
      ]

module _ {W : Type 0} (P : W → Type 0) where
  open_witnesses-Keeps :
      (open_device : DeviceInfo → M W (Unit {0})) (ds : List DeviceInfo)
      → ((d : DeviceInfo) → is_witness d ≡ true → Keeps P (open_device d))
      → Keeps P (open_witnesses open_device ds)
  unfolding open_witnesses
  open_witnesses-Keeps open_device [] opens = pure-Keeps []
  open_witnesses-Keeps open_device (d ∷ ds) opens = elim (Bool-cases (is_witness d)) [
    | inl yes_it_is ↦ rw yes_it_is (
        bind-Keeps _ _ (opens d yes_it_is) (λ _.
          bind-Keeps _ _ (open_witnesses-Keeps open_device ds opens)
            (λ found. pure-Keeps (d ∷ found))))
    | inr no_it_is_not ↦ rw no_it_is_not (open_witnesses-Keeps open_device ds opens)
  ]

  pub detect-Keeps :
      (open_device : DeviceInfo → M W (Unit {0})) (path : Bytes) (ds : List DeviceInfo)
      → ((d : DeviceInfo) → is_witness d ≡ true → Keeps P (open_device d))
      → Keeps P (detect (open_witnesses open_device ds) path)
  unfolding detect
  detect-Keeps open_device path ds opens =
      bind-Keeps _ _ (open_witnesses-Keeps open_device ds opens) (λ devs.
        if-Keeps (length devs == 0) _ _ (fail-Keeps no_devices) (pure-Keeps (choose path devs)))
