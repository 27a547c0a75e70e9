-- ===== src/WitnessCtl/Devices/Choice.antt =====
-- Which devices witnessctl acts on.
use armored_witness_os.Base.{
  ◌≡◌, ◌<◌, ◌∙◌, ap, sym, Bool, List, [], ◌∷◌, Bytes, length, bytes_equal, bytes_equal→eq, lt→ltb,
  Bool-cases, inl, inr, some, none, ok, M, unbind, arith, if◌then◌else◌,
}
use armored_witness_os.WitnessCtl.Devices.{
  DeviceInfo, Action, Flags, is_witness, open_witnesses, find_path, choose, run,
}

-- The witnesses of a list.
abbrev pub witnesses : List DeviceInfo → List DeviceInfo
witnesses [] = []
witnesses (d ∷ ds) = if is_witness d then d ∷ witnesses ds else witnesses ds

-- Detection that succeeds has found all the witnesses that are connected, in order, and no other device.
pub open_witnesses-witnesses :
    {W : Type 0} (open_device : DeviceInfo → M W (Unit {0})) (ds found : List DeviceInfo) (w w' : W)
    → open_witnesses open_device ds w ≡ (ok found, w')
    → found ≡ witnesses ds
unfolding open_witnesses
open_witnesses-witnesses open_device [] found w w' h = ground arith
open_witnesses-witnesses open_device (d ∷ ds) found w w' h = elim (Bool-cases (is_witness d)) [
  | inl yes_it_is ↦ unbind (open_device d) _ w (rw yes_it_is at h) λ _ v e k.
      unbind (open_witnesses open_device ds) _ v k λ rest v' e' k'.
        let tail_eq = open_witnesses-witnesses open_device ds rest v v' e' in
        let head_eq : d ∷ rest ≡ found = cc (ap (λ r. r.0) k') in
        rw yes_it_is (sym head_eq ∙ ap (◌∷◌ d) tail_eq)
  | inr other ↦ rw other (open_witnesses-witnesses open_device ds found w w' (rw other at h))
]

find_path-path :
    (path : Bytes) (ds : List DeviceInfo) (d : DeviceInfo)
    → find_path path ds ≡ some d
    → d.path ≡ path
unfolding find_path
find_path-path path [] d h = cc
find_path-path path (x ∷ ds) d h = elim (Bool-cases (bytes_equal x.path path)) [
  | inl same ↦
      let found : x ≡ d = cc (rw same at h) in
      ap (λ y. y.path) (sym found) ∙ bytes_equal→eq x.path path same
  | inr other ↦ find_path-path path ds d (rw other at h)
]

-- With a path at which there is a witness, the tool is limited to one device, at that path.
choose_found :
    (path : Bytes) (devs : List DeviceInfo) (d : DeviceInfo)
    → 0 < length path
    → find_path path devs ≡ some d
    → (choose path devs ≡ d ∷ []) × (d.path ≡ path)
unfolding choose
choose_found path devs d given found =
    (rw (lt→ltb 0 (length path) given, found), find_path-path path devs d found)

-- With a path at which there is no witness, whatever the tool is asked to do, the fusing of a
-- device too, it does as if no path had been given.
choose_missing :
    {W : Type 0} (act : Action → M W (Unit {0})) (flags : Flags) (confirmed : Bool) (path : Bytes)
    (devs : List DeviceInfo)
    → 0 < length path
    → find_path path devs ≡ none
    → run act flags confirmed (choose path devs) ≡ run act flags confirmed (choose [] devs)
unfolding choose
choose_missing act flags confirmed path devs given missing =
    ap (run act flags confirmed) (rw (lt→ltb 0 (length path) given, missing))
