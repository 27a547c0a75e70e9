-- ===== src/WitnessCtl/Devices/Tests.antt =====
-- The choice among a few devices.
use armored_witness_os.Base.{ℕ, ◌≡◌, suc, refl, List, [], ◌∷◌, ok, M, some, none, bytes_equal}
use armored_witness_os.WitnessCtl.Devices.{DeviceInfo, is_witness, open_witnesses, find_path}

abbrev witness_at : ℕ → DeviceInfo
witness_at n = record { path = n ∷ []; usage_page = 0xff00; vendor = 0x1209; product = 0x2702 }

abbrev keyboard : DeviceInfo
keyboard = record { path = 7 ∷ []; usage_page = 1; vendor = 0x1209; product = 0x2702 }

abbrev connected : List DeviceInfo
connected = witness_at 1 ∷ keyboard ∷ witness_at 2 ∷ []

abbrev opens : DeviceInfo → M ℕ (Unit {0})
opens d w = (ok tt, suc w)

opened : open_witnesses opens connected 0 ≡ (ok (witness_at 1 ∷ witness_at 2 ∷ []), 2)
unfolding open_witnesses is_witness
opened = refl

found : find_path (2 ∷ []) connected ≡ some (witness_at 2)
unfolding find_path bytes_equal
found = refl

missing : find_path (9 ∷ []) connected ≡ none
unfolding find_path bytes_equal
missing = refl
