-- ===== src/Hab/Tests.antt =====
-- Secure boot activated on fuses in memory.
use armored_witness_os.Base.{
  ℕ, ◌≡◌, ◌≢◌, inr, ◌==◌, ◌&&◌, if◌then◌else◌, false, refl, [], Bytes, length, replicate, ok, err,
  Result, pure, invalid_srk, bytes_equal,
}
use armored_witness_os.Fuses.{Otp}
use armored_witness_os.Hab.{activate, hab, fuse, srk_size}
use armored_witness_os.Hab.Fused.{Burnt, closed_device, activate-Burnt, activate_refused}

-- What each field was last burnt with, by bank, word and offset.
abbrev pub Fields : Type 0
Fields = ℕ → ℕ → ℕ → Bytes

abbrev burn : ℕ → ℕ → ℕ → Bytes → Fields → Fields
burn bank word off val f b w o = if (b == bank && w == word) && o == off then val else f b w o

abbrev pub fields : Otp Fields
fields = record {
  read_ocotp = λ bank word off size f. (ok (f bank word off), f);
  blow_ocotp = λ bank word off size val f. (ok tt, burn bank word off val f);
}

abbrev pub blank : Fields
blank b w o = []

abbrev pub srk : Bytes
srk = replicate 32 0xab

abbrev pub swap : Bytes → Bytes
swap b = b

abbrev activated : Result (Unit {0}) × Fields
activated = activate fields (pure false) swap srk blank

activated_ok : activated ≡ (ok tt, activated.1)
unfolding activate hab fuse bytes_equal
activated_ok = refl

activate-Burnt_example :
    (v : Fields) × (pure false blank ≡ (ok false, v))
    × (length srk ≡ srk_size)
    × (srk ≢ replicate srk_size 0)
    × Burnt fields (closed_device (swap srk)) v activated.1
activate-Burnt_example = activate-Burnt fields (pure false) swap srk blank activated.1 activated_ok

activate_refused_example :
    activate fields (pure false) swap (replicate 32 0) blank ≡ (err invalid_srk, blank)
activate_refused_example =
    activate_refused fields (pure false) swap (replicate 32 0) blank blank false refl
      (inr (inr refl))
