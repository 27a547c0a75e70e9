-- ===== src/TrustedOs/Lights.antt =====
-- The loops that blink the white LED: `main` of trusted_os/main.go and `blinkenLights` of
-- trusted_os/flash.go.
use armored_witness_os.Base.{ℕ, zero, suc, Bool, true, false, not, List, [], ◌∷◌}

-- The LED, a wait of so many milliseconds, and the scheduler.
pub record Lights (W : Type 0) : Type 0 where
  pub white : Bool → W → W
  pub sleep : ℕ → W → W
  pub gosched : W → W

module _ {W : Type 0} (lights : Lights W) where
  -- So many rounds of main's loop, which does not end.
  unfoldable pub heartbeat : ℕ → Bool → W → W
  heartbeat zero l w = w
  heartbeat (suc k) l w = heartbeat k (not l) (lights.sleep 500 (lights.white l w))

  -- The loop of `blink` in rounds: whether `cancel` has been called by then. The LED is off after it.
  unfoldable pub blink : List Bool → Bool → W → W
  blink [] on w = w
  blink (true ∷ exits) on w = lights.white false w
  blink (false ∷ exits) on w =
      blink exits (not on) (lights.sleep 100 (lights.gosched (lights.white (not on) w)))
