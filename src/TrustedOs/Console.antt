-- ===== src/TrustedOs/Console.antt =====
-- trusted_os/console.go: builds without debugging, which print nothing.
use armored_witness_os.Base.{ℕ, [], Bytes, M, pure}

-- The debug UART of the processor and the package log.
pub record Output (W : Type 0) : Type 0 where
  pub uart2_disable : W → W
  pub discard_log : W → W

module _ {W : Type 0} (output : Output W) where
  -- `init`
  unfoldable pub init : W → W
  init w = output.discard_log (output.uart2_disable w)

module _ {W : Type 0} where
  -- `printk`
  abbrev pub printk : ℕ → W → W
  printk c w = w

  -- `inspect`, of an image and a context that it does not read
  abbrev pub inspect : {C : Type 0} → Bytes → C → M W (Unit {0})
  inspect buf ctx = pure tt

  -- `configureUART`
  abbrev pub configure_uart : {D : Type 0} → D → M W (Unit {0})
  configure_uart device = pure tt

-- `getConsoleLogs`
abbrev pub get_console_logs : Bytes
get_console_logs = []
