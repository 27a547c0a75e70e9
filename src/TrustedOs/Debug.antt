-- ===== src/TrustedOs/Debug.antt =====
-- trusted_os/debug.go: the console of debug builds, and the trace of an applet that has stopped.
use armored_witness_os.Base.{
  ℕ, ◌%◌, ◌^◌, Bool, true, ◌||◌, List, [], ◌∷◌, ◌++◌, Bytes, bytes_equal, codes, ◌==◌,
  if◌then◌else◌, Option, none, some, Result, ok, err, halt, M, ◌>>=◌, ◌>>◌, pure, lift, when,
  or_fail, symbol_not_found, no_fatalthrow, no_call_on_g0,
}

-- The debug UART, the ring buffer, and the serial port over USB.
pub record Ports (W : Type 0) : Type 0 where
  pub uart_tx : ℕ → W → W
  pub log_write : ℕ → W → W
  pub serial_init : M W (Unit {0})
  pub serial_write : ℕ → W → W

-- `printk`; the flag tells whether `serial` is set.
unfoldable pub printk : {W : Type 0} → Ports W → Bool → ℕ → W → W
printk ports serial c w =
    let w' = ports.log_write c (ports.uart_tx c w) in if serial then ports.serial_write c w' else w'

-- The package ringbuffer, at `logBuffer`.
pub record LogBuffer (W : Type 0) : Type 0 where
  pub new : ℕ → W → W
  pub bytes : W → Bytes

-- `init`: a log of 1 MiB
abbrev pub init : {W : Type 0} → LogBuffer W → W → W
init buffer w = buffer.new (2 ^ 20) w

-- `getConsoleLogs`
abbrev pub get_console_logs : {W : Type 0} → LogBuffer W → W → Bytes
get_console_logs buffer w = buffer.bytes w

-- `configureUART`: `serial` is set before it is initialised.
unfoldable pub configure_uart : {W : Type 0} → Ports W → Bool → M (Bool × W) (Unit {0})
configure_uart ports lan (serial, w) =
    if lan
    then (let done = ports.serial_init w in (done.0, (true, done.1)))
    else (ok tt, (serial, w))

pub record Symbol : Type 0 where
  pub name : Bytes
  pub value : ℕ

pub record Section : Type 0 where
  pub addr : ℕ
  pub contents : Result Bytes

-- The packages debug/elf and debug/gosym; `decimal` is the verb %d.
pub record ElfReader (F L T : Type 0) : Type 0 where
  pub new_file : Bytes → Result F
  pub symbols : F → Result (List Symbol)
  pub section : F → Bytes → Option Section
  pub new_line_table : Bytes → ℕ → L
  pub new_table : Bytes → L → Result T
  pub pc_to_line : T → ℕ → Bytes × ℕ
  pub decimal : ℕ → Bytes

-- An execution context: its registers, and who handles its exceptions.
pub data ContextHandler : Type 0 where
  default_handler os_handler : ContextHandler

pub record ExecCtx : Type 0 where
  pub r0 : ℕ
  pub r1 : ℕ
  pub r2 : ℕ
  pub r3 : ℕ
  pub r13 : ℕ
  pub r14 : ℕ
  pub r15 : ℕ
  pub spsr : ℕ
  pub exception_vector : ℕ
  pub handler : ContextHandler

-- `arm.UNDEFINED`, `arm.PREFETCH_ABORT` and `arm.DATA_ABORT`
pub record Vectors : Type 0 where
  pub undefined : ℕ
  pub prefetch_abort : ℕ
  pub data_abort : ℕ

-- The symbol of a name among those of an image.
abbrev pub find_symbol : Bytes → List Symbol → Result Symbol
find_symbol name [] = err symbol_not_found
find_symbol name (sym ∷ syms) =
    let rest = find_symbol name syms in if bytes_equal sym.name name then ok sym else rest

module _ {F L T : Type 0} (elf : ElfReader F L T) where
  -- A section that is missing is a nil pointer, whose use is a panic.
  abbrev pub section_or_panic : F → Bytes → Result Section
  section_or_panic exe name = elim (elf.section exe name) [ none ↦ halt | some s ↦ ok s ]

  abbrev pub line_of : T → ℕ → Bytes
  line_of table pc =
      let (file, line) = elf.pc_to_line table pc in file ++ codes ":" ++ elf.decimal line

  -- An error leaves the result empty.
  abbrev pub or_empty : Result Bytes → Result Bytes
  or_empty (ok b) = ok b
  or_empty (err e) = ok []
  or_empty halt = halt

  -- What comes of steps that act on no world.
  abbrev result : {A : Type 0} → M (Unit {0}) A → Result A
  result m = (m tt).0

  -- `fileLine`
  unfoldable pub file_line : Bytes → ℕ → Result Bytes
  file_line buf pc = or_empty (
      result (do
        exe ← lift (elf.new_file buf)
        text ← lift (section_or_panic exe (codes ".text"))
        lines ← lift (section_or_panic exe (codes ".gopclntab"))
        line_table_data ← lift lines.contents
        symbols ← lift (section_or_panic exe (codes ".gosymtab"))
        sym_table_data ← lift symbols.contents
        table ← lift (elf.new_table sym_table_data (elf.new_line_table line_table_data text.addr))
        pure (line_of table pc)))

  -- `lookupSym`
  unfoldable pub lookup_sym : Bytes → Bytes → Result Symbol
  lookup_sym buf name =
      result
        (do f ← lift (elf.new_file buf); syms ← lift (elf.symbols f); lift (find_symbol name syms))

  module _ {W : Type 0} (vectors : Vectors) (ta_elf : Bytes)
      (run : M (ExecCtx × W) (Unit {0})) where
    -- The context set up to call `runtime.fatalthrow` on the applet's system stack.
    abbrev pub thrown : Symbol → ExecCtx → ExecCtx
    thrown sym ctx = record ctx {
      r0 = ctx.exception_vector % 2 ^ 32;
      r1 = sym.value % 2 ^ 32;
      r2 = 0;
      r3 = ctx.r15;
    }

    abbrev pub set_ctx : (ExecCtx → ExecCtx) → M (ExecCtx × W) (Unit {0})
    set_ctx f (ctx, w) = (ok tt, (f ctx, w))

    -- `segfault`: the image is that of the embedded applet, whatever the caller gives.
    unfoldable pub segfault : Bytes → M (ExecCtx × W) (Unit {0})
    segfault buf = do
      sym ← or_fail (lift (lookup_sym ta_elf (codes "runtime.fatalthrow"))) no_fatalthrow
      set_ctx (thrown sym)
      sym' ← or_fail (lift (lookup_sym ta_elf (codes "runtime.CallOnG0"))) no_call_on_g0
      set_ctx (λ ctx. record ctx { r15 = sym'.value % 2 ^ 32 })
      run

    abbrev pub faulted : ExecCtx → Bool
    faulted ctx =
        ctx.exception_vector == vectors.undefined
        || ctx.exception_vector == vectors.prefetch_abort
        || ctx.exception_vector == vectors.data_abort

    -- `inspect`
    unfoldable pub inspect : Bytes → M (ExecCtx × W) (Unit {0})
    inspect buf s =
        (do
          pc ← lift (file_line buf s.0.r15)
          lr ← lift (file_line buf s.0.r14)
          when (faulted s.0) (segfault buf))
          s
