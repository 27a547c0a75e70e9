-- ===== src/TrustedOs/Net.antt =====
-- trusted_os/net.go: packets between the network and the applet.
pub mod Receive
pub mod Start
pub mod Deliver
pub mod Flow
pub mod Order
use armored_witness_os.Base.{
  ℕ, Bool, true, false, [], ◌∷◌, ◌++◌, List, Bytes, length, ltb, if◌then◌else◌, Option, none, some,
  Result, ok, err, halt, M, ◌>>=◌, ◌>>◌, pure, fail, invalid_transfer_size,
}

abbrev pub rx_queue_size : ℕ
rx_queue_size = 1000

abbrev pub tx_queue_size : ℕ
tx_queue_size = 1000

-- The two channels, oldest first; each is `none` before it is made.
pub record Queues : Type 0 where
  pub rx_queue : Option (List Bytes)
  pub tx_queue : Option (List Bytes)

abbrev pub offer : ℕ → List Bytes → Bytes → List Bytes
offer size q buf = if ltb (length q) size then q ++ (buf ∷ []) else q

-- `asyncRx`: a packet that finds the queue full, or no queue, is dropped.
unfoldable pub async_rx : Bytes → Queues → Queues
async_rx buf n = elim n.rx_queue [
  | none ↦ n
  | some q ↦ record n { rx_queue = some (offer rx_queue_size q buf) }
]

abbrev pub poll : Option (List Bytes) → Option (Bytes × List Bytes)
poll none = none
poll (some []) = none
poll (some (b ∷ q)) = some (b, q)

-- `asyncTx`: nil if there is no packet.
unfoldable pub async_tx : Queues → Option Bytes × Queues
async_tx n = elim (poll n.tx_queue) [
  | none ↦ (none, n)
  | some (b, q) ↦ (some b, record n { tx_queue = some q })
]

-- The applet's context: its transfer region, its memory and its return register.
pub record Context (W : Type 0) : Type 0 where
  pub transfer_region : M W (ℕ × ℕ)
  pub write_memory : ℕ → Bytes → M W (Unit {0})
  pub read_memory : ℕ → ℕ → M W Bytes
  pub ret : ℕ → M W (Unit {0})

-- Where packets go: to a LAN controller, to the queue of the USB gadget, or nowhere.
pub data Link (W : Type 0) : Type 0 where
  lan : (Bytes → M W (Unit {0})) → Link W
  usb : Link W
  neither : Link W

module _ {W : Type 0} (ctx : Context W) where
  abbrev pub on_queues : {A : Type 0} → M W A → M (Queues × W) A
  on_queues m (n, w) = let done = m w in (done.0, (n, done.1))

  -- What `rxFromApplet` does with a packet.
  unfoldable pub deliver : Bytes → M W (Unit {0})
  deliver buf = do
    (off, n) ← ctx.transfer_region
    if ltb n (length buf)
        then fail invalid_transfer_size
        else (do ctx.write_memory off buf; ctx.ret (length buf))

  -- `rxFromApplet`: the packet is off the queue before anything of the transfer is checked.
  unfoldable pub rx_from_applet : M (Queues × W) (Unit {0})
  rx_from_applet (n, w) = elim (poll n.rx_queue) [
    | none ↦ on_queues (ctx.ret 0) (n, w)
    | some (b, q) ↦ on_queues (deliver b) (record n { rx_queue = some q }, w)
  ]

  -- `txQueue <- buf` waits for room (`halt`: the handler does not return).
  abbrev pub send : Bytes → M (Queues × W) (Unit {0})
  send buf (n, w) = elim n.tx_queue [
    | none ↦ (halt, (n, w))
    | some q ↦
        if ltb (length q) tx_queue_size
        then (ok tt, (record n { tx_queue = some (q ++ (buf ∷ [])) }, w))
        else (halt, (n, w))
  ]

  abbrev pub transmit : Link W → Bytes → M (Queues × W) (Unit {0})
  transmit (lan tx) buf = on_queues (tx buf)
  transmit usb buf = send buf
  transmit neither buf = pure tt

  -- `txFromApplet`
  unfoldable pub tx_from_applet : Link W → M (Queues × W) (Unit {0})
  tx_from_applet link = do
    (off, n) ← on_queues ctx.transfer_region
    buf ← on_queues (ctx.read_memory off n)
    transmit link buf
