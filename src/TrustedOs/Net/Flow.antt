-- ===== src/TrustedOs/Net/Flow.antt =====
-- Packets between a USB network and the applet, in any order of events: trusted_os/net.go.
use armored_witness_os.Base.{
  ℕ, ◌+◌, ◌-◌, ◌<◌, ◌≡◌, ◌∙◌, refl, ap, List, [], ◌∷◌, ◌++◌, append_assoc, Bytes, length, ltb,
  lt→ltb, Bool-cases, inl, inr, if◌then◌else◌, some, none, ok, M, ◌>>=◌, pure, Option,
}
use armored_witness_os.TrustedOs.Net.{
  Queues, Context, usb, async_rx, async_tx, rx_queue_size, tx_queue_size, deliver, rx_from_applet,
  tx_from_applet,
}

-- What happens: a packet arrives from the network, the applet receives or sends one, the network
-- takes one.
pub data Moment : Type 0 where
  arrives : Bytes → Moment
  receives sends takes : Moment

abbrev pub listed : Option Bytes → List Bytes
listed none = []
listed (some b) = b ∷ []

-- The moments one after the other, with the packets that the network takes. An error of the
-- receiving call is the applet's.
unfoldable pub happens : {W : Type 0} → Context W → List Moment → M (Queues × W) (List Bytes)
happens ctx [] s = (ok [], s)
happens ctx (arrives b ∷ ms) (n, w) = happens ctx ms (async_rx b n, w)
happens ctx (receives ∷ ms) s = happens ctx ms (rx_from_applet ctx s).1
happens ctx (sends ∷ ms) s = (tx_from_applet ctx usb >>= λ _. happens ctx ms) s
happens ctx (takes ∷ ms) (n, w) =
    (happens ctx ms >>= λ out. pure (listed (async_tx n).0 ++ out)) ((async_tx n).1, w)

-- The packets that arrive where fewer than 1000 wait, from so many that wait.
unfoldable pub accepted : ℕ → List Moment → List Bytes
accepted k [] = []
accepted k (arrives b ∷ ms) =
    let rest = accepted (if ltb k rx_queue_size then k + 1 else k) ms in
    if ltb k rx_queue_size then b ∷ rest else rest
accepted k (receives ∷ ms) = accepted (k - 1) ms
accepted k (sends ∷ ms) = accepted k ms
accepted k (takes ∷ ms) = accepted k ms

-- The applet sends only where fewer than 1000 packets wait for the network, from so many that wait.
abbrev pub Roomy : ℕ → List Moment → Type 0
Roomy k [] = Unit
Roomy k (arrives b ∷ ms) = Roomy k ms
Roomy k (receives ∷ ms) = Roomy k ms
Roomy k (sends ∷ ms) = (k < tx_queue_size) × Roomy (k + 1) ms
Roomy k (takes ∷ ms) = Roomy (k - 1) ms

-- The packets that fit a region.
unfoldable pub fitting : ℕ → List Bytes → List Bytes
fitting size [] = []
fitting size (b ∷ bs) = let rest = fitting size bs in if ltb size (length b) then rest else b ∷ rest

-- An applet that offers regions of one size, with the packets that were written there and that were
-- read from there.
pub record Exchanges {W : Type 0} (ctx : Context W) (size : ℕ) (received handed : W → List Bytes)
    : Type 0 where
  pub region :
      (w : W)
      → (off : ℕ) × (v : W) × (ctx.transfer_region w ≡ (ok (off, size), v))
        × (received v ≡ received w)
        × (handed v ≡ handed w)
  pub written :
      (off : ℕ) (b : Bytes) (w : W)
      → (v : W) × (ctx.write_memory off b w ≡ (ok tt, v))
        × (received v ≡ received w ++ (b ∷ []))
        × (handed v ≡ handed w)
  pub read :
      (off n : ℕ) (w : W)
      → (b : Bytes) × (v : W) × (ctx.read_memory off n w ≡ (ok b, v))
        × (received v ≡ received w)
        × (handed v ≡ handed w ++ (b ∷ []))
  pub answered :
      (n : ℕ) (w : W)
      → (v : W) × (ctx.ret n w ≡ (ok tt, v)) × (received v ≡ received w) × (handed v ≡ handed w)

module _ {W : Type 0} (ctx : Context W) (size : ℕ) (received handed : W → List Bytes)
    (applet : Exchanges ctx size received handed) where
  -- What a call of RX does with a packet: the applet has it if it fits.
  pub deliver_lem :
      (b : Bytes) (w : W) (rs : List Bytes)
      → (received (deliver ctx b w).1 ++ fitting size rs ≡ received w ++ fitting size (b ∷ rs))
        × (handed (deliver ctx b w).1 ≡ handed w)
  unfolding deliver fitting
  deliver_lem b w rs =
      let (off, w1, e1, r1, h1) = applet.region w in
      let (w2, e2, r2, h2) = applet.written off b w1 in
      let (w3, e3, r3, h3) = applet.answered (length b) w2 in
      elim (Bool-cases (ltb size (length b))) [
        | inl large ↦ rw (e1, large) (ap (λ x. x ++ fitting size rs) r1, h1)
        | inr fits ↦
            rw (e1, fits, e2, e3)
              (
                ap (λ x. x ++ fitting size rs) (r3 ∙ r2 ∙ ap (λ x. x ++ (b ∷ [])) r1)
                    ∙ append_assoc (received w) (b ∷ []) (fitting size rs),
                h3 ∙ h2 ∙ h1,
              )
      ]

  -- What a call of TX does where there is room.
  pub send_lem :
      (n : Queues) (w : W) (q : List Bytes)
      → n.tx_queue ≡ some q
      → length q < tx_queue_size
      → (b : Bytes) × (v : W) × (tx_from_applet ctx usb (n, w)
          ≡ (ok tt, (record n { tx_queue = some (q ++ (b ∷ [])) }, v)))
        × (received v ≡ received w)
        × (handed v ≡ handed w ++ (b ∷ []))
  unfolding tx_from_applet
  send_lem n w q there room =
      let (off, w1, e1, r1, h1) = applet.region w in
      let (b, w2, e2, r2, h2) = applet.read off size w1 in
      (
        b,
        w2,
        rw (e1, e2, there, lt→ltb (length q) tx_queue_size room) refl,
        r2 ∙ r1,
        h2 ∙ ap (λ x. x ++ (b ∷ [])) h1,
      )
