-- ===== src/TrustedOs/Net/Deliver.antt =====
-- Packets from the LAN to the applet: the interrupt handler and `rxFromApplet` of trusted_os/net.go.
use armored_witness_os.Base.{
  ℕ, zero, suc, ◌≤◌, ◌<◌, none, ◌≡◌, ◌∙◌, refl, sym, ap, List, [], ◌∷◌, ◌++◌, append_assoc,
  append-nil, Bytes, length, take_all, le→not_ltb, some, ok, M, ◌>>=◌, pure, arith,
}
use armored_witness_os.TrustedOs.Net.{
  Queues, Context, async_rx, rx_queue_size, deliver, rx_from_applet,
}
use armored_witness_os.TrustedOs.Net.Start.{Lan, serve_lan}
use armored_witness_os.TrustedOs.Net.Receive.{async_rx_all, async_rx_all-take}

abbrev pub Fit : ℕ → List Bytes → Type 0
Fit size [] = Unit
Fit size (b ∷ bs) = (length b ≤ size) × Fit size bs

-- An applet that always offers a region of one size, and what has been written there.
pub record Receives {W : Type 0} (ctx : Context W) (size : ℕ) (received : W → List Bytes)
    : Type 0 where
  pub region :
      (w : W)
      → (off : ℕ) × (v : W) × (ctx.transfer_region w ≡ (ok (off, size), v))
        × (received v ≡ received w)
  pub memory :
      (off : ℕ) (b : Bytes) (w : W)
      → (v : W) × (ctx.write_memory off b w ≡ (ok tt, v)) × (received v ≡ received w ++ (b ∷ []))
  pub answered : (n : ℕ) (w : W) → (v : W) × (ctx.ret n w ≡ (ok tt, v)) × (received v ≡ received w)

-- A LAN controller that gives the frames that are pending, oldest first, and touches nothing of the
-- applet's.
pub record IsLan {W : Type 0} (nic : Lan W) (pending received : W → List Bytes) : Type 0 where
  pub none_left :
      (w : W) → pending w ≡ [] → (v : W) × (nic.rx w ≡ (none, v)) × (received v ≡ received w)
  pub first :
      (b : Bytes) (bs : List Bytes) (w : W)
      → pending w ≡ b ∷ bs
      → (v : W) × (nic.rx w ≡ (some b, v)) × (pending v ≡ bs) × (received v ≡ received w)
  pub clear :
      (w : W)
      → (pending (nic.clear_interrupt w) ≡ pending w)
        × (received (nic.clear_interrupt w) ≡ received w)

module _ {W : Type 0} (ctx : Context W) where
  -- As many system calls RX of the applet.
  unfoldable pub rx_calls : ℕ → M (Queues × W) (Unit {0})
  rx_calls zero = pure tt
  rx_calls (suc k) = rx_from_applet ctx >>= λ _. rx_calls k

module _ {W : Type 0} (ctx : Context W) (size : ℕ) (received : W → List Bytes)
    (applet : Receives ctx size received) where
  deliver_lem :
      (b : Bytes) (w : W)
      → length b ≤ size
      → (v : W) × (deliver ctx b w ≡ (ok tt, v)) × (received v ≡ received w ++ (b ∷ []))
  unfolding deliver
  deliver_lem b w fits =
      let (off, w1, e1, k1) = applet.region w in
      let (w2, e2, k2) = applet.memory off b w1 in
      let (w3, e3, k3) = applet.answered (length b) w2 in
      (w3, rw (e1, le→not_ltb size (length b) fits, e2, e3), k3 ∙ k2 ∙ ap (λ r. r ++ (b ∷ [])) k1)

  rx_calls-deliver :
      (q : List Bytes) (n : Queues) (w : W)
      → n.rx_queue ≡ some q
      → Fit size q
      → (w' : W) × (rx_calls ctx (length q) (n, w) ≡ (ok tt, (record n { rx_queue = some [] }, w')))
        × (received w' ≡ received w ++ q)
  unfolding rx_calls rx_from_applet
  rx_calls-deliver [] n w e fits =
      (w, ap (λ r. (ok tt, (record n { rx_queue = r }, w))) e, sym (append-nil (received w)))
  rx_calls-deliver (b ∷ q) n w e fits =
      let (v, sent, got) = deliver_lem b w fits.0 in
      let (w', done, all) = rx_calls-deliver q (record n { rx_queue = some q }) v refl fits.1 in
      (w', rw (e, sent) done, all ∙ ap (λ r. r ++ q) got ∙ append_assoc (received w) (b ∷ []) q)

  module _ (nic : Lan W) (pending : W → List Bytes) (frames : IsLan nic pending received) where
    -- The handler queues the frames that are pending, one after the other.
    serve_lan-pending :
        (bs : List Bytes) (k : ℕ) (n : Queues) (w : W)
        → pending w ≡ bs
        → length bs < k
        → (v : W) × (serve_lan nic k (n, w) ≡ (ok tt, (async_rx_all bs n, v)))
          × (received v ≡ received w)
    unfolding serve_lan async_rx_all
    serve_lan-pending bs zero n w e h = ground arith
    serve_lan-pending [] (suc k) n w e h =
        let (v, taken, same) = frames.none_left w e in (v, rw taken, same)
    serve_lan-pending (b ∷ bs) (suc k) n w e h =
        let (v, taken, left, same) = frames.first b bs w e in
        let (left', same') = frames.clear v in
        let (u, served, kept) =
          serve_lan-pending bs k (async_rx b n) (nic.clear_interrupt v) (left' ∙ left)
            (omega arith) in
        (u, rw taken served, kept ∙ same' ∙ same)

    -- Frames that are pending at an interrupt of the LAN, at most 1000, when the receive queue is empty,
    -- each within the region that the applet offers: the interrupt's handler and as many calls of RX
    -- bring all of them to the applet, in order, and leave the queue empty.
    pub serve_lan-received :
        (bs : List Bytes) (k : ℕ) (n : Queues) (w : W)
        → pending w ≡ bs
        → n.rx_queue ≡ some []
        → length bs ≤ rx_queue_size
        → Fit size bs
        → length bs < k
        → (n' : Queues) × (w' : W) × ((serve_lan nic k >>= λ _. rx_calls ctx (length bs)) (n, w)
            ≡ (ok tt, (n', w')))
          × (n'.rx_queue ≡ some [])
          × (received w' ≡ received w ++ bs)
    serve_lan-received bs k n w there empty room fits enough =
        let queued =
          async_rx_all-take bs [] n empty (omega arith)
          ∙ ap some (take_all rx_queue_size bs room) in
        let (v, served, same) = serve_lan-pending bs k n w there enough in
        let (w', done, all) = rx_calls-deliver bs (async_rx_all bs n) v queued fits in
        (
          record (async_rx_all bs n) { rx_queue = some [] },
          w',
          rw served done,
          refl,
          all ∙ ap (λ r. r ++ bs) same,
        )
