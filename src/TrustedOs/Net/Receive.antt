-- ===== src/TrustedOs/Net/Receive.antt =====
-- The receive queue of trusted_os/net.go.
use armored_witness_os.Base.{
  ℕ, zero, suc, ◌-◌, ◌≤◌, ◌<◌, ◌≡◌, ◌∙◌, refl, ap, List, [], ◌∷◌, ◌++◌, Bytes, length, take, ltb,
  length-append, append_assoc, append-nil, some, Bool-cases, inl, inr, arith, ltb→lt, not_ltb→le,
}
use armored_witness_os.TrustedOs.Net.{Queues, async_rx, offer, rx_queue_size}

-- The packets that interrupts bring, one after the other.
unfoldable pub async_rx_all : List Bytes → Queues → Queues
async_rx_all [] n = n
async_rx_all (b ∷ bs) n = async_rx_all bs (async_rx b n)

offers : List Bytes → List Bytes → List Bytes
offers q [] = q
offers q (b ∷ bs) = offers (offer rx_queue_size q b) bs

take_none : (n : ℕ) → take {A = Bytes} n [] ≡ []
take_none zero = refl
take_none (suc n) = refl

room_shrinks :
    (q : List Bytes) (b : Bytes)
    → length q < rx_queue_size
    → rx_queue_size - length q ≡ suc (rx_queue_size - length (q ++ (b ∷ [])))
room_shrinks q b h = omega (arith, length-append q (b ∷ []))

offers-take :
    (bs q : List Bytes)
    → length q ≤ rx_queue_size
    → offers q bs ≡ q ++ take (rx_queue_size - length q) bs
unfolding offers
offers-take [] q h = rw (take_none (rx_queue_size - length q), append-nil)
offers-take (b ∷ bs) q h = elim (Bool-cases (ltb (length q) rx_queue_size)) [
  | inl room ↦
      let free = ltb→lt (length q) rx_queue_size room in
      rw (room, room_shrinks q b free)
        (offers-take bs (q ++ (b ∷ [])) (omega (arith, length-append q (b ∷ [])))
          ∙ append_assoc q (b ∷ []) _)
  | inr full ↦
      let none_free : rx_queue_size - length q ≡ 0 =
        omega (arith, not_ltb→le (length q) rx_queue_size full) in
      rw full (offers-take bs q h ∙ rw (none_free) refl)
]

async_rx_all-offers :
    (bs q : List Bytes) (n : Queues)
    → n.rx_queue ≡ some q
    → (async_rx_all bs n).rx_queue ≡ some (offers q bs)
unfolding async_rx_all async_rx offers
async_rx_all-offers [] q n h = h
async_rx_all-offers (b ∷ bs) q n h =
    async_rx_all-offers bs (offer rx_queue_size q b) (async_rx b n) (rw h)

-- Packets that arrive at a queue of at most 1000 are queued in order behind what waits, as many as
-- there is room for up to 1000, and the rest are dropped.
pub async_rx_all-take :
    (bs q : List Bytes) (n : Queues)
    → n.rx_queue ≡ some q
    → length q ≤ rx_queue_size
    → (async_rx_all bs n).rx_queue ≡ some (q ++ take (rx_queue_size - length q) bs)
async_rx_all-take bs q n h fits = async_rx_all-offers bs q n h ∙ ap some (offers-take bs q fits)
