-- ===== src/TrustedOs/Rpc/Install.antt =====
-- Updates by the calls `InstallOS` and `InstallApplet` of trusted_os/rpc.go.
use armored_witness_os.Base.{
  ◌≡◌, ◌≢◌, ◌∙◌, refl, ap, sym, subst, List, [], ◌∷◌, ◌++◌, append_assoc, append-nil, false, Bytes,
  length, ◌==◌, Option, Result, ok, err, M, ◌>>=◌, pure, lift, unbind, arith,
}
use armored_witness_os.Disk.{Card}
use armored_witness_os.TrustedOs.Firmware.{
  FirmwareType, firmware_applet, firmware_os, ConfigCodec, Loaded, Bundle, bundle_of,
}
use armored_witness_os.TrustedOs.Flash.{update}
use armored_witness_os.TrustedOs.Rpc.{
  Board, Receiver, FirmwareUpdate, buffer_of, with_buffer, extended, install, restart,
}

-- Calls that go on with an update: not of sequence 0, and with no checkpoint yet.
abbrev pub AreChunks : List FirmwareUpdate → Type 0
AreChunks [] = Unit
AreChunks (b ∷ bs) = (b.sequence ≢ 0) × (length b.proof.checkpoint ≡ 0) × AreChunks bs

abbrev pub images : List FirmwareUpdate → Bytes
images [] = []
images (b ∷ bs) = b.image ++ images bs

buffer_of-with_buffer :
    (t : FirmwareType) (buf : Bytes) (r : Receiver) → buffer_of t (with_buffer t buf r) ≡ buf
buffer_of-with_buffer firmware_os buf r = refl
buffer_of-with_buffer firmware_applet buf r = refl

with_buffer_twice :
    (t : FirmwareType) (a b : Bytes) (r : Receiver)
    → with_buffer t b (with_buffer t a r) ≡ with_buffer t b r
with_buffer_twice firmware_os a b r = refl
with_buffer_twice firmware_applet a b r = refl

module _ {A W : Type 0} (board : Board W) (codec : ConfigCodec) (loaded : Loaded)
    (storage : Option (Card W)) (verify : FirmwareType → Bundle → Result A) (t : FirmwareType) where
  abbrev call : FirmwareUpdate → M (Receiver × W) (Unit {0})
  call = install board codec loaded storage verify t

  unfoldable pub install_all : List FirmwareUpdate → M (Receiver × W) (Unit {0})
  install_all [] = pure tt
  install_all (b ∷ bs) = call b >>= λ _. install_all bs

  pub is_closed :
      (b : FirmwareUpdate)
      → length b.proof.checkpoint ≢ 0
      → (length b.proof.checkpoint == 0) ≡ false
  is_closed b h = ground arith

  chunk_call :
      (b : FirmwareUpdate) (r : Receiver) (w : W)
      → length b.proof.checkpoint ≡ 0
      → call b (r, w) ≡ (ok tt, (with_buffer t (extended b (buffer_of t r)) r, w))
  unfolding install
  chunk_call b r w h = rw h

  extended_chunk :
      (b : FirmwareUpdate) (buf : Bytes) → b.sequence ≢ 0 → extended b buf ≡ buf ++ b.image
  extended_chunk b buf h = ground arith

  extended_first : (b : FirmwareUpdate) (buf : Bytes) → b.sequence ≡ 0 → extended b buf ≡ b.image
  extended_first b buf h = ground arith

  chunk_calls :
      (bs : List FirmwareUpdate) (buf : Bytes) (r : Receiver) (w : W)
      → AreChunks bs
      → install_all bs (with_buffer t buf r, w) ≡ (ok tt, (with_buffer t (buf ++ images bs) r, w))
  unfolding install_all
  chunk_calls [] buf r w h = ap (λ b. (ok tt, (with_buffer t b r, w))) (sym (append-nil buf))
  chunk_calls (b ∷ bs) buf r w h =
      rw
        (
          chunk_call b (with_buffer t buf r) w h.1,
          buffer_of-with_buffer,
          extended_chunk b buf h.0,
          with_buffer_twice,
        )
        (chunk_calls bs (buf ++ b.image) r w h.2
          ∙ ap (λ x. (ok tt, (with_buffer t x r, w))) (append_assoc buf b.image (images bs)))

  -- An image that comes in pieces: a call of sequence 0 and any number of calls of other sequence
  -- numbers, none with a checkpoint, leave the pieces joined in order in the buffer of the firmware's
  -- type, whatever was in it before; nothing else of the receiver and nothing of the world has
  -- changed.
  pub install_all-images :
      (first : FirmwareUpdate) (bs : List FirmwareUpdate) (r : Receiver) (w : W)
      → first.sequence ≡ 0
      → length first.proof.checkpoint ≡ 0
      → AreChunks bs
      → install_all (first ∷ bs) (r, w) ≡ (ok tt, (with_buffer t (images (first ∷ bs)) r, w))
  unfolding install_all
  install_all-images first bs r w fresh open_ended chunks =
      rw (chunk_call first r w open_ended, extended_first first (buffer_of t r) fresh)
        (chunk_calls bs first.image r w chunks)

  -- A call with a checkpoint whose bundle the verifier rejects returns the verifier's error with the
  -- world as it was: nothing is written, the applet is not stopped, the device not reset.
  pub install_rejected :
      (b : FirmwareUpdate) (r : Receiver) (w : W) (e : _)
      → length b.proof.checkpoint ≢ 0
      → verify t (bundle_of (extended b (buffer_of t r)) b.proof) ≡ err e
      → call b (r, w) ≡ (err e, (with_buffer t (extended b (buffer_of t r)) r, w))
  unfolding install update
  install_rejected b r w e closed rejected = rw (is_closed b closed, rejected)

  pub verified :
      (b : FirmwareUpdate) (r r' : Receiver) (w w' : W) {u : Unit {0}}
      → length b.proof.checkpoint ≢ 0
      → call b (r, w) ≡ (ok u, (r', w'))
      → (a : A) × (verify t (bundle_of (extended b (buffer_of t r)) b.proof) ≡ ok a)
  unfolding install update
  verified b r r' w w' closed h =
      let buffer = extended b (buffer_of t r) in
      let k = rw (is_closed b closed) at h in
      unbind (update codec loaded (verify t) storage t buffer b.proof)
        (λ _. restart board codec loaded storage verify t) w (λ i. ((k i).0, (k i).1.1))
        λ _ v1 e1 _.
          unbind (lift (verify t (bundle_of buffer b.proof)) >>= λ _. pure tt) _ w e1 λ _ v2 e2 _.
            unbind (lift (verify t (bundle_of buffer b.proof))) _ w e2
              λ a v3 e3 _. (a, ap (λ r. r.0) e3)

  -- An image that came in pieces is installed only if the verifier accepted all of it: if the calls
  -- for the pieces are followed by a call with a checkpoint that succeeds, the verifier has accepted
  -- the bundle of that call's proof with the pieces and the call's image, joined in order.
  pub pieces_verified :
      (first last : FirmwareUpdate) (bs : List FirmwareUpdate) (r r' : Receiver) (w w' : W)
      → first.sequence ≡ 0
      → length first.proof.checkpoint ≡ 0
      → AreChunks bs
      → last.sequence ≢ 0
      → length last.proof.checkpoint ≢ 0
      → (install_all (first ∷ bs) >>= λ _. call last) (r, w) ≡ (ok tt, (r', w'))
      → (a : A) × (verify t (bundle_of (images (first ∷ bs) ++ last.image) last.proof) ≡ ok a)
  pieces_verified first last bs r r' w w' fresh open_ended chunks goes_on closed h =
      let joined = images (first ∷ bs) in
      let r1 = with_buffer t joined r in
      subst (λ x. (a : A) × (verify t (bundle_of x last.proof) ≡ ok a))
        (ap (extended last) (buffer_of-with_buffer t joined r) ∙ extended_chunk last joined goes_on)
        (verified last r1 r' w w' closed
          (rw (install_all-images first bs r w fresh open_ended chunks) at h))
