-- ===== src/TrustedOs/Rpc/Attempts.antt =====
-- Updates of the OS and of the applet whose calls mix: `InstallOS` and `InstallApplet` of
-- trusted_os/rpc.go.
use armored_witness_os.Base.{
  ◌≡◌, ◌≢◌, ◌∙◌, refl, ap, sym, subst, Bool, true, false, ◌||◌, List, [], ◌∷◌, ◌++◌, append_assoc,
  append-nil, Bytes, length, ◌==◌, if◌then◌else◌, Bool-cases, inl, inr, Option, Result, ok, arith,
}
use armored_witness_os.Disk.{Card}
use armored_witness_os.TrustedOs.Firmware.{
  FirmwareType, firmware_applet, firmware_os, ConfigCodec, Loaded, Bundle, bundle_of,
}
use armored_witness_os.TrustedOs.Rpc.{
  Board, Receiver, FirmwareUpdate, buffer_of, with_buffer, extended, install,
}
use armored_witness_os.TrustedOs.Rpc.Install.{images, verified}

abbrev pub Call : Type 0
Call = FirmwareType × FirmwareUpdate

abbrev pub same_type : FirmwareType → FirmwareType → Bool
same_type firmware_applet firmware_applet = true
same_type firmware_applet firmware_os = false
same_type firmware_os firmware_applet = false
same_type firmware_os firmware_os = true

-- The calls for one type of firmware.
unfoldable pub calls_of : FirmwareType → List Call → List FirmwareUpdate
calls_of t [] = []
calls_of t ((u, b) ∷ cs) = let rest = calls_of t cs in if same_type t u then b ∷ rest else rest

-- Whether some call is of sequence 0.
unfoldable pub restarts : List FirmwareUpdate → Bool
restarts [] = false
restarts (b ∷ bs) = (b.sequence == 0) || restarts bs

-- The calls from the last one of sequence 0, or all.
unfoldable pub since : List FirmwareUpdate → List FirmwareUpdate
since [] = []
since (b ∷ bs) = let later = since bs in if restarts bs then later else b ∷ bs

-- The images of the last attempt, behind what was there if it did not start afresh.
abbrev pub attempt : List FirmwareUpdate → Bytes → Bytes
attempt bs buffer = (if restarts bs then [] else buffer) ++ images (since bs)

all_since : (bs : List FirmwareUpdate) → restarts bs ≡ false → since bs ≡ bs
unfolding since restarts
all_since [] h = refl
all_since (b ∷ bs) h = ground arith

attempt-next :
    (b : FirmwareUpdate) (bs : List FirmwareUpdate) (buffer : Bytes)
    → attempt bs (extended b buffer) ≡ attempt (b ∷ bs) buffer
unfolding since restarts
attempt-next b bs buffer = elim (Bool-cases (restarts bs)) [
  | inl later ↦ elim (Bool-cases (b.sequence == 0)) [
    | inl fresh ↦ rw (later, fresh) refl
    | inr goes_on ↦ rw (later, goes_on) refl
  ]
  | inr last ↦ elim (Bool-cases (b.sequence == 0)) [
    | inl fresh ↦ rw (last, fresh, all_since bs last) refl
    | inr goes_on ↦ rw (last, goes_on, all_since bs last) (append_assoc buffer b.image (images bs))
  ]
]

pub attempt-last :
    (last : FirmwareUpdate) (bs : List FirmwareUpdate) (buffer : Bytes)
    → attempt (bs ++ (last ∷ [])) buffer ≡ extended last (attempt bs buffer)
unfolding since restarts
attempt-last last [] buffer =
    sym (attempt-next last [] buffer)
    ∙ append-nil (extended last buffer)
    ∙ ap (extended last) (sym (append-nil buffer))
attempt-last last (b ∷ bs) buffer =
    sym (attempt-next b (bs ++ (last ∷ [])) buffer)
    ∙ attempt-last last bs (extended b buffer)
    ∙ ap (extended last) (attempt-next b bs buffer)

buffer_of-with_buffer :
    (t u : FirmwareType) (x : Bytes) (r : Receiver)
    → buffer_of t (with_buffer u x r) ≡ (if same_type t u then x else buffer_of t r)
buffer_of-with_buffer firmware_applet firmware_applet x r = refl
buffer_of-with_buffer firmware_applet firmware_os x r = refl
buffer_of-with_buffer firmware_os firmware_applet x r = refl
buffer_of-with_buffer firmware_os firmware_os x r = refl

module _ {A W : Type 0} (board : Board W) (codec : ConfigCodec) (loaded : Loaded)
    (storage : Option (Card W)) (verify : FirmwareType → Bundle → Result A) where
  -- The calls one after the other, whatever each returns.
  unfoldable pub after : List Call → Receiver × W → Receiver × W
  after [] s = s
  after ((t, b) ∷ cs) s = after cs (install board codec loaded storage verify t b s).1

  install-buffer :
      (t : FirmwareType) (b : FirmwareUpdate) (s : Receiver × W)
      → (install board codec loaded storage verify t b s).1.0
        ≡ with_buffer t (extended b (buffer_of t s.0)) s.0
  unfolding install
  install-buffer t b (r, w) = elim (Bool-cases (length b.proof.checkpoint == 0)) [
    | inl open_ended ↦ rw open_ended refl
    | inr closed ↦ rw closed refl
  ]

  -- After any calls for the OS and for the applet, in any order and whatever they returned, the
  -- buffer of each type holds the images of that type's calls from its last call of sequence 0 on,
  -- joined in order; where no call was of sequence 0, behind what the buffer held.
  pub after-attempt :
      (t : FirmwareType) (cs : List Call) (s : Receiver × W)
      → buffer_of t (after cs s).0 ≡ attempt (calls_of t cs) (buffer_of t s.0)
  unfolding after calls_of restarts since
  after-attempt t [] s = sym (append-nil (buffer_of t s.0))
  after-attempt t ((u, b) ∷ cs) s =
      let s' = (install board codec loaded storage verify u b s).1 in
      let kept : buffer_of t s'.0
          ≡ (if same_type t u then extended b (buffer_of u s.0) else buffer_of t s.0) =
        ap (buffer_of t) (install-buffer u b s)
        ∙ buffer_of-with_buffer t u (extended b (buffer_of u s.0)) s.0 in
      after-attempt t cs s' ∙ ap (attempt (calls_of t cs)) kept ∙ joined t u b cs s.0
    where
      joined :
          (t u : FirmwareType) (b : FirmwareUpdate) (cs : List Call) (r : Receiver)
          → attempt
              (calls_of t cs)
              (if same_type t u then extended b (buffer_of u r) else buffer_of t r)
            ≡ attempt (calls_of t ((u, b) ∷ cs)) (buffer_of t r)
      joined firmware_applet firmware_applet b cs r =
          attempt-next b (calls_of firmware_applet cs) (buffer_of firmware_applet r)
      joined firmware_applet firmware_os b cs r = refl
      joined firmware_os firmware_applet b cs r = refl
      joined firmware_os firmware_os b cs r =
          attempt-next b (calls_of firmware_os cs) (buffer_of firmware_os r)

  -- An image is installed only if the verifier accepted all of it: after any calls for the OS and
  -- for the applet, in any order and whatever they returned, a call with a checkpoint that
  -- succeeds has had the verifier accept the bundle of its proof with the images of its type's
  -- calls from the last call of sequence 0 on, its own included, joined in order; where no call
  -- was of sequence 0, behind what the buffer held.
  pub attempt_verified :
      (t : FirmwareType) (cs : List Call) (last : FirmwareUpdate) (s : Receiver × W) (r' : Receiver)
      (w' : W)
      → length last.proof.checkpoint ≢ 0
      → install board codec loaded storage verify t last (after cs s) ≡ (ok tt, (r', w'))
      → (a : A) × (verify t
            (bundle_of (attempt (calls_of t cs ++ (last ∷ [])) (buffer_of t s.0)) last.proof)
          ≡ ok a)
  attempt_verified t cs last s r' w' closed h =
      let s1 = after cs s in
      subst (λ x. (a : A) × (verify t (bundle_of x last.proof) ≡ ok a))
        (ap (extended last) (after-attempt t cs s)
          ∙ sym (attempt-last last (calls_of t cs) (buffer_of t s.0)))
        (verified board codec loaded storage verify t last s1.0 r' s1.1 w' closed h)
