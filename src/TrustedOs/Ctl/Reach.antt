-- ===== src/TrustedOs/Ctl/Reach.antt =====
-- The state that the calls of trusted_os/rpc.go and the requests of trusted_os/ctl.go can bring about,
-- in any order.
use armored_witness_os.Base.{
  ◌≡◌, ◌∙◌, ◌⊎◌, inl, inr, refl, sym, ap, subst, Bool, Bool-cases, Bytes, length, ◌==◌, Option,
  Result, ok, err, halt, M, next-keeps, ◌>>◌,
}
use armored_witness_os.Disk.{Card}
use armored_witness_os.TrustedOs.Firmware.{
  FirmwareType, firmware_applet, firmware_os, ConfigCodec, Loaded, Bundle,
}
use armored_witness_os.TrustedOs.Rpc.{
  Board, Receiver, EventHandler, WitnessStatus, FirmwareUpdate, io, register, set_witness_status,
  config, install, with_buffer,
}
use armored_witness_os.TrustedOs.Rpc.Guards.{IsAppletAddress, register_lem}
use armored_witness_os.TrustedOs.Ctl
use armored_witness_os.TrustedOs.Ctl.{Response, answer}

module _ {A W : Type 0} (board : Board W) (codec : ConfigCodec) (loaded : Loaded)
    (storage : Option (Card W)) (verify : FirmwareType → Bundle → Result A) where
  -- One call of the applet, however it ends. A call that is not named acts on the world beside the
  -- receiver.
  pub data Call (s t : Receiver × W) : Type 0 where
    registers : (h : EventHandler) → t ≡ (register h s).1 → Call s t
    sets_status : (x : WitnessStatus) → t ≡ (set_witness_status x s).1 → Call s t
    configures :
        (current : Bytes) (wanted : Bool) → t ≡ (config board current wanted s).1 → Call s t
    installs :
        (ty : FirmwareType) (b : FirmwareUpdate)
        → t ≡ (install board codec loaded storage verify ty b s).1
        → Call s t
    acts : (m : M W (Unit {0})) → t ≡ (io m s).1 → Call s t

  pub data Calls (s : Receiver × W) : Receiver × W → Type 0 where
    no_more : Calls s s
    then_call : {t u : Receiver × W} → Calls s t → Call t u → Calls s u

  -- The event handler is the one there is before any is registered, or lies in the applet's memory.
  abbrev pub IsConfined : EventHandler → Type 0
  IsConfined h = ((h.g ≡ 0) × (h.p ≡ 0)) ⊎ (IsAppletAddress h.g × IsAppletAddress h.p)

  -- What is said of the handler is kept where the handler is.
  kept :
      (s t : Receiver × W)
      → t.0.handler ≡ s.0.handler
      → IsConfined s.0.handler
      → IsConfined t.0.handler
  kept s t e c = subst IsConfined (sym e) c

  config-handler :
      (current : Bytes) (wanted : Bool) (s : Receiver × W)
      → (config board current wanted s).1.0.handler ≡ s.0.handler
  unfolding config
  config-handler current wanted (r, w) = elim (Bool-cases (length r.cfg == 0)) [
    | inl first ↦ rw first (
        next-keeps (λ s. s.0.handler ≡ r.handler) _
          (io board.net_start (record r { cfg = current }, w)) refl (λ _ v h. h))
    | inr again ↦ rw again
  ]

  with_buffer-handler :
      (ty : FirmwareType) (b : Bytes) (r : Receiver) → (with_buffer ty b r).handler ≡ r.handler
  with_buffer-handler firmware_os b r = refl
  with_buffer-handler firmware_applet b r = refl

  install-handler :
      (ty : FirmwareType) (b : FirmwareUpdate) (s : Receiver × W)
      → (install board codec loaded storage verify ty b s).1.0.handler ≡ s.0.handler
  unfolding install
  install-handler ty b (r, w) = elim (Bool-cases (length b.proof.checkpoint == 0)) [
    | inl open_ended ↦ rw open_ended (with_buffer-handler ty _ r)
    | inr closed ↦ rw closed (with_buffer-handler ty _ r)
  ]

  register-IsConfined :
      (h : EventHandler) (s : Receiver × W)
      → IsConfined s.0.handler
      → IsConfined (register h s).1.0.handler
  register-IsConfined h (r, w) c = elim (register_lem h r w) [
    | inl (g, p, done) ↦ subst (λ x. IsConfined x.1.0.handler) (sym done) (inr (g, p))
    | inr (_, refused) ↦ subst (λ x. IsConfined x.1.0.handler) (sym refused) c
  ]

  Call-IsConfined :
      (s t : Receiver × W) → Call s t → IsConfined s.0.handler → IsConfined t.0.handler
  unfolding set_witness_status
  Call-IsConfined s t (registers h e) c =
      subst (λ x. IsConfined x.0.handler) (sym e) (register-IsConfined h s c)
  Call-IsConfined s t (sets_status x e) c = kept s t (ap (λ y. y.0.handler) e) c
  Call-IsConfined s t (configures current wanted e) c =
      kept s t (ap (λ y. y.0.handler) e ∙ config-handler current wanted s) c
  Call-IsConfined s t (installs ty b e) c =
      kept s t (ap (λ y. y.0.handler) e ∙ install-handler ty b s) c
  Call-IsConfined s t (acts m e) c = kept s t (ap (λ y. y.0.handler) e) c

  Calls-IsConfined :
      (s t : Receiver × W) → Calls s t → IsConfined s.0.handler → IsConfined t.0.handler
  Calls-IsConfined s t no_more c = c
  Calls-IsConfined s t (then_call {t = v} calls call) c =
      Call-IsConfined v t call (Calls-IsConfined s v calls c)

  answer-world : (r : Result (Unit {0}) × (Receiver × W)) → (answer r).1 ≡ r.1
  answer-world (ok u, s) = refl
  answer-world (err e, s) = refl
  answer-world (halt, s) = refl

  -- An applet that is loaded changes the receiver by its calls only, however it ends.
  module _ (load_applet : M (Receiver × W) (Unit {0}))
      (loads : (s : Receiver × W) → Calls s (load_applet s).1) where
    -- One call of the applet, or one request over USB, however it ends.
    pub data Step (s t : Receiver × W) : Type 0 where
      called : Call s t → Step s t
      is_configured :
          (running : Bool) (req : Bytes)
          → t ≡ (Ctl.config board load_applet running req s).1
          → Step s t

    pub data Reach (s : Receiver × W) : Receiver × W → Type 0 where
      here : Reach s s
      later : {t u : Receiver × W} → Reach s t → Step t u → Reach s u

    is_configured-IsConfined :
        (running : Bool) (req : Bytes) (s : Receiver × W)
        → IsConfined s.0.handler
        → IsConfined (Ctl.config board load_applet running req s).1.0.handler
    unfolding Ctl.config
    is_configured-IsConfined running req (r, w) c = elim (Bool-cases (length req == 0)) [
      | inl blank ↦ rw blank c
      | inr given ↦ elim (Bool-cases running) [
        | inl on ↦
            rw (given, on)
              (subst (λ s. IsConfined s.0.handler) (sym (answer-world _))
                (next-keeps (λ s. IsConfined s.0.handler) (λ _. load_applet)
                  (io (board.stop >> board.await_done) (record r { cfg = req }, w)) c
                  (λ _ s held. Calls-IsConfined s (load_applet s).1 (loads s) held)))
        | inr off ↦ rw (given, off) c
      ]
    ]

    Step-IsConfined :
        (s t : Receiver × W) → Step s t → IsConfined s.0.handler → IsConfined t.0.handler
    Step-IsConfined s t (called call) c = Call-IsConfined s t call c
    Step-IsConfined s t (is_configured running req e) c =
        subst (λ x. IsConfined x.0.handler) (sym e) (is_configured-IsConfined running req s c)

    -- Where an applet that is loaded changes the receiver by its calls only: whatever calls and
    -- requests come, in any order and however they end, the event handler, where the OS resumes
    -- the applet at an interrupt, is the one before any was registered or lies with both its
    -- addresses in the applet's memory.
    pub Reach-IsConfined :
        (s t : Receiver × W) → Reach s t → IsConfined s.0.handler → IsConfined t.0.handler
    Reach-IsConfined s t here c = c
    Reach-IsConfined s t (later {t = v} r st) c = Step-IsConfined v t st (Reach-IsConfined s v r c)
