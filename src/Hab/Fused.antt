-- ===== src/Hab/Fused.antt =====
-- What activating secure boot has burnt, and when it burns nothing.
use armored_witness_os.Base.{
  ℕ, ◌≡◌, ◌≢◌, ◌∙◌, ◌⊎◌, inl, inr, ap, ap₂, Bool, if◌then◌else◌, sym, true, false, List, [], ◌∷◌,
  Bytes, length, replicate, bytes_equal, bytes_equal→eq, bytes_equal_refl, Bool-cases, ==_iff, ◌==◌,
  ok, err, M, ◌>>=◌, ◌>>◌, unbind, pure, require-eq-ok, require-world, or_fail, or_fail-eq-ok,
  arith, hab_enabled, invalid_srk, fuse_read_error, fuse_readback_error,
}
use mathlib.Core.Bool.{false≢true}
use armored_witness_os.Fuses.{Otp}
use armored_witness_os.Hab.{Setting, fuse, hab, activate, srk_size}

abbrev setting : ℕ → ℕ → ℕ → ℕ → Bytes → Setting
setting bank word off size val = record {
  bank = bank;
  word = word;
  off = off;
  size = size;
  val = val;
}

-- The fuses of a closed device (IMX6ULRM): the hash of the keys and its lock first, then the closed
-- configuration, then what is disabled: the reserved mode, the JTAG, tracing and serial download.
abbrev pub closed_device : Bytes → List Setting
closed_device srk_hash =
    setting 3 0 0 256 srk_hash
    ∷ setting 0 0 14 1 (1 ∷ [])
    ∷ setting 0 6 0 2 (3 ∷ [])
    ∷ setting 0 6 3 1 (1 ∷ [])
    ∷ setting 0 6 20 1 (1 ∷ [])
    ∷ setting 0 6 22 2 (3 ∷ [])
    ∷ setting 0 6 27 1 (1 ∷ [])
    ∷ setting 0 6 26 1 (1 ∷ [])
    ∷ setting 0 6 18 1 (1 ∷ [])
    ∷ setting 0 7 4 1 (1 ∷ [])
    ∷ []

module _ {W : Type 0} (otp : Otp W) where
  open otp use {read_ocotp, blow_ocotp}

  -- Settings that have been burnt one after the other, each with nothing between it and a reading that
  -- shows its value.
  pub data Burnt : List Setting → W → W → Type 0 where
    none_left : (w : W) → Burnt [] w w
    burn :
        (s : Setting) (ss : List Setting) (w before burnt seen w' : W) (old : Bytes)
        → read_ocotp s.bank s.word s.off s.size w ≡ (ok old, before)
        → blow_ocotp s.bank s.word s.off s.size s.val before ≡ (ok tt, burnt)
        → read_ocotp s.bank s.word s.off s.size burnt ≡ (ok s.val, seen)
        → Burnt ss seen w'
        → Burnt (s ∷ ss) w w'

  fuse-burn :
      (s : Setting) (ss : List Setting) (w v w' : W)
      → fuse otp s.bank s.word s.off s.size s.val w ≡ (ok tt, v)
      → Burnt ss v w'
      → Burnt (s ∷ ss) w w'
  unfolding fuse
  fuse-burn s ss w v w' h rest =
      unbind (or_fail (read_ocotp s.bank s.word s.off s.size) fuse_read_error >>= λ _. pure tt) _ w
        h
        λ _ w1 e1 h1. unbind (blow_ocotp s.bank s.word s.off s.size s.val) _ w1 h1 λ _ w2 e2 h2.
          unbind (or_fail (read_ocotp s.bank s.word s.off s.size) fuse_readback_error) _ w2 h2
            λ res w3 e3 h3.
              unbind (or_fail (read_ocotp s.bank s.word s.off s.size) fuse_read_error) _ w e1
                λ old w0 e0 h0.
                  burn s ss w w1 w2 v w' old
                    (or_fail-eq-ok (read_ocotp s.bank s.word s.off s.size) fuse_read_error w e0
                      ∙ ap (λ t. (ok old, t)) (ap (λ r. r.1) h0))
                    e2
                    (or_fail-eq-ok (read_ocotp s.bank s.word s.off s.size) fuse_readback_error w2 e3
                      ∙ ap₂ (λ b t. (ok b, t))
                          (sym (
                            bytes_equal→eq s.val res
                              (require-eq-ok (bytes_equal s.val res) fuse_readback_error w3 h3)))
                          (require-world (bytes_equal s.val res) fuse_readback_error w3 h3))
                    rest

  then_burn :
      (s : Setting) (ss : List Setting) (k : M W (Unit {0})) (w w' : W)
      → (fuse otp s.bank s.word s.off s.size s.val >> k) w ≡ (ok tt, w')
      → ((v : W) → k v ≡ (ok tt, w') → Burnt ss v w')
      → Burnt (s ∷ ss) w w'
  then_burn s ss k w w' h rest =
      unbind (fuse otp s.bank s.word s.off s.size s.val) (λ _. k) w h
        λ _ v e h'. fuse-burn s ss w v w' e (rest v h')

  -- The calls of `hab` behind its check.
  hab-Burnt :
      (switch_endianness : Bytes → Bytes) (srk : Bytes) (w w' : W)
      → length srk ≡ srk_size
      → hab otp switch_endianness srk w ≡ (ok tt, w')
      → Burnt (closed_device (switch_endianness srk)) w w'
  unfolding hab
  hab-Burnt switch_endianness srk w w' size h =
      then_burn (setting 3 0 0 256 (switch_endianness srk)) _ _ w w' (rw size at h) λ v1 h1.
        then_burn (setting 0 0 14 1 (1 ∷ [])) _ _ v1 w' h1 λ v2 h2.
          then_burn (setting 0 6 0 2 (3 ∷ [])) _ _ v2 w' h2 λ v3 h3.
            then_burn (setting 0 6 3 1 (1 ∷ [])) _ _ v3 w' h3 λ v4 h4.
              then_burn (setting 0 6 20 1 (1 ∷ [])) _ _ v4 w' h4 λ v5 h5.
                then_burn (setting 0 6 22 2 (3 ∷ [])) _ _ v5 w' h5 λ v6 h6.
                  then_burn (setting 0 6 27 1 (1 ∷ [])) _ _ v6 w' h6 λ v7 h7.
                    then_burn (setting 0 6 26 1 (1 ∷ [])) _ _ v7 w' h7 λ v8 h8.
                      then_burn (setting 0 6 18 1 (1 ∷ [])) _ _ v8 w' h8
                        λ v9 h9. fuse-burn (setting 0 7 4 1 (1 ∷ [])) [] v9 w' w' h9 (none_left w')

  -- An activation that succeeds found the SNVS not available, and a hash of 32 bytes that are not
  -- all zero; it has burnt all the fuses of a closed device, in order, each read back with its
  -- value.
  pub activate-Burnt :
      (snvs : M W Bool) (switch_endianness : Bytes → Bytes) (srk : Bytes) (w w' : W)
      → activate otp snvs switch_endianness srk w ≡ (ok tt, w')
      → (v : W) × (snvs w ≡ (ok false, v))
        × (length srk ≡ srk_size)
        × (srk ≢ replicate srk_size 0)
        × Burnt (closed_device (switch_endianness srk)) v w'
  unfolding activate
  activate-Burnt snvs switch_endianness srk w w' h = unbind snvs _ w h λ available v e k.
      elim (Bool-cases available) [
        | inl on ↦ absurd (ground (arith, rw on at k))
        | inr off ↦ elim (Bool-cases (length srk == srk_size)) [
          | inr wrong ↦ absurd (ground (arith, rw (off, wrong) at k))
          | inl size ↦ elim (Bool-cases (bytes_equal srk (replicate srk_size 0))) [
            | inl blank ↦ absurd (ground (arith, rw (off, size, blank) at k))
            | inr set ↦
                let size_eq = (==_iff (length srk) srk_size).0 size in
                (
                  v,
                  e ∙ ap (λ b. (ok b, v)) off,
                  size_eq,
                  λ zeros.
                      false≢true
                        (sym set ∙ ap (bytes_equal srk) (sym zeros) ∙ bytes_equal_refl srk),
                  hab-Burnt switch_endianness srk v w' size_eq (rw (off, size, set) at k),
                )
          ]
        ]
      ]

  -- Where the SNVS is available, or with a hash of another length or of zeros, nothing is burnt or
  -- read: the activation ends with an error in the state in which it has asked for the SNVS.
  pub activate_refused :
      (snvs : M W Bool) (switch_endianness : Bytes → Bytes) (srk : Bytes) (w v : W)
      (available : Bool)
      → snvs w ≡ (ok available, v)
      → (available ≡ true) ⊎ (length srk ≢ srk_size) ⊎ (srk ≡ replicate srk_size 0)
      → activate otp snvs switch_endianness srk w
        ≡ (err (if available then hab_enabled else invalid_srk), v)
  unfolding activate
  activate_refused snvs switch_endianness srk w v true e bad = rw e
  activate_refused snvs switch_endianness srk w v false e bad =
      elim (Bool-cases (length srk == srk_size)) [
        | inr wrong ↦ rw (e, wrong)
        | inl size ↦ elim (Bool-cases (bytes_equal srk (replicate srk_size 0))) [
          | inl blank ↦ rw (e, size, blank)
          | inr set ↦ absurd (elim bad [
            | inl on ↦ false≢true on
            | inr (inl other) ↦ other ((==_iff (length srk) srk_size).0 size)
            | inr (inr zeros) ↦
                false≢true (sym set ∙ ap (bytes_equal srk) (sym zeros) ∙ bytes_equal_refl srk)
          ])
        ]
      ]
