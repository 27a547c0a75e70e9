-- ===== src/TrustedOs/Boot.antt =====
-- trusted_os/main.go: what the OS does before it runs an applet.
pub mod Loading
pub mod Tries
pub mod Starts
pub mod Downgrade
use armored_witness_os.Base.{
  ◌≡◌, ◌∙◌, refl, ap, sym, Bool, true, List, [], ◌∷◌, ◌&&◌, Bytes, length, ltb, Option, none, some,
  Result, ok, err, halt, M, ◌>>=◌, ◌>>◌, pure, lift, unbind, arith, ◌==◌, if◌then◌else◌,
}
use armored_witness_os.Fuses.{Otp}
use armored_witness_os.Disk.{Card}
use armored_witness_os.Rpmb.Op.{Platform}
use armored_witness_os.TrustedOs.Firmware.{Bundle, ConfigCodec, Loaded}
use armored_witness_os.TrustedOs.Flash
use armored_witness_os.TrustedOs.Flash.{determine_loaded_os_block}
use armored_witness_os.TrustedOs.Rollback
use armored_witness_os.TrustedOs.Rollback.{
  KeySource, Rpmb, Versions, sectors_of, check_version, os_version_sector,
}

-- `log.Fatalf`
abbrev pub fatal : {A W : Type 0} → Result A × W → Result A × W
fatal (ok a, w) = (ok a, w)
fatal (err e, w) = (halt, w)
fatal (halt, w) = (halt, w)

pub fatal-eq-ok :
    {A W : Type 0} (r : Result A × W) {a : A} {v : W} → fatal r ≡ (ok a, v) → r ≡ (ok a, v)
fatal-eq-ok (ok a, w) h = h
fatal-eq-ok (err e, w) h = ground arith
fatal-eq-ok (halt, w) h = ground arith

-- An error that is logged, with what is used in place of a result.
abbrev pub logged : {A W : Type 0} → A → Result A × W → Result A × W
logged d (ok a, w) = (ok a, w)
logged d (err e, w) = (ok d, w)
logged d (halt, w) = (halt, w)

abbrev pub add_verifier : {K : Type 0} → Result K → Result (List K) → Result (List K)
add_verifier (ok k) (ok ks) = ok (k ∷ ks)
add_verifier (ok k) r = r
add_verifier (err e) r = err e
add_verifier halt r = halt

-- `createBundleVerifier`: the verifiers of a list of keys, if all of them parse.
unfoldable pub create_bundle_verifier :
    {K : Type 0} → (Bytes → Result K) → List Bytes → Result (List K)
create_bundle_verifier new_verifier [] = ok []
create_bundle_verifier new_verifier (v ∷ vs) =
    add_verifier (new_verifier v) (create_bundle_verifier new_verifier vs)

-- `strings.TrimPrefix(Version, "v")`
unfoldable pub trim_v : Bytes → Bytes
trim_v [] = []
trim_v (b ∷ bs) = if b == b'v' then bs else b ∷ bs

-- What is set when the OS is built.
pub record Build : Type 0 where
  pub version : Bytes
  pub log_verifier : Bytes
  pub applet_manifest_verifier : Bytes
  pub os_manifest_verifier1 : Bytes
  pub os_manifest_verifier2 : Bytes
  -- an applet that is embedded for tests, with its bundle as it decodes
  pub ta_elf : Bytes
  pub ta_proof_bundle : Bytes
  pub embedded : Bundle

-- What the OS goes on with.
pub record Booted (K W : Type 0) : Type 0 where
  pub rpmb : Rpmb W
  pub loaded : Loaded
  pub log_key : K
  pub applet_keys : List K
  pub os_keys : List K
  pub ta : Option Bundle

module _ {K V W : Type 0} (build : Build) (vs : Versions V) (new_verifier : Bytes → Result K)
    (codec : ConfigCodec) (card : Card W) (storage_kind : Option Bool) (pf : Platform W)
    (otp : Otp W) (ks : KeySource W) where
  abbrev pub fatally : {A : Type 0} → M W A → M W A
  fatally m w = fatal (m w)

  -- The RPMB is set up and the OS's own version checked, each or the device stops.
  unfoldable pub check_rollback : M W (Rpmb W)
  check_rollback = do
    p ← fatally (Rollback.init pf otp ks storage_kind)
    let rpmb : Rpmb W = record { partition = some (sectors_of pf p) }
    fatally (check_version vs rpmb os_version_sector (trim_v build.version))
    pure rpmb

  unfoldable pub set_up_rpmb : Bool → M W Bool → M W (Rpmb W)
  set_up_rpmb native snvs_available =
      if native
      then (snvs_available >>= λ available.
          if available then check_rollback else pure (record { partition = none }))
      else pure (record { partition = none })

  -- The applet: the embedded one, or the one that is installed, if it can be read.
  unfoldable pub find_applet : Loaded → M W (Option Bundle × Loaded)
  find_applet loaded =
      if ltb 0 (length build.ta_elf) && ltb 0 (length build.ta_proof_bundle)
      then pure (some (record build.embedded { firmware = build.ta_elf }), loaded)
      else λ w.
          logged (none, loaded)
            ((Flash.read card codec loaded >>= λ found. pure (some found.0, found.1)) w)

  -- `main`, from the configuration to the loop that verifies and runs the applet.
  unfoldable pub load : Loaded → Rpmb W → M W (Booted K W)
  load unloaded rpmb = do
    loaded ←
        (λ w. logged unloaded ((determine_loaded_os_block card codec unloaded >>= λ l. pure l.0) w))
    log_key ← fatally (lift (new_verifier build.log_verifier))
    applet_keys ←
        fatally (lift (create_bundle_verifier new_verifier (build.applet_manifest_verifier ∷ [])))
    os_keys ← fatally (
        lift (
          create_bundle_verifier new_verifier
            (build.os_manifest_verifier1 ∷ build.os_manifest_verifier2 ∷ [])))
    (ta, loaded') ← find_applet loaded
    pure (record {
      rpmb = rpmb;
      loaded = loaded';
      log_key = log_key;
      applet_keys = applet_keys;
      os_keys = os_keys;
      ta = ta;
    })

  -- `main`, up to that loop.
  unfoldable pub boot : Bool → M W Bool → Loaded → M W (Booted K W)
  boot native snvs_available unloaded = do
    fatally card.detect
    rpmb ← set_up_rpmb native snvs_available
    load unloaded rpmb

  ok-eq :
      {A : Type 0} {a b : A} {v z : W} (r : Result A × W) → r ≡ (ok a, v) → r ≡ (ok b, z) → b ≡ a
  ok-eq r p q = ground arith

  load-rpmb :
      (unloaded : Loaded) (rpmb : Rpmb W) (w w' : W) (b : Booted K W)
      → load unloaded rpmb w ≡ (ok b, w')
      → b.rpmb ≡ rpmb
  unfolding load
  load-rpmb unloaded rpmb w w' b h =
      unbind
        (λ v. logged unloaded ((determine_loaded_os_block card codec unloaded >>= λ l. pure l.0) v))
        _ w h
        λ loaded w1 _ h1.
          unbind (fatally (lift (new_verifier build.log_verifier))) _ w1 h1 λ log_key w2 _ h2.
            unbind
              (fatally
                (lift (create_bundle_verifier new_verifier (build.applet_manifest_verifier ∷ []))))
              _ w2 h2
              λ applet_keys w3 _ h3.
                unbind
                  (fatally (
                    lift (
                      create_bundle_verifier new_verifier
                        (build.os_manifest_verifier1 ∷ build.os_manifest_verifier2 ∷ []))))
                  _ w3 h3
                  λ os_keys w4 _ h4.
                    unbind (find_applet loaded) _ w4 h4
                      λ found w5 _ h5. ap (λ c. c.rpmb) (ok-eq (pure _ w5) refl h5)

  check_rollback-checked :
      (w w' : W) (rpmb : Rpmb W)
      → check_rollback w ≡ (ok rpmb, w')
      → (u : W) × (check_version vs rpmb os_version_sector (trim_v build.version) u ≡ (ok tt, w'))
  unfolding check_rollback
  check_rollback-checked w w' rpmb h =
      unbind (fatally (Rollback.init pf otp ks storage_kind)) _ w h λ p z1 e3 k4.
        unbind
          (fatally (
            check_version vs (record { partition = some (sectors_of pf p) }) os_version_sector
              (trim_v build.version)))
          _ z1 k4
          λ _ z2 e4 k5.
            let same = ok-eq (pure _ z2) refl k5 in
            let z2≡w' : z2 ≡ w' = ap (λ r. r.1) k5 in
            (
              z1,
              rw (same, ← z2≡w')
                  (fatal-eq-ok
                    (check_version vs (record { partition = some (sectors_of pf p) })
                      os_version_sector (trim_v build.version) z1)
                    e4),
            )

  -- On a native device whose SNVS is available after the storage is detected, the OS gets past its
  -- start only with a version that the check against rollback, on the RPMB that it goes on with,
  -- has accepted.
  pub boot_checked :
      (snvs_available : M W Bool) (unloaded : Loaded) (w v w1 w' : W) (b : Booted K W)
      → card.detect w ≡ (ok tt, w1)
      → snvs_available w1 ≡ (ok true, v)
      → boot true snvs_available unloaded w ≡ (ok b, w')
      → (u : W) × (u' : W) × (check_version vs b.rpmb os_version_sector (trim_v build.version) u
          ≡ (ok tt, u'))
  unfolding boot set_up_rpmb
  boot_checked snvs_available unloaded w v w1 w' b detected secured h =
      unbind (fatally card.detect) _ w h λ _ x e k.
        unbind (set_up_rpmb true snvs_available) _ x k λ rpmb y e1 k1.
          unbind snvs_available _ x e1 λ available z e2 k2.
            let x≡w1 : x ≡ w1 = ap (λ r. r.1) (sym (fatal-eq-ok (card.detect w) e) ∙ detected) in
            let on : available ≡ true =
              ok-eq (snvs_available x) (ap snvs_available x≡w1 ∙ secured) e2 in
            let k3 : check_rollback z ≡ (ok rpmb, y) = rw on at k2 in
            let accepted = check_rollback-checked z y rpmb k3 in
            (accepted.0, y, rw (load-rpmb unloaded rpmb y w' b k1) accepted.1)
