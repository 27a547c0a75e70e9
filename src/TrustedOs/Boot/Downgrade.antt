-- ===== src/TrustedOs/Boot/Downgrade.antt =====
-- Any number of starts of the OS, with calls of the applet between: trusted_os/main.go and the calls
-- Version, WriteRPMB and ReadRPMB of trusted_os/rpc.go, on a card that keeps its standard.
use armored_witness_os.Base.{
  Bool-cases, ℕ, ◌≡◌, ◌∙◌, refl, sym, ap, subst, Bool, true, false, Bytes, Option, some, Result, ok,
  M, inl, inr, Keeps, arith,
}
use armored_witness_os.Fuses.{Otp}
use armored_witness_os.Disk.{Card}
use armored_witness_os.Rpmb.Op.{Platform}
use armored_witness_os.Rpmb.Card.{IsCard}
use armored_witness_os.TrustedOs.Firmware.{ConfigCodec, Loaded}
use armored_witness_os.TrustedOs.Rollback
use armored_witness_os.TrustedOs.Rollback.{
  KeySource, Rpmb, Sectors, Versions, stored_version, version_length, sectors_of, check_version,
  os_version_sector,
}
use armored_witness_os.TrustedOs.Rollback.Store.{IsVersioning, IsShort}
use armored_witness_os.TrustedOs.Rollback.Setup.{IsUnit, partition}
use armored_witness_os.TrustedOs.Rpc.History.{
  IsPreorder, Passed-above, Passed-HoldsFrom, first-HoldsFrom, HoldsFrom,
}
use armored_witness_os.TrustedOs.Boot.Loading.{IsSecured}
use armored_witness_os.TrustedOs.Boot.{Build, Booted, boot, trim_v}
use armored_witness_os.TrustedOs.Boot.Tries.{boot-Keeps}
use armored_witness_os.TrustedOs.Boot.Starts.{store, boot-Passed}
use armored_witness_os.TrustedOs.Rollback.Calls.{transfer-Keeps, check_version-Keeps}
use armored_witness_os.TrustedOs.Rollback.{ta_version_sector, ta_user_sector}
use armored_witness_os.TrustedOs.Rpc.{write_rpmb, read_rpmb}
use armored_witness_os.TrustedOs.Rpc.History.{same-HoldsFrom}

module _ {K V W : Type 0} (vs : Versions V) (order : IsVersioning vs) (preorder : IsPreorder vs)
    (new_verifier : Bytes → Result K) (codec : ConfigCodec) (storage : Card W)
    (storage_kind : Option Bool) (pf : Platform W) (otp : Otp W) (ks : KeySource W)
    (snvs_available : M W Bool) (unloaded : Loaded) (content : W → ℕ → Bytes) (key : Bytes)
    (unit : IsUnit otp ks content key) (card : IsCard pf key content)
    (secured : IsSecured storage snvs_available content) where
  abbrev pub boots : Build → M W (Booted K W)
  boots build =
      boot build vs new_verifier codec storage storage_kind pf otp ks true snvs_available unloaded

  abbrev pub own : Sectors W
  own = sectors_of pf (partition key)

  abbrev pub device : Rpmb W
  device = record { partition = some own }

  -- What happens after a start of version `v`: a start of any build with a short version that succeeds, or of a build before
  -- `v` that ends in any way; a check of the applet's version and a write or a read of the applet,
  -- each of which ends in any way and with a counter or without; or anything that keeps the OS's
  -- sector.
  pub data Event (v : V) (w w' : W) : Type 0 where
    starts :
        (build : Build) (booted : Booted K W)
        → IsShort vs (trim_v build.version)
        → boots build w ≡ (ok booted, w')
        → Event v w w'
    tries :
        (build : Build) (r : Result (Booted K W)) (old : V)
        → vs.new_version (trim_v build.version) ≡ ok old
        → vs.less_than old v ≡ true
        → boots build w ≡ (r, w')
        → Event v w w'
    checks :
        (s : Bytes) (r : Result (Unit {0}))
        → check_version vs device ta_version_sector s w ≡ (r, w')
        → Event v w w'
    writes :
        (buf : Bytes) (wants_counter : Bool) (r : Result (Bytes × Option ℕ))
        → write_rpmb device buf wants_counter w ≡ (r, w')
        → Event v w w'
    reads :
        (buf : Bytes) (wants_counter : Bool) (r : Result (Bytes × Option ℕ))
        → read_rpmb device buf wants_counter w ≡ (r, w')
        → Event v w w'
    unchanged : content w' os_version_sector ≡ content w os_version_sector → Event v w w'

  pub data Events (v : V) (w : W) : W → Type 0 where
    here : Events v w w
    later : {x y : W} → Events v w x → Event v x y → Events v w y

  abbrev From : V → W → Type 0
  From v w =
      HoldsFrom vs own content
        (store vs order preorder new_verifier codec storage storage_kind pf otp ks snvs_available
          unloaded content key unit card secured)
        order preorder v w

  kept-From :
      {A : Type 0} (v : V) (w w' : W) (m : M W A) (r : Result A)
      → Keeps (λ x. content x os_version_sector ≡ content w os_version_sector) m
      → m w ≡ (r, w')
      → From v w
      → From v w'
  kept-From v w w' m r keeps h held =
      same-HoldsFrom vs own content
        (store vs order preorder new_verifier codec storage storage_kind pf otp ks snvs_available
          unloaded content key unit card secured)
        order preorder v w w' (ap (λ q. content q.1 os_version_sector) (sym h) ∙ keeps.at w refl)
        held

  -- What is before `v` is before what is not before `v`.
  older_still :
      (old v u : V)
      → vs.less_than old v ≡ true
      → vs.less_than u v ≡ false
      → vs.less_than old u ≡ true
  older_still old v u older fine = elim (Bool-cases (vs.less_than old u)) [
    | inl yes_older ↦ yes_older
    | inr not_older ↦ absurd (cc (sym older ∙ preorder.not_less_trans old u v not_older fine))
  ]

  Event-HoldsFrom : (v : V) (w w' : W) → Event v w w' → From v w → From v w'
  unfolding write_rpmb read_rpmb
  Event-HoldsFrom v w w' (starts build booted short h) held =
      Passed-HoldsFrom vs own content
        (store vs order preorder new_verifier codec storage storage_kind pf otp ks snvs_available
          unloaded content key unit card secured)
        order preorder v (trim_v build.version) w w' short
        (boot-Passed vs order preorder new_verifier codec storage storage_kind pf otp ks
          snvs_available unloaded content key unit card secured build w w' booted h)
        held
  Event-HoldsFrom v w w' (tries build r old parsed older h) (u, is_held, fine) =
      kept-From v w w' (boots build) r
        (boot-Keeps vs order new_verifier codec storage storage_kind pf otp ks snvs_available
          unloaded content key unit card secured build (content w os_version_sector) u old is_held
          parsed (older_still old v u older fine))
        h (u, is_held, fine)
  Event-HoldsFrom v w w' (checks s r h) held =
      kept-From v w w' (check_version vs device ta_version_sector s) r
        (check_version-Keeps pf (partition key) content card os_version_sector
          (content w os_version_sector) ta_version_sector (omega arith) (omega arith) vs s)
        h held
  Event-HoldsFrom v w w' (writes buf wants_counter r h) held =
      kept-From v w w' (Rollback.transfer device ta_user_sector buf wants_counter true) r
        (transfer-Keeps pf (partition key) content card os_version_sector
          (content w os_version_sector) ta_user_sector (omega arith) (omega arith) buf wants_counter
          true)
        h held
  Event-HoldsFrom v w w' (reads buf wants_counter r h) held =
      kept-From v w w' (Rollback.transfer device ta_user_sector buf wants_counter false) r
        (transfer-Keeps pf (partition key) content card os_version_sector
          (content w os_version_sector) ta_user_sector (omega arith) (omega arith) buf wants_counter
          false)
        h held
  Event-HoldsFrom v w w' (unchanged same) held =
      same-HoldsFrom vs own content
        (store vs order preorder new_verifier codec storage storage_kind pf otp ks snvs_available
          unloaded content key unit card secured)
        order preorder v w w' same held

  Events-HoldsFrom : (v : V) (w w' : W) → Events v w w' → From v w → From v w'
  Events-HoldsFrom v w w' here held = held
  Events-HoldsFrom v w w' (later {x = x} r e) held =
      Event-HoldsFrom v x w' e (Events-HoldsFrom v w x r held)

  -- On a native, secured device, whose card keeps its standard with the key that the device's unit
  -- derives, and with versions in a preorder that decode to themselves where they are read back
  -- whole: once an OS of one version, whose encoding has at most the 32 bytes that are read back,
  -- has started, no OS of an older version starts, whatever builds with such versions start with
  -- success between, whatever older builds try to start and however that ends, whatever checks of
  -- the applet's version are made and whatever the applet writes to the RPMB or reads from it,
  -- however these end and with the counter or without, and whatever leaves the OS's sector as it
  -- is.
  pub older_never_starts :
      (first second : Build) (w w1 w2 w' : W) (booted booted' : Booted K W) (running later_one : V)
      → IsShort vs (trim_v first.version)
      → boots first w ≡ (ok booted, w1)
      → vs.new_version (trim_v first.version) ≡ ok running
      → Events running w1 w2
      → boots second w2 ≡ (ok booted', w')
      → vs.new_version (trim_v second.version) ≡ ok later_one
      → vs.less_than later_one running ≡ false
  older_never_starts first second w w1 w2 w' booted booted' running later_one short h parsed between
        h' parsed' =
      let c =
        boot-Passed vs order preorder new_verifier codec storage storage_kind pf otp ks
          snvs_available unloaded content key unit card secured first w w1 booted h in
      let d =
        boot-Passed vs order preorder new_verifier codec storage storage_kind pf otp ks
          snvs_available unloaded content key unit card secured second w2 w' booted' h' in
      let same : c.running ≡ running = cc (sym parsed ∙ c.parsed) in
      let same' : d.running ≡ later_one = cc (sym parsed' ∙ d.parsed) in
      let left =
        first-HoldsFrom vs own content
          (store vs order preorder new_verifier codec storage storage_kind pf otp ks snvs_available
            unloaded content key unit card secured)
          order preorder (trim_v first.version) w w1 short c in
      let held = Events-HoldsFrom running w1 w2 between (subst (λ v. From v w1) same left) in
      subst (λ v. vs.less_than v running ≡ false) same'
        (Passed-above vs own content
          (store vs order preorder new_verifier codec storage storage_kind pf otp ks snvs_available
            unloaded content key unit card secured)
          order preorder running (trim_v second.version) w2 w' d held)
