-- ===== src/TrustedOs/Rollback/Calls.antt =====
-- What the applet's use of the RPMB keeps of a sector, however it ends: `transfer` and `checkVersion`
-- of trusted_os/rpmb.go.
use armored_witness_os.Base.{
  ℕ, ◌≢◌, ◌^◌, ◌<◌, Bool, true, false, Bytes, some, Result, ok, err, halt, pure, Keeps, keeps_rules,
  bind-Keeps, pure-Keeps,
}
use armored_witness_os.Rpmb.Op.{Platform, Partition}
use armored_witness_os.Rpmb.Card.{IsCard}
use armored_witness_os.Rpmb.Sector.{HoldsAt, write-Keeps, read-Keeps, counter-Keeps}
use armored_witness_os.TrustedOs.Rollback
use armored_witness_os.TrustedOs.Rollback.{
  Rpmb, Versions, sectors_of, access, with_counter, check_version, expected_version, update_version,
}

module _ {W : Type 0} (pf : Platform W) (p : Partition) (content : W → ℕ → Bytes)
    (card : IsCard pf p.key content) (o : ℕ) (bs : Bytes) (offset : ℕ) (small : offset < 2 ^ 16)
    (other : o ≢ offset) where
  abbrev Held : W → Type 0
  Held = HoldsAt pf p content card o bs

  abbrev device : Rpmb W
  device = record { partition = some (sectors_of pf p) }

  access-Keeps :
      (buf : Bytes) (write : Bool) → Keeps Held (access (sectors_of pf p) offset buf write)
  access-Keeps buf true =
      bind-Keeps _ _ (write-Keeps pf p content card o bs offset buf small other)
        (λ _. pure-Keeps buf)
  access-Keeps buf false = read-Keeps pf p content card o bs offset buf

  counted :
      (buf : Bytes) (wants_counter : Bool) (q : Result Bytes × W)
      → Held q.1
      → Held (with_counter (sectors_of pf p) buf wants_counter q).1
  counted buf true (err e, w) h =
      (bind-Keeps _ (λ n. pure (buf, some n)) (counter-Keeps pf p content card o bs true)
          (λ n. pure-Keeps (buf, some n))).at
        w h
  counted buf false (err e, w) h = h
  counted buf true (ok out, w) h = h
  counted buf false (ok out, w) h = h
  counted buf true (halt, w) h = h
  counted buf false (halt, w) h = h

  -- A transfer of another sector keeps a sector, whether it succeeds, fails, or reads the counter.
  pub transfer-Keeps :
      (buf : Bytes) (wants_counter write : Bool)
      → Keeps Held (Rollback.transfer device offset buf wants_counter write)
  unfolding Rollback.transfer
  transfer-Keeps buf wants_counter write = record {
    at = λ w h. counted buf wants_counter _ ((access-Keeps buf write).at w h);
  }

  own_read-Keeps : (buf : Bytes) → Keeps Held ((sectors_of pf p).read offset buf)
  own_read-Keeps buf = read-Keeps pf p content card o bs offset buf

  own_write-Keeps : (buf : Bytes) → Keeps Held ((sectors_of pf p).write offset buf)
  own_write-Keeps buf = write-Keeps pf p content card o bs offset buf small other

  -- So does a check of the version at another sector.
  pub check_version-Keeps :
      {V : Type 0} (vs : Versions V) (s : Bytes) → Keeps Held (check_version vs device offset s)
  unfolding check_version expected_version update_version
  check_version-Keeps vs s = search (own_read-Keeps, own_write-Keeps, keeps_rules) depth 14
