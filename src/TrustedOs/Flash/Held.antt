-- ===== src/TrustedOs/Flash/Held.antt =====
-- Where what an update has written is still there, it is what is read: `readConfig` and `read` of
-- trusted_os/flash.go.
use armored_witness_os.Base.{
  ℕ, ◌+◌, ◌-◌, ◌*◌, ◌/◌, ◌≤◌, ◌<◌, ◌≡◌, ◌∙◌, sym, ap, subst, fun_ext, [], ◌∷◌, ◌++◌, append-nil,
  Bytes, length, length-append, ok, unbind, arith,
}
use armored_witness_os.Disk.{
  Card, IsDisk, ReadsBack, overlay, overlay-inside, byte_of, prefix_ext, inside_at,
  byte_of-append_left,
}
use armored_witness_os.TrustedOs.Firmware.{
  FirmwareType, firmware_applet, Loaded, Bundle, Config, ConfigCodec, ProofBundle, Slot, conf_block,
  elf_block, bundle_of, ota_limit, expected_block_size,
}
use armored_witness_os.TrustedOs.Flash.{read_config, read}
use armored_witness_os.TrustedOs.Flash.Parts.{loaded_bundle, read_parts}
use armored_witness_os.TrustedOs.Flash.Loop.{padded}
use armored_witness_os.TrustedOs.Flash.Slots.{new_config, ConfFits}

-- What the package armored-witness-boot/config relies on of gob: a config that is encoded decodes to
-- itself, whatever follows it.
pub record IsCodec (codec : ConfigCodec) : Type 0 where
  pub decodes :
      (c : Config) (b rest : Bytes) → codec.encode c ≡ ok b → codec.decode (b ++ rest) ≡ ok c
  pub within : (c : Config) (b : Bytes) → codec.encode c ≡ ok b → length b ≤ codec.max_length

no_rest : (bs rest : Bytes) → length (bs ++ rest) ≡ length bs → bs ++ rest ≡ bs
no_rest bs [] h = append-nil bs
no_rest bs (r ∷ rest) h = absurd (omega (arith, length-append bs (r ∷ rest)))

-- A string of bytes that was put at an offset and is still there.
held_byte :
    (off i : ℕ) (bs : Bytes) (f : ℕ → ℕ)
    → ((a : ℕ) → overlay off (padded bs) f a ≡ f a)
    → i < length bs
    → f (off + i) ≡ byte_of bs i
held_byte off i bs f held h =
    sym (held (off + i))
    ∙ overlay-inside off (padded bs) f (off + i)
        (inside_at off (length (padded bs)) i (omega (arith, length-append bs _)))
    ∙ ap (byte_of (padded bs)) {x = off + i - off} {y = i} (omega arith)
    ∙ byte_of-append_left bs _ i h

-- A string of bytes that a disk holds, another disk with the same bytes holds.
pub still_held :
    (off : ℕ) (bs : Bytes) (f g : ℕ → ℕ)
    → ((a : ℕ) → g a ≡ f a)
    → ((a : ℕ) → overlay off (padded bs) f a ≡ f a)
    → (a : ℕ) → overlay off (padded bs) g a ≡ g a
still_held off bs f g same held =
    subst (λ x. (a : ℕ) → overlay off (padded bs) x a ≡ x a) (sym (fun_ext same)) held

pub block_of : (n : ℕ) → n * 512 / 512 ≡ n
block_of n = omega arith

module _ {W : Type 0} (card : Card W) (disk : W → ℕ → ℕ) (is_disk : IsDisk card disk) (capacity : ℕ)
    (Good : W → Type 0) (reads : ReadsBack card disk capacity Good) where
  -- A read from where a string was put begins with it.
  read_held :
      (off size : ℕ) (bs out : Bytes) (w v : W)
      → Good w
      → off + size ≤ capacity
      → length bs ≤ size
      → ((a : ℕ) → overlay off (padded bs) (disk w) a ≡ disk w a)
      → card.read off size w ≡ (ok out, v)
      → (rest : Bytes) × (out ≡ bs ++ rest) × (length out ≡ size)
  read_held off size bs out w v good room fits held h =
      let (len, same) = reads.read_back off size w v out good room h in
      let (rest, e) =
        prefix_ext bs out (omega arith)
          (λ i k. same i (omega arith) ∙ held_byte off i bs (disk w) held k) in
      (rest, e, len)

  module _ (codec : ConfigCodec) (is_codec : IsCodec codec) (loaded : Loaded) (t : FirmwareType)
      (elf : Bytes) (pb : ProofBundle) (elf_fits : length elf ≤ ota_limit)
      (conf_fits : ConfFits card disk is_disk codec loaded t elf pb elf_fits)
      (conf_room : conf_block t * 512 + codec.max_length ≤ capacity) where
    abbrev pub installed_config : Config
    installed_config = new_config card disk is_disk codec loaded t elf pb elf_fits

    -- Where an encoding of the config was put and is still there, it is what is read.
    pub conf_read :
        (u v : W) (conf : Config) (b : Bytes)
        → Good u
        → codec.encode installed_config ≡ ok b
        → ((a : ℕ) → overlay (conf_block t * 512) (padded b) (disk u) a ≡ disk u a)
        → read_config card codec (conf_block t) u ≡ (ok conf, v)
        → (conf ≡ installed_config) × Good v × ((a : ℕ) → disk v a ≡ disk u a)
    unfolding read_config
    conf_read u v conf b good encoded held found =
        let off = conf_block t * 512 in
        unbind (card.read off codec.max_length) _ u found λ buf x e k.
          let (rest, same, _) =
            read_held off codec.max_length b buf u x good conf_room (is_codec.within _ b encoded)
              held e in
          let x≡v : x ≡ v = ap (λ r. r.1) k in
          let after : card.read off codec.max_length u ≡ (ok buf, v) =
            e ∙ ap (λ s. (ok buf, s)) x≡v in
          (
            cc (sym (ap (λ r. r.0) k) ∙ ap codec.decode same ∙ is_codec.decodes _ b rest encoded),
            subst Good (ap (λ r. r.1) after) (reads.stays_good off codec.max_length u good),
            λ a. ap (λ r. disk r.1 a) (sym after) ∙ is_disk.read_keeps off codec.max_length u a,
          )

  module _ (codec : ConfigCodec) (is_codec : IsCodec codec) (loaded unloaded : Loaded) (elf : Bytes)
      (pb : ProofBundle) (elf_fits : length elf ≤ ota_limit) where
    image_read :
        (w v : W) (out : Bytes)
        → Good w
        → elf_block firmware_applet loaded * 512 + ota_limit ≤ capacity
        → ((a : ℕ)
            → overlay (elf_block firmware_applet loaded * 512) (padded elf) (disk w) a ≡ disk w a)
        → card.read (elf_block firmware_applet loaded * 512) (length elf) w ≡ (ok out, v)
        → out ≡ elf
    image_read w v out good room held h =
        let (rest, e, len) =
          read_held (elf_block firmware_applet loaded * 512) (length elf) elf out w v good
            (omega arith) (omega arith) held h in
        e ∙ no_rest elf rest (sym (ap length e) ∙ len)

    -- Where the config and the image of an update are still there, they are what is read.
    pub held-read :
        (u v : W) (found : Bundle × Loaded × Slot) (b : Bytes)
        → ConfFits card disk is_disk codec loaded firmware_applet elf pb elf_fits
        → conf_block firmware_applet * 512 + codec.max_length ≤ capacity
        → elf_block firmware_applet loaded * 512 + ota_limit ≤ capacity
        → Good u
        → codec.encode (new_config card disk is_disk codec loaded firmware_applet elf pb elf_fits)
          ≡ ok b
        → ((a : ℕ) → overlay (conf_block firmware_applet * 512) (padded b) (disk u) a ≡ disk u a)
        → ((a : ℕ)
            → overlay (elf_block firmware_applet loaded * 512) (padded elf) (disk u) a ≡ disk u a)
        → read card codec unloaded u ≡ (ok found, v)
        → (found.0 ≡ bundle_of elf pb) × (found.1.applet_block ≡ elf_block firmware_applet loaded)
    held-read u v found b conf_fits conf_room elf_room good encoded conf_held elf_held k =
        let (conf, x, image, conf_found, image_found, same, block) =
          read_parts card codec unloaded u v found k in
        let (named, x_good, x_same) =
          conf_read codec is_codec loaded firmware_applet elf pb elf_fits conf_fits conf_room u x
            conf b good encoded conf_held conf_found in
        let kept =
          still_held (elf_block firmware_applet loaded * 512) elf (disk u) (disk x) x_same
            elf_held in
        let whole : image ≡ elf =
          image_read x v image x_good elf_room kept
            (subst (λ c. card.read c.offset c.size x ≡ (ok image, v)) named image_found) in
        (
          same
              ∙ ap (λ c. loaded_bundle c image) named
              ∙ ap
                  (λ i.
                    loaded_bundle
                      (installed_config codec is_codec loaded firmware_applet elf pb elf_fits
                        conf_fits conf_room)
                      i)
                  whole,
          block
              ∙ ap (λ c. c.offset / expected_block_size) named
              ∙ block_of (elf_block firmware_applet loaded),
        )
