-- ===== src/TrustedOs/Ctl/Status.antt =====
-- The status of the OS: `getStatus` of trusted_os/ctl.go, the calls of trusted_os/rpc.go that tell or
-- set it, and its text (`Print` of api/api.go).
use armored_witness_os.Base.{
  ℕ, Bool, true, false, [], ◌∷◌, ◌++◌, Bytes, ◌==◌, ◌/◌, ◌%◌, ◌&&◌, if◌then◌else◌, Option, none,
  some, M, pure, fail, invalid_argument, codes, String,
}
use armored_witness_os.Fuses.{Otp}
use armored_witness_os.Hab.{activate}
use armored_witness_os.TrustedOs.Rpc.{Receiver, WitnessStatus}

-- The network controller that a status is asked for.
pub data Link : Type 0 where
  -- the PHY's status register, and the MAC
  lan : ℕ → Bytes → Link
  -- `FrontPortMode()`: whether it failed, and whether the mode is `STATE_ATTACHED_SRC`
  usb : Bool → Bool → Link
  neither : Link

-- What is known when the OS is built: `SRKHash`, `Revision`, `Build`, the version and the runtime.
pub record Release : Type 0 where
  pub srk_hash : Bytes
  pub revision : Bytes
  pub build : Bytes
  pub version : Bytes
  pub runtime : Bytes

-- `api.Status`; the identity counter is not set.
pub record Report : Type 0 where
  pub release : Release
  pub identity_counter : ℕ
  pub serial : Bytes
  pub hab : Bool
  pub link : Bool
  pub mac : Bytes
  pub witness : Option WitnessStatus

-- `miiStatus & (1 << STATUS_LINK) > 0`
abbrev pub link_of : Link → Bool
link_of (lan mii_status mac) = mii_status / 4 % 2 == 1
link_of (usb failed attached) = failed && attached
link_of neither = false

abbrev pub mac_of : Link → Bytes
mac_of (lan mii_status mac) = mac
mac_of _ = []

-- `getStatus`
unfoldable pub get_status : Release → Bool → Bool → Bytes → Link → Receiver → Report
get_status release native secure serial link r = record {
  release = release;
  identity_counter = 0;
  serial = if native then serial else [];
  hab = native && secure;
  link = link_of link;
  mac = mac_of link;
  witness = r.witness_status;
}

-- `(*controlInterface).HandleMessage`: no message has an answer.
abbrev pub handle_message : Bytes → Bytes
handle_message req = []

-- `(*controlInterface).Status`, where `marshal` is that of protobuf, whose error is not looked at.
abbrev pub status_response : (Report → Bytes) → Report → Bytes → Bytes
status_response marshal report req = marshal report

-- `(*RPC).Status`: the report, if there is a place for it.
unfoldable pub status : {W : Type 0} → Bool → Report → M W Report
status wanted report = if wanted then pure report else fail invalid_argument

-- `(*RPC).Address`: the MAC of the LAN controller, where there is one.
unfoldable pub address : {W : Type 0} → Option (Bytes → M W (Unit {0})) → Bytes → M W (Unit {0})
address none mac = pure tt
address (some set_mac) mac = set_mac mac

-- `(*RPC).HAB`
unfoldable pub hab : {W : Type 0} → Otp W → M W Bool → (Bytes → Bytes) → Bytes → M W (Unit {0})
hab otp snvs_available switch_endianness srk = activate otp snvs_available switch_endianness srk

-- `(*RPC).GetInstalledVersions`: the versions of the OS and of the applet, if there is a place for
-- them.
unfoldable pub get_installed_versions : {V W : Type 0} → V → V → Bool → M W (Option (V × V))
get_installed_versions os applet wanted = pure (if wanted then some (os, applet) else none)

abbrev line : String → Bytes → Bytes
line label value = codes label ++ (value ++ (b'\n' ∷ []))

abbrev bool_text : Bool → Bytes
bool_text true = codes "true"
bool_text false = codes "false"

abbrev below : String → Bytes → Bytes
below label value = codes label ++ (codes ": [below]" ++ (b'\n' ∷ b'\n' ∷ (value ++ (b'\n' ∷ []))))

-- The witness's part of the text.
unfoldable pub witness_text : Option WitnessStatus → Bytes
witness_text none = line "Witness ....................: <no status>" []
witness_text (some w) =
    line "Witness/Identity ...........: " w.identity
    ++ (line "Witness/IP .................: " w.ip
        ++ (line "Witness/AttestationKey .....: " w.id_attest_public_key
            ++ (below "Witness/AttestedIdentity ..." w.attested_id
                ++ below "Witness/AttestedBastionID .." w.attested_bastion_id)))

-- `Print`, where `decimal` is `%d`.
unfoldable pub print : (ℕ → Bytes) → Report → Bytes
print decimal r =
    line "----------------------------------------------------------- Trusted OS ----" []
    ++ (line "Serial number ..............: " r.serial
        ++ (line "Secure Boot ................: " (bool_text r.hab)
            ++ (line "SRK hash ...................: " r.release.srk_hash
                ++ (line "Revision ...................: " r.release.revision
                    ++ (line "Version ....................: " r.release.version
                        ++ (line "Runtime ....................: " r.release.runtime
                            ++ (line "Link .......................: " (bool_text r.link)
                                ++ (line "MAC ........................: " r.mac
                                    ++ (line "IdentityCounter ............: "
                                          (decimal r.identity_counter)
                                        ++ (witness_text r.witness
                                            ++ codes
                                                "----------------------------------------------------------- Trusted OS ----"))))))))))
