-- ===== src/TrustedOs/Firmware.antt =====
-- trusted_os/flash.go: where firmware lies on the storage, and the types that describe it.
use armored_witness_os.Base.{ℕ, List, Bytes, Result, codes, ◌==◌, if◌then◌else◌}

abbrev pub expected_block_size : ℕ
expected_block_size = 512

abbrev pub ota_limit : ℕ
ota_limit = 31457280

abbrev pub ta_conf_block : ℕ
ta_conf_block = 0x200000

abbrev pub ta_block_a : ℕ
ta_block_a = 0x200050

abbrev pub ta_block_b : ℕ
ta_block_b = 0x2fd050

abbrev pub os_conf_block : ℕ
os_conf_block = 0x5000

abbrev pub os_block_a : ℕ
os_block_a = 0x5050

abbrev pub os_block_b : ℕ
os_block_b = 0x102828

abbrev pub crash_log_block : ℕ
crash_log_block = 0x1d20000

abbrev pub crash_log_num_blocks : ℕ
crash_log_num_blocks = 0x800

abbrev pub batch_size : ℕ
batch_size = 2048

pub data FirmwareType : Type 0 where
  firmware_applet firmware_os : FirmwareType

-- `String`; there is no other type.
abbrev pub type_text : FirmwareType → Bytes
type_text firmware_applet = codes "applet"
type_text firmware_os = codes "OS"

-- `config.ProofBundle`, `firmware.Bundle` and `config.Config`
pub record ProofBundle : Type 0 where
  pub checkpoint : Bytes
  pub log_index : ℕ
  pub inclusion_proof : List Bytes
  pub manifest : Bytes

pub record Bundle : Type 0 where
  pub checkpoint : Bytes
  pub index : ℕ
  pub inclusion_proof : List Bytes
  pub manifest : Bytes
  pub firmware : Bytes

pub record Config : Type 0 where
  pub size : ℕ
  pub offset : ℕ
  pub bundle : ProofBundle

-- The serialization of configs, of the package armored-witness-boot/config.
pub record ConfigCodec : Type 0 where
  pub encode : Config → Result Bytes
  pub decode : Bytes → Result Config
  pub max_length : ℕ

-- `appletLoadedFromBlock` and `osLoadedFromBlock`
pub record Loaded : Type 0 where
  pub applet_block : ℕ
  pub os_block : ℕ

-- The loaded blocks as a slot.
pub data Slot : Type 0 where
  slot_a slot_b unexpected : Slot

abbrev pub slot_of : ℕ → ℕ → ℕ → Slot
slot_of a b block = if block == a then slot_a else if block == b then slot_b else unexpected

-- The blocks of the config and of the firmware that an update writes.
abbrev pub conf_block : FirmwareType → ℕ
conf_block firmware_applet = ta_conf_block
conf_block firmware_os = os_conf_block

abbrev pub elf_block : FirmwareType → Loaded → ℕ
elf_block firmware_applet l = if l.applet_block == ta_block_a then ta_block_b else ta_block_a
elf_block firmware_os l = if l.os_block == os_block_a then os_block_b else os_block_a

abbrev pub bundle_of : Bytes → ProofBundle → Bundle
bundle_of elf pb = record {
  checkpoint = pb.checkpoint;
  index = pb.log_index;
  inclusion_proof = pb.inclusion_proof;
  manifest = pb.manifest;
  firmware = elf;
}
