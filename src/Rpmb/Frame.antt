-- ===== src/Rpmb/Frame.antt =====
-- rpmb/op.go: message types, results, the request configuration and the data frame.
use armored_witness_os.Base.{
  ℕ, ◌-◌, ◌≡◌, Bool, false, [], ◌∷◌, ◌++◌, Bytes, length, take, drop, replicate, uint32, ltb, ◌==◌,
  ◌||◌, if◌then◌else◌, Result, ok, err, unexpected_eof,
}

abbrev pub frame_length : ℕ
frame_length = 512

abbrev pub mac_offset : ℕ
mac_offset = 284

abbrev pub authentication_key_programming : ℕ
authentication_key_programming = 1

abbrev pub write_counter_read : ℕ
write_counter_read = 2

abbrev pub authenticated_data_write : ℕ
authenticated_data_write = 3

abbrev pub authenticated_data_read : ℕ
authenticated_data_read = 4

abbrev pub result_read : ℕ
result_read = 5

abbrev pub authenticated_device_configuration_write : ℕ
authenticated_device_configuration_write = 6

abbrev pub authenticated_device_configuration_read : ℕ
authenticated_device_configuration_read = 7

abbrev pub operation_ok : ℕ
operation_ok = 0

abbrev pub authentication_key_not_yet_programmed : ℕ
authentication_key_not_yet_programmed = 7

-- `Config`
pub record Config : Type 0 where
  pub request_mac : Bool
  pub response_mac : Bool
  pub random_nonce : Bool
  pub reads_result : Bool

-- `&Config{}`
abbrev pub no_config : Config
no_config = record {
  request_mac = false;
  response_mac = false;
  random_nonce = false;
  reads_result = false;
}

-- `DataFrame`; each field but the last two is a byte array, of the length that `IsFrame` gives.
pub record DataFrame : Type 0 where
  pub stuff_bytes : Bytes
  pub key_mac : Bytes
  pub payload : Bytes
  pub nonce : Bytes
  pub write_counter : Bytes
  pub address : Bytes
  pub block_count : Bytes
  pub op_result : Bytes
  pub resp : ℕ
  pub req : ℕ

-- `&DataFrame{}` with its `Req`
abbrev pub new_frame : ℕ → DataFrame
new_frame kind = record {
  stuff_bytes = replicate 196 0;
  key_mac = replicate 32 0;
  payload = replicate 256 0;
  nonce = replicate 16 0;
  write_counter = replicate 4 0;
  address = replicate 2 0;
  block_count = replicate 2 0;
  op_result = replicate 2 0;
  resp = 0;
  req = kind;
}

-- The lengths of the arrays of `DataFrame`.
pub record IsFrame (f : DataFrame) : Type 0 where
  pub stuff_length : length f.stuff_bytes ≡ 196
  pub mac_length : length f.key_mac ≡ 32
  pub payload_length : length f.payload ≡ 256
  pub nonce_length : length f.nonce ≡ 16
  pub counter_length : length f.write_counter ≡ 4
  pub address_length : length f.address ≡ 2
  pub block_length : length f.block_count ≡ 2
  pub result_length : length f.op_result ≡ 2

-- `(*DataFrame).Counter`
unfoldable pub counter_of : DataFrame → ℕ
counter_of f = uint32 f.write_counter

-- The part of a frame behind its `KeyMAC`.
unfoldable pub signed_part : DataFrame → Bytes
signed_part f =
    f.payload
    ++ (f.nonce
        ++ (f.write_counter
            ++ (f.address ++ (f.block_count ++ (f.op_result ++ (f.resp ∷ f.req ∷ []))))))

-- `(*DataFrame).Bytes`: the fields in order.
unfoldable pub to_bytes : DataFrame → Bytes
unfolding signed_part
to_bytes f = f.stuff_bytes ++ (f.key_mac ++ signed_part f)

-- The bytes that a MAC covers, `buf[FrameLength-macOffset:]`.
unfoldable pub mac_region : Bytes → Bytes
mac_region buf = drop (frame_length - mac_offset) buf

-- One byte at an index below the length.
abbrev pub first : Bytes → ℕ
first [] = 0
first (b ∷ rest) = b

abbrev pub byte_at : ℕ → Bytes → ℕ
byte_at i buf = first (drop i buf)

unfoldable pub frame_at : Bytes → DataFrame
frame_at buf = record {
  stuff_bytes = take 196 buf;
  key_mac = take 32 (drop 196 buf);
  payload = take 256 (drop 228 buf);
  nonce = take 16 (drop 484 buf);
  write_counter = take 4 (drop 500 buf);
  address = take 2 (drop 504 buf);
  block_count = take 2 (drop 506 buf);
  op_result = take 2 (drop 508 buf);
  resp = byte_at 510 buf;
  req = byte_at 511 buf;
}

-- `binary.Read` of a frame, which fails on a buffer that is too short.
unfoldable pub parse : Bytes → Result DataFrame
unfolding frame_at
parse buf = if ltb (length buf) frame_length then err unexpected_eof else ok (frame_at buf)

-- The requests that are written reliably.
unfoldable pub is_reliable : ℕ → Bool
is_reliable kind =
    kind == authentication_key_programming
    || (kind == authenticated_data_write || kind == authenticated_device_configuration_write)
