-- ===== src/Storage/Header.antt =====
-- The slot header of storage.py: `HEADER`, `make_header` and `parse_header`.
use kb.Base.{
  ℕ, ◌^◌, Bool, ◌&&◌, Option, none, some, ◌++◌, Bytes, Result, ok, err, le, le_value, slice, take,
  replicate, length, ltb, ◌==◌, not, if◌then◌else◌, crc32,
}

abbrev pub magic_word : ℕ
magic_word = 0x314c534b

abbrev pub version_number : ℕ
version_number = 1

abbrev pub erased_state : ℕ
erased_state = 0xffffffff

abbrev pub writing_state : ℕ
writing_state = 0x7fffffff

abbrev pub valid_state : ℕ
valid_state = 0x3fffffff

-- `HEADER.size`
abbrev pub header_size : ℕ
header_size = 64

-- What a method of storage.py raises.
pub data Fault : Type 0 where
  value_error struct_error index_error power_loss : Fault

-- The nine values of `HEADER`, `<IHHIIIII36s`.
pub record Fields : Type 0 where
  pub magic : ℕ
  pub version : ℕ
  pub header_length : ℕ
  pub state : ℕ
  pub generation : ℕ
  pub payload_length : ℕ
  pub payload_crc : ℕ
  pub header_crc : ℕ
  pub reserved : Bytes

-- What `HEADER.pack` writes for values in range. `36s` cuts or pads.
abbrev pub header_bytes : Fields → Bytes
header_bytes f =
    le 4 f.magic
    ++ (le 2 f.version
        ++ (le 2 f.header_length
            ++ (le 4 f.state
                ++ (le 4 f.generation
                    ++ (le 4 f.payload_length
                        ++ (le 4 f.payload_crc
                            ++ (le 4 f.header_crc ++ take 36 (f.reserved ++ replicate 36 0))))))))

unfoldable pub fits : Fields → Bool
fits f =
    ltb f.magic (2 ^ 32)
    && (ltb f.version (2 ^ 16)
        && (ltb f.header_length (2 ^ 16)
            && (ltb f.state (2 ^ 32)
                && (ltb f.generation (2 ^ 32)
                    && (ltb f.payload_length (2 ^ 32)
                        && (ltb f.payload_crc (2 ^ 32) && ltb f.header_crc (2 ^ 32)))))))

-- `HEADER.pack`
unfoldable pub header_pack : Fields → Result Fault Bytes
unfolding fits
header_pack f = if fits f then ok (header_bytes f) else err struct_error

-- `HEADER.unpack` of 64 bytes.
unfoldable pub header_unpack : Bytes → Fields
header_unpack blob = record {
  magic = le_value (slice blob 0 4);
  version = le_value (slice blob 4 2);
  header_length = le_value (slice blob 6 2);
  state = le_value (slice blob 8 4);
  generation = le_value (slice blob 12 4);
  payload_length = le_value (slice blob 16 4);
  payload_crc = le_value (slice blob 20 4);
  header_crc = le_value (slice blob 24 4);
  reserved = slice blob 28 36;
}

-- The values of `make_header` with the header's own checksum still 0.
abbrev pub draft_fields : ℕ → ℕ → Bytes → Fields
draft_fields state generation payload = record {
  magic = magic_word;
  version = version_number;
  header_length = header_size;
  state = state;
  generation = generation;
  payload_length = length payload;
  payload_crc = crc32 payload;
  header_crc = 0;
  reserved = replicate 36 0;
}

-- The checksum is over the header in its final state, `VALID`.
unfoldable pub make_header : ℕ → ℕ → Bytes → Result Fault Bytes
make_header state generation payload =
    elim (header_pack (draft_fields valid_state generation payload)) [
      | err e ↦ err e
      | ok draft ↦
          header_pack (record (draft_fields state generation payload) { header_crc = crc32 draft })
    ]

-- The triple that `parse_header` returns.
pub record Parsed : Type 0 where
  pub generation : ℕ
  pub payload_length : ℕ
  pub payload_crc : ℕ

-- The second `HEADER.pack` is of values just unpacked, which are in range.
unfoldable pub parse_header : Bytes → Option Parsed
parse_header blob =
    if not (length blob == header_size)
    then none
    else let f = header_unpack blob in
      let values = record f { state = valid_state; header_crc = 0 } in
      if not (
        f.magic == magic_word
        && (f.version == version_number
            && (f.header_length == header_size && f.state == valid_state)))
      then none
      else if not (crc32 (header_bytes values) == f.header_crc)
      then none
      else some (record {
        generation = f.generation;
        payload_length = f.payload_length;
        payload_crc = f.payload_crc;
      })
