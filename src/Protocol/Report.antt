-- ===== src/Protocol/Report.antt =====
-- The 64-byte frame of protocol.py: `Report` with `pack` and `unpack`.
use kb.Base.{
  ℕ, ◌^◌, Bool, ◌&&◌, ◌||◌, not, ◌++◌, ltb, ◌!=◌, if◌then◌else◌, length, drop, slice, Bytes, le,
  le_value, ljust, crc32, Result, ok, err,
}

abbrev pub report_id : ℕ
report_id = 0x5c

abbrev pub version_number : ℕ
version_number = 1

-- `PAYLOAD`
abbrev pub payload_size : ℕ
payload_size = 36

abbrev pub report_size : ℕ
report_size = 64

pub data ProtocolFault : Type 0 where
  protocol_error struct_error : ProtocolFault

-- The dataclass `Report`; the fields are non-negative.
pub record Report : Type 0 where
  pub kind : ℕ
  pub opcode : ℕ
  pub sequence : ℕ
  pub transfer_id : ℕ
  pub offset : ℕ
  pub total_length : ℕ
  pub payload : Bytes
  pub flags : ℕ
  pub status : ℕ

-- The values that `REPORT.pack` takes.
unfoldable pub fits : Report → Bool
fits r =
    ltb r.kind 256
    && (ltb r.opcode 256
        && (ltb r.flags 256
            && (ltb r.status 256
                && (ltb r.sequence (2 ^ 16)
                    && (ltb r.transfer_id (2 ^ 32)
                        && (ltb r.offset (2 ^ 32) && ltb r.total_length (2 ^ 32)))))))

-- The frame up to its checksum, `prefix[:-4]`.
abbrev pub frame_prefix : Report → Bytes → Bytes
frame_prefix r padded =
    le 1 report_id
    ++ (le 1 version_number
        ++ (le 1 r.kind
            ++ (le 1 r.opcode
                ++ (le 1 r.flags
                    ++ (le 1 r.status
                        ++ (le 2 r.sequence
                            ++ (le 4 r.transfer_id
                                ++ (le 4 r.offset
                                    ++ (le 4 r.total_length
                                        ++ (le 4 (crc32 padded) ++ padded))))))))))

-- `Report.pack`. The checksum is over the frame without its first byte and itself.
unfoldable pub pack : Report → Result ProtocolFault Bytes
pack r =
    if ltb payload_size (length r.payload)
    then err protocol_error
    else let padded = ljust payload_size r.payload in
      if not (fits r)
      then err struct_error
      else let frame = frame_prefix r padded in ok (frame ++ le 4 (crc32 (drop 1 frame)))

unfoldable pub fields_of : Bytes → Report
fields_of blob = record {
  kind = le_value (slice blob 2 1);
  opcode = le_value (slice blob 3 1);
  sequence = le_value (slice blob 6 2);
  transfer_id = le_value (slice blob 8 4);
  offset = le_value (slice blob 12 4);
  total_length = le_value (slice blob 16 4);
  payload = slice blob 24 36;
  flags = le_value (slice blob 4 1);
  status = le_value (slice blob 5 1);
}

-- `Report.unpack`
unfoldable pub unpack : Bytes → Result ProtocolFault Report
unpack blob =
    if length blob != report_size
    then err protocol_error
    else if le_value (slice blob 0 1) != report_id || le_value (slice blob 1 1) != version_number
    then err protocol_error
    else if crc32 (slice blob 24 36) != le_value (slice blob 20 4)
        || crc32 (slice blob 1 59) != le_value (slice blob 60 4)
    then err protocol_error
    else ok (fields_of blob)
