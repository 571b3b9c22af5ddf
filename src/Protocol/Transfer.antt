-- ===== src/Protocol/Transfer.antt =====
-- The frames of a whole upload: `transfer_reports` of protocol.py.
use kb.Base.{
  ℕ, zero, suc, ◌+◌, ◌-◌, ◌*◌, ◌/◌, ◌&&◌, ◌||◌, not, List, [], ◌∷◌, leb, ◌==◌, if◌then◌else◌,
  length, slice, Bytes, le, crc32, Result, ok, err,
}
use kb.Protocol.Report.{Report, ProtocolFault, protocol_error, payload_size}

-- The kinds of a frame.
abbrev pub command_kind : ℕ
command_kind = 1

abbrev pub response_kind : ℕ
response_kind = 2

-- The operations, `range(0x10, 0x17)` and the two queries.
abbrev pub query_version : ℕ
query_version = 0x01

abbrev pub query_capabilities : ℕ
query_capabilities = 0x02

abbrev pub begin_op : ℕ
begin_op = 0x10

abbrev pub write_op : ℕ
write_op = 0x11

abbrev pub commit_op : ℕ
commit_op = 0x12

abbrev pub abort_op : ℕ
abort_op = 0x13

abbrev pub read_op : ℕ
read_op = 0x14

abbrev pub select_op : ℕ
select_op = 0x15

abbrev pub factory_reset_op : ℕ
factory_reset_op = 0x16

abbrev pub store_screen : ℕ
store_screen = 0

abbrev pub store_profile : ℕ
store_profile = 1

abbrev pub screen_slot_bytes : ℕ
screen_slot_bytes = 0x140000

abbrev pub profile_slot_bytes : ℕ
profile_slot_bytes = 0x38000

abbrev pub slot_header_bytes : ℕ
slot_header_bytes = 64

abbrev pub profile_max_bytes : ℕ
profile_max_bytes = 48 + 5 * 1792

abbrev pub screen_min_bytes : ℕ
screen_min_bytes = 64

abbrev pub profile_min_bytes : ℕ
profile_min_bytes = 48 + 1792

-- A command frame of the transfer.
abbrev pub command : ℕ → ℕ → ℕ → ℕ → Bytes → Bytes → ℕ → Report
command opcode sequence transfer_id offset whole chunk store = record {
  kind = command_kind;
  opcode = opcode;
  sequence = sequence;
  transfer_id = transfer_id;
  offset = offset;
  total_length = length whole;
  payload = chunk;
  flags = store;
  status = 0;
}

-- `for offset in range(0, len(payload), PAYLOAD)`, with the number of rounds left, and then the
-- frame behind the loop, which takes the last sequence number.
unfoldable pub write_reports : Bytes → ℕ → ℕ → ℕ → ℕ → ℕ → List Report
write_reports whole transfer_id store zero offset sequence =
    command commit_op sequence transfer_id (length whole) whole (le 4 (crc32 whole)) store ∷ []
write_reports whole transfer_id store (suc rounds) offset sequence =
    command write_op sequence transfer_id offset whole (slice whole offset payload_size) store
    ∷ write_reports whole transfer_id store rounds (offset + payload_size) (sequence + 1)

-- `len(range(0, n, PAYLOAD))`
abbrev pub round_count : ℕ → ℕ
round_count n = (n + 35) / 36

abbrev pub minimum_length : ℕ → ℕ
minimum_length store = if store == store_screen then screen_min_bytes else profile_min_bytes

abbrev pub maximum_length : ℕ → ℕ
maximum_length store =
    if store == store_screen then screen_slot_bytes - slot_header_bytes else profile_max_bytes

unfoldable pub transfer_reports : Bytes → ℕ → ℕ → Result ProtocolFault (List Report)
transfer_reports whole transfer_id store =
    if not (store == store_screen || store == store_profile)
    then err protocol_error
    else if not (leb 1 transfer_id && leb transfer_id 0xffffffff)
    then err protocol_error
    else if not
        (leb (minimum_length store) (length whole) && leb (length whole) (maximum_length store))
    then err protocol_error
    else ok (
        command begin_op 0 transfer_id 0 whole (le 4 (crc32 whole)) store
        ∷ write_reports whole transfer_id store (round_count (length whole)) 0 1)
