-- ===== src/Protocol/Receiver/Handlers.antt =====
-- The operations that `process` of protocol.py handles, one function for each.
use kb.Base.{
  ℕ, ◌+◌, ◌-◌, min, Bool, true, ◌&&◌, ◌||◌, not, [], ◌∷◌, ◌++◌, ltb, leb, ◌==◌, ◌!=◌, if◌then◌else◌,
  length, take, drop, slice, Bytes, le, le_value, any, eq_bytes, crc32,
}
use kb.Protocol.Report.{Report, payload_size, version_number}
use kb.Protocol.Transfer.{store_screen, slot_header_bytes, profile_max_bytes}
use kb.Protocol.Receiver.State.{
  reset_token, capabilities, reset_text, Validators, Receiver, abort, stored, put_store, contains,
  Reply, refuse, accept, is_store, ok_status, bad_length, bad_state, bad_crc, range_status,
}

-- The test that the two queries share.
abbrev pub has_arguments : Report → Bytes → Bool
has_arguments m padded =
    m.flags != 0 || (m.transfer_id != 0 || (m.offset != 0 || (m.total_length != 0 || any padded)))

unfoldable pub on_query_version : Receiver → Report → Bytes → Reply
on_query_version c m padded =
    if has_arguments m padded
    then refuse c bad_length
    else record { state = c; status = ok_status; payload = version_number ∷ 1 ∷ [] }

-- `struct.pack("<HHBBIBBBB HIII", ...)`
abbrev pub capability_bytes : Receiver → Bytes
capability_bytes c =
    le 2 480
    ++ (le 2 800
        ++ (le 1 16
            ++ (le 1 128
                ++ (le 4 c.screen_capacity
                    ++ (le 1 1
                        ++ (le 1 1
                            ++ (le 1 5
                                ++ (le 1 version_number
                                    ++ (le 2 1792
                                        ++ (le 4 c.profile_capacity
                                            ++ (le 4 profile_max_bytes
                                                ++ le 4 capabilities)))))))))))

unfoldable pub on_query_capabilities : Receiver → Report → Bytes → Reply
on_query_capabilities c m padded =
    if has_arguments m padded
    then refuse c bad_length
    else record { state = c; status = ok_status; payload = capability_bytes c }

abbrev pub lower_limit : ℕ → ℕ
lower_limit flags = if flags == store_screen then 64 else 48 + 1792

-- Whether a length is above the limit of a store. A capacity below the header admits none.
abbrev pub is_above : Receiver → ℕ → ℕ → Bool
is_above c flags n =
    if flags == store_screen
    then ltb c.screen_capacity (n + slot_header_bytes)
    else ltb profile_max_bytes n || ltb c.profile_capacity (n + slot_header_bytes)

-- The receiver at the start of a transfer.
abbrev pub begun : Receiver → Report → Receiver
begun c m = record c {
  receiving = true;
  transfer_id = m.transfer_id;
  expected = m.total_length;
  expected_crc = le_value (take 4 m.payload);
  next_offset = 0;
  buffer = [];
  store = m.flags;
}

unfoldable pub on_begin : Receiver → Report → Bytes → Reply
on_begin c m padded =
    if c.receiving
    then refuse c bad_state
    else if not (is_store m.flags)
        || (m.transfer_id == 0
            || (m.offset != 0 || (ltb (length m.payload) 4 || any (drop 4 padded))))
    then refuse c bad_length
    else if ltb m.total_length (lower_limit m.flags) || is_above c m.flags m.total_length
    then refuse c range_status
    else accept (begun c m)

-- How many bytes of the padded payload the next WRITE takes, and the receiver behind it.
abbrev pub chunk_size : Receiver → ℕ
chunk_size c = min payload_size (c.expected - c.next_offset)

abbrev pub extended : Receiver → Bytes → Receiver
extended c padded = record c {
  buffer = c.buffer ++ take (chunk_size c) padded;
  next_offset = c.next_offset + chunk_size c;
}

unfoldable pub on_write : Receiver → Report → Bytes → Reply
on_write c m padded =
    if not c.receiving
      || (m.flags != c.store
          || (m.transfer_id != c.transfer_id
              || (m.offset != c.next_offset
                  || (m.total_length != c.expected || leb c.expected c.next_offset))))
    then refuse c bad_state
    else if any (drop (chunk_size c) padded)
    then refuse c bad_length
    else accept (extended c padded)

module _ (v : Validators) where
  abbrev pub accepts : ℕ → Bytes → Bool
  accepts store content =
      if store == store_screen then v.accepts_screen content else v.accepts_profile content

  unfoldable pub on_commit : Receiver → Report → Bytes → Reply
  unfolding abort
  on_commit c m padded =
      if not c.receiving
        || (m.flags != c.store
            || (m.transfer_id != c.transfer_id
                || (m.offset != c.expected || m.total_length != c.expected)))
      then refuse c bad_state
      else if c.next_offset != c.expected
          || (le_value (take 4 padded) != c.expected_crc
              || (any (drop 4 padded) || crc32 c.buffer != c.expected_crc))
      then refuse c bad_crc
      else if not (accepts c.store c.buffer)
      then refuse c bad_length
      else accept (abort (put_store c c.store c.buffer))

unfoldable pub on_abort : Receiver → Report → Bytes → Reply
unfolding abort
on_abort c m padded =
    if not (is_store m.flags) || (m.offset != 0 || (m.total_length != 0 || any padded))
    then refuse c bad_length
    else if c.receiving && (m.transfer_id != c.transfer_id || m.flags != c.store)
    then refuse c bad_state
    else accept (abort c)

unfoldable pub on_read : Receiver → Report → Bytes → Reply
on_read c m padded =
    if not (is_store m.flags) || (m.transfer_id != 0 || (m.total_length != 0 || any padded))
    then refuse c bad_length
    else if ltb (length (stored c m.flags)) m.offset
    then refuse c range_status
    else if length (stored c m.flags) == 0
    then refuse c bad_state
    else record {
      state = c;
      status = ok_status;
      payload = slice (stored c m.flags) m.offset payload_size;
    }

unfoldable pub on_select : Receiver → Report → Bytes → Reply
on_select c m padded =
    if m.flags != 0
      || (m.transfer_id != 0 || (m.total_length != 0 || (any padded || ltb 0xffff m.offset)))
    then refuse c bad_length
    else if not (contains c.runtime_screen_ids m.offset)
    then refuse c range_status
    else accept (record c { selected_screen = m.offset })

unfoldable pub on_factory_reset : Receiver → Report → Bytes → Reply
unfolding abort
on_factory_reset c m padded =
    if c.receiving
    then refuse c bad_state
    else if m.flags != 0xa5
        || (m.transfer_id != reset_token
            || (m.offset != 0
                || (m.total_length != 0
                    || (not (eq_bytes (take 8 padded) reset_text) || any (drop 8 padded)))))
    then refuse c bad_state
    else accept (abort (record c { stored_screen = []; stored_profile = [] }))
