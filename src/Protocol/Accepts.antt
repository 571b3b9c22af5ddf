-- ===== src/Protocol/Accepts.antt =====
-- When the receiver accepts each step of a transfer.
use kb.Base.{
  ℕ, ◌≤◌, ◌<◌, ◌≡◌, ap, ◌∙◌, ◌≢◌, Bool, true, false, ◌&&◌, ◌||◌, not, arith, ltb, ◌==◌, ◌!=◌,
  length, take, drop, Bytes, le_value, ljust, any, crc32, ok,
}
use kb.Protocol.Report.{Report, payload_size}
use kb.Protocol.Transfer.{command_kind, query_capabilities}
use kb.Protocol.Receiver.{
  status_code, Validators, Receiver, abort, put_store, Reply, accept, is_store, lower_limit,
  is_above, begun, chunk_size, extended, on_begin, on_write, accepts, on_commit, dispatch, reply_to,
  response, process,
}

-- A report other than a capability query is always answered.
no_overflow :
    (a b d rest : Bool) (opcode : ℕ)
    → opcode ≢ query_capabilities
    → (not a && (b && (d && (opcode == query_capabilities && rest)))) ≡ false
no_overflow a b d rest opcode h = ground arith

pub process-runs :
    (v : Validators) (c : Receiver) (m : Report)
    → m.opcode ≢ query_capabilities
    → process v c m ≡ ok ((reply_to v c m).state, response v c m)
unfolding process
process-runs v c m h = rw (process, no_overflow _ _ _ _ m.opcode h)

pub reply_to-command :
    (v : Validators) (c : Receiver) (m : Report)
    → length m.payload ≤ 36
    → m.kind ≡ command_kind
    → m.status ≡ 0
    → reply_to v c m ≡ dispatch v c m (ljust payload_size m.payload)
unfolding reply_to
reply_to-command v c m short k z =
    rw (reply_to, not_above (length m.payload) short, no_clash m.kind m.status k z)
  where
    not_above : (n : ℕ) → n ≤ 36 → ltb payload_size n ≡ false
    not_above n h = ground arith

    no_clash : (a b : ℕ) → a ≡ command_kind → b ≡ 0 → (a != command_kind || b != 0) ≡ false
    no_clash a b p q = ground arith

-- When each step of a transfer is accepted.
pub on_begin-accepts :
    (c : Receiver) (m : Report) (padded : Bytes)
    → c.receiving ≡ false
    → is_store m.flags ≡ true
    → m.transfer_id ≢ 0
    → m.offset ≡ 0
    → 4 ≤ length m.payload
    → any (drop 4 padded) ≡ false
    → lower_limit m.flags ≤ m.total_length
    → is_above c m.flags m.total_length ≡ false
    → on_begin c m padded ≡ accept (begun c m)
unfolding on_begin
on_begin-accepts c m padded idle known named start long clean enough within = ground arith

pub on_write-accepts :
    (c : Receiver) (m : Report) (padded : Bytes)
    → c.receiving ≡ true
    → m.flags ≡ c.store
    → m.transfer_id ≡ c.transfer_id
    → m.offset ≡ c.next_offset
    → m.total_length ≡ c.expected
    → c.next_offset < c.expected
    → any (drop (chunk_size c) padded) ≡ false
    → on_write c m padded ≡ accept (extended c padded)
unfolding on_write
on_write-accepts c m padded going store named at total room clean = ground arith

pub on_commit-accepts :
    (v : Validators) (c : Receiver) (m : Report) (padded : Bytes)
    → c.receiving ≡ true
    → m.flags ≡ c.store
    → m.transfer_id ≡ c.transfer_id
    → m.offset ≡ c.expected
    → m.total_length ≡ c.expected
    → c.next_offset ≡ c.expected
    → le_value (take 4 padded) ≡ c.expected_crc
    → any (drop 4 padded) ≡ false
    → crc32 c.buffer ≡ c.expected_crc
    → accepts v c.store c.buffer ≡ true
    → on_commit v c m padded ≡ accept (abort (put_store c c.store c.buffer))
unfolding on_commit
on_commit-accepts v c m padded going store named at total full supplied clean intact valid =
    ground arith

-- An accepted command.
module _ (v : Validators) (c c' : Receiver) (m : Report) (other : m.opcode ≢ query_capabilities)
    (short : length m.payload ≤ 36) (k : m.kind ≡ command_kind) (z : m.status ≡ 0)
    (e : dispatch v c m (ljust payload_size m.payload) ≡ accept c') where
  accepted : reply_to v c m ≡ accept c'
  accepted = reply_to-command v c m short k z ∙ e

  pub process-accepts : (r : Report) × (process v c m ≡ ok (c', r)) × (r.status ≡ 0)
  unfolding response
  process-accepts = (
    response v c m,
    process-runs v c m other ∙ ap (λ (q : Reply). ok (q.state, response v c m)) accepted,
    ap (λ (q : Reply). status_code q.status) accepted,
  )
