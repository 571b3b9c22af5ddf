-- ===== src/Protocol/Reading.antt =====
-- Reading a store back with READ reports.
use kb.Base.{
  ℕ, zero, suc, ◌+◌, ◌-◌, ◌*◌, ◌≤◌, ◌<◌, min, ◌≡◌, refl, sym, ap, ◌∙◌, true, false, [], ◌∷◌, ◌++◌,
  arith, length, take, drop, length-take, length-drop, drop-all, drop-drop, slice, Bytes, ljust,
  any, ok, err,
}
use kb.Protocol.Report.{Report, payload_size}
use kb.Protocol.Transfer.{command_kind, read_op}
use kb.Protocol.Receiver.{
  ok_status, Validators, Receiver, stored, Reply, is_store, on_read, dispatch, reply_to, response,
  process,
}
use kb.Protocol.Accepts.{process-runs, reply_to-command}

-- A READ report for the bytes of a store from an offset on.
abbrev pub read_command : ℕ → ℕ → Report
read_command store offset = record {
  kind = command_kind;
  opcode = read_op;
  sequence = 0;
  transfer_id = 0;
  offset = offset;
  total_length = 0;
  payload = [];
  flags = store;
  status = 0;
}

-- READ after READ, each at the offset that the answer before it names; what the answers carry.
abbrev pub read_back : Validators → ℕ → ℕ → ℕ → Receiver → Bytes
read_back v store zero offset c = []
read_back v store (suc rounds) offset c = elim (process v c (read_command store offset)) [
  | err e ↦ []
  | ok (next, answer) ↦ answer.payload ++ read_back v store rounds answer.offset next
]

read_reply : Receiver → ℕ → ℕ → Reply
read_reply c store offset = record {
  state = c;
  status = ok_status;
  payload = slice (stored c store) offset payload_size;
}

take_then_drop : (n : ℕ) (xs : Bytes) → take n xs ++ drop (length (take n xs)) xs ≡ xs
take_then_drop zero xs = refl
take_then_drop (suc n) [] = refl
take_then_drop (suc n) (x ∷ xs) = ap (◌∷◌ x) (take_then_drop n xs)

module _ (v : Validators) (c : Receiver) (store : ℕ) (known : is_store store ≡ true)
    (some_bytes : 0 < length (stored c store)) where
  on_read-accepts :
      (offset : ℕ) (padded : Bytes)
      → offset ≤ length (stored c store)
      → any padded ≡ false
      → on_read c (read_command store offset) padded ≡ read_reply c store offset
  unfolding on_read read_reply
  on_read-accepts offset padded inside clean = ground arith

  reply_to-read :
      (offset : ℕ)
      → offset ≤ length (stored c store)
      → reply_to v c (read_command store offset) ≡ read_reply c store offset
  unfolding dispatch
  reply_to-read offset inside =
      reply_to-command v c (read_command store offset) (omega arith) refl refl
      ∙ on_read-accepts offset (ljust payload_size []) inside refl

  response-read :
      (offset : ℕ)
      → offset ≤ length (stored c store)
      → ((response v c (read_command store offset)).payload
          ≡ slice (stored c store) offset payload_size)
        × ((response v c (read_command store offset)).offset
            ≡ offset + length (slice (stored c store) offset payload_size))
  unfolding response read_reply
  response-read offset inside = rw (reply_to-read offset inside) (refl, refl)

  read_back-from :
      (rounds offset : ℕ)
      → offset ≤ length (stored c store)
      → length (stored c store) ≤ offset + rounds * 36
      → read_back v store rounds offset c ≡ drop offset (stored c store)
  unfolding read_reply
  read_back-from zero offset inside enough =
      sym (drop-all offset (stored c store) (omega (arith, enough)))
  read_back-from (suc rounds) offset inside enough =
      let whole = stored c store in
      let chunk = slice whole offset payload_size in
      let count : length chunk ≡ min payload_size (length whole - offset) =
        length-take payload_size (drop offset whole)
        ∙ ap (min payload_size) (length-drop offset whole) in
      let answer = response-read offset inside in
      let state : (reply_to v c (read_command store offset)).state ≡ c =
        ap (λ (r : Reply). r.state) (reply_to-read offset inside) in
      rw (
        read_back,
        process-runs v c (read_command store offset) (omega arith),
        state,
        answer.0,
        answer.1,
        read_back-from rounds (offset + length chunk) (omega (arith, count)) (omega (arith, count)),
        ← drop-drop offset (length chunk) whole,
        take_then_drop payload_size (drop offset whole),
      )

-- A stored payload is read back whole by READ reports from 0 on, each at the offset that the answer
-- before it names, in every number of reports that holds it, 36 bytes to a report.
pub read_back-stored :
    (v : Validators) (c : Receiver) (store rounds : ℕ)
    → is_store store ≡ true
    → 0 < length (stored c store)
    → length (stored c store) ≤ rounds * 36
    → read_back v store rounds 0 c ≡ stored c store
read_back-stored v c store rounds known some_bytes enough =
    read_back-from v c store known some_bytes rounds 0 (omega arith) (omega (arith, enough))
