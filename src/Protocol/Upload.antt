-- ===== src/Protocol/Upload.antt =====
-- A whole upload: the plan of `transfer_reports`, packed, received and stored.
use kb.Base.{
  ℕ, zero, suc, ◌+◌, ◌-◌, ◌*◌, ◌^◌, ◌≤◌, ◌<◌, min, ◌≡◌, refl, ap, ◌∙◌, ◌≢◌, true, false, List, [],
  ◌∷◌, ◌++◌, arith, le→leb, length, take, drop, replicate, length-take, length-drop, take-all,
  take-append-take, slice, Bytes, le, le_value, ljust, length-ljust, take-ljust, any-drop-ljust,
  crc32, crc32-lt, ok,
}
use kb.Protocol.Report.{Report, payload_size}
use kb.Protocol.Transfer.{begin_op, write_op, commit_op}
use kb.Protocol.Receiver.{
  Validators, Receiver, abort, put_store, accept, is_store, lower_limit, is_above, begun,
  chunk_size, extended, accepts, dispatch, process,
}
use kb.Protocol.Framing.{IsInRange}
use kb.Protocol.Transfer.{
  command, write_reports, round_count, minimum_length, maximum_length, transfer_reports,
}
use kb.Protocol.Wire.{on_wire, ljust-ljust, Delivered, Delivered-nil, Delivered-cons}
use kb.Protocol.Accepts.{process-accepts, on_begin-accepts, on_write-accepts, on_commit-accepts}

Delivered-accept :
    (v : Validators) (c c' c'' : Receiver) (m : Report) (ms : List Report) (statuses : List ℕ)
    → length m.payload ≤ 36
    → IsInRange m
    → (r : Report) × (process v c (on_wire m) ≡ ok (c', r)) × (r.status ≡ 0)
    → Delivered v c' ms c'' statuses
    → Delivered v c (m ∷ ms) c'' (0 ∷ statuses)
Delivered-accept v c c' c'' m ms statuses short range (r, e, z) d =
    rw z at (Delivered-cons v c c' c'' m r ms statuses short range e d)

module _ (v : Validators) (c : Receiver) (whole : Bytes) (transfer_id store : ℕ)
    (idle : c.receiving ≡ false) (known : is_store store ≡ true) (named : transfer_id ≢ 0)
    (id_fits : transfer_id < 2 ^ 32) (enough : lower_limit store ≤ length whole)
    (within : is_above c store (length whole) ≡ false) (length_fits : length whole < 2 ^ 32)
    (valid : accepts v store whole ≡ true) where
  -- The receiver when the bytes before `offset` have arrived.
  abbrev mid : ℕ → Receiver
  mid offset = record c {
    receiving = true;
    transfer_id = transfer_id;
    expected = length whole;
    expected_crc = crc32 whole;
    next_offset = min offset (length whole);
    buffer = take offset whole;
    store = store;
  }

  abbrev stored_state : Receiver
  stored_state = abort (put_store c store whole)

  crc_word : le_value (le 4 (crc32 whole)) ≡ crc32 whole
  crc_word = le-word (crc32 whole) (crc32-lt whole)
    where
      le-word : (n : ℕ) → n < 2 ^ 32 → le_value (le 4 n) ≡ n
      le-word n h = omega arith

  store_fits : store < 256
  store_fits = ground (arith, known)

  begin_step :
      (r : Report) × (process v c
          (on_wire (command begin_op 0 transfer_id 0 whole (le 4 (crc32 whole)) store))
        ≡ ok (mid 0, r))
      × (r.status ≡ 0)
  unfolding dispatch
  begin_step =
      let m = on_wire (command begin_op 0 transfer_id 0 whole (le 4 (crc32 whole)) store) in
      process-accepts v c (mid 0) m (omega arith) (omega arith) refl refl (
        on_begin-accepts c m m.payload idle known named refl (omega arith) refl enough within
        ∙ ap accept same)
    where
      same :
          begun c (on_wire (command begin_op 0 transfer_id 0 whole (le 4 (crc32 whole)) store))
          ≡ mid 0
      same = λ i. record (mid 0) {
        expected_crc = crc_word i;
        next_offset = let e : 0 ≡ min 0 (length whole) = omega arith in e i;
      }

  module _ (offset : ℕ) (room : offset < length whole) where
    abbrev chunk : Bytes
    chunk = slice whole offset payload_size

    length-chunk : length chunk ≡ min 36 (length whole - offset)
    length-chunk = omega (arith, length-take 36 (drop offset whole), length-drop offset whole)

    short : length chunk ≤ 36
    short = omega (arith, length-chunk)

    chunk_size-mid : chunk_size (mid offset) ≡ length chunk
    chunk_size-mid = omega (arith, length-chunk, room)

    extended-mid : extended (mid offset) (ljust 36 chunk) ≡ mid (offset + 36)
    extended-mid = λ i. record (mid (offset + 36)) { next_offset = next i; buffer = filled i }
      where
        next :
            min offset (length whole) + chunk_size (mid offset) ≡ min (offset + 36) (length whole)
        next = omega (arith, room)

        filled :
            take offset whole ++ take (chunk_size (mid offset)) (ljust 36 chunk)
            ≡ take (offset + 36) whole
        filled = rw (chunk_size-mid, take-ljust 36 chunk short) (take-append-take offset 36 whole)

    write_step :
        (sequence : ℕ)
        → (r : Report) × (process v
              (mid offset)
              (on_wire (command write_op sequence transfer_id offset whole chunk store))
            ≡ ok (mid (offset + 36), r))
          × (r.status ≡ 0)
    unfolding dispatch
    write_step sequence =
        let m = on_wire (command write_op sequence transfer_id offset whole chunk store) in
        process-accepts v (mid offset) (mid (offset + 36)) m (omega arith)
          (omega (arith, length-ljust 36 chunk short)) refl refl
          (rw (ljust-ljust 36 chunk short) (
            on_write-accepts (mid offset) m (ljust 36 chunk) refl refl refl (omega (arith, room))
              refl (omega (arith, room)) (rw chunk_size-mid (any-drop-ljust 36 chunk))
            ∙ ap accept extended-mid))

  commit_step :
      (offset sequence : ℕ)
      → length whole ≤ offset
      → (r : Report) × (process v (mid offset) (
            on_wire (
              command commit_op sequence transfer_id
                (length whole)
                whole
                (le 4 (crc32 whole))
                store))
          ≡ ok (stored_state, r))
        × (r.status ≡ 0)
  unfolding dispatch abort
  commit_step offset sequence past =
      let m =
        on_wire (
          command commit_op sequence transfer_id (length whole) whole (le 4 (crc32 whole)) store) in
      process-accepts v (mid offset) stored_state m (omega arith) (omega arith) refl refl (
        on_commit-accepts v (mid offset) m m.payload refl refl refl refl refl (omega (arith, past))
          crc_word refl (ap crc32 all_here) (rw all_here valid)
        ∙ ap (λ xs. accept (abort (put_store c store xs))) all_here)
    where
      all_here : take offset whole ≡ whole
      all_here = take-all offset whole past

  command-IsInRange :
      (opcode sequence offset : ℕ) (content : Bytes)
      → opcode < 256
      → sequence < 2 ^ 16
      → offset ≤ length whole
      → IsInRange (command opcode sequence transfer_id offset whole content store)
  command-IsInRange opcode sequence offset content o s p = record {
    kind = omega arith;
    opcode = o;
    flags = store_fits;
    status = omega arith;
    sequence = s;
    transfer_id = id_fits;
    offset = omega (arith, length_fits);
    total_length = length_fits;
  }

  -- The frames from `offset` on, with the rounds that are left.
  writes-Delivered :
      (rounds offset sequence : ℕ)
      → length whole ≤ offset + 36 * rounds
      → offset + 36 * rounds < length whole + 36
      → sequence + rounds < 2 ^ 16
      → Delivered v
          (mid offset)
          (write_reports whole transfer_id store rounds offset sequence)
          stored_state
          (replicate (suc rounds) 0)
  unfolding write_reports
  writes-Delivered zero offset sequence past near small =
      Delivered-accept v (mid offset) stored_state stored_state _ [] [] (omega arith)
        (command-IsInRange commit_op sequence (length whole) _ (omega arith) (omega arith)
          (omega arith))
        (commit_step offset sequence (omega (arith, past))) (Delivered-nil v stored_state)
  writes-Delivered (suc rounds) offset sequence past near small =
      let room : offset < length whole = omega (arith, near) in
      Delivered-accept v (mid offset) (mid (offset + 36)) stored_state _ _ _ (short offset room)
        (command-IsInRange write_op sequence offset _ (omega arith) (omega arith) (omega arith))
        (write_step offset room sequence)
        (writes-Delivered rounds (offset + 36) (sequence + 1) (omega arith) (omega arith)
          (omega arith))

  pub plan-Delivered :
      length whole < 36 * 65000
      → Delivered v c
          (command begin_op 0 transfer_id 0 whole (le 4 (crc32 whole)) store
            ∷ write_reports whole transfer_id store (round_count (length whole)) 0 1)
          stored_state
          (replicate (suc (suc (round_count (length whole)))) 0)
  plan-Delivered small =
      Delivered-accept v c (mid 0) stored_state _ _ _ (omega arith)
        (command-IsInRange begin_op 0 0 _ (omega arith) (omega arith) (omega arith)) begin_step
        (writes-Delivered (round_count (length whole)) 0 1 (omega arith) (omega arith)
          (omega arith))

-- What `transfer_reports` asks of its arguments.
abbrev pub CanTransfer : Bytes → ℕ → ℕ → Type 0
CanTransfer whole transfer_id store =
    (is_store store ≡ true)
    × (1 ≤ transfer_id)
    × (transfer_id ≤ 0xffffffff)
    × (minimum_length store ≤ length whole)
    × (length whole ≤ maximum_length store)

plan_made :
    (whole : Bytes) (transfer_id store : ℕ)
    → CanTransfer whole transfer_id store
    → transfer_reports whole transfer_id store
      ≡ ok (
          command begin_op 0 transfer_id 0 whole (le 4 (crc32 whole)) store
          ∷ write_reports whole transfer_id store (round_count (length whole)) 0 1)
unfolding transfer_reports
plan_made whole transfer_id store (known, named, fits, enough, within) = rw (
  transfer_reports,
  known,
  le→leb 1 transfer_id named,
  le→leb transfer_id 0xffffffff fits,
  le→leb (minimum_length store) (length whole) enough,
  le→leb (length whole) (maximum_length store) within,
)

-- For an idle receiver, a payload, a transfer number and a store that `transfer_reports` takes, a
-- payload that its validator accepts and that fits the capacity of the store: the plan is made, each
-- of its reports packs into a frame, the receiver answers each frame with `OK`, and it ends idle
-- with the payload stored and everything else as it was.
pub upload :
    (v : Validators) (c : Receiver) (whole : Bytes) (transfer_id store : ℕ)
    → c.receiving ≡ false
    → CanTransfer whole transfer_id store
    → is_above c store (length whole) ≡ false
    → accepts v store whole ≡ true
    → (plan : List Report) × (transfer_reports whole transfer_id store ≡ ok plan)
      × Delivered v c plan
          (abort (put_store c store whole))
          (replicate (suc (suc (round_count (length whole)))) 0)
upload v c whole transfer_id store idle can within valid = (
  _,
  plan_made whole transfer_id store can,
  plan-Delivered v c whole transfer_id store idle can.0 (omega (arith, can)) (omega (arith, can))
      can.3 within (omega (arith, small)) valid small,
)
  where
    cap_small : (n : ℕ) → n ≤ maximum_length store → n < 36 * 65000
    cap_small n h = ground arith

    small : length whole < 36 * 65000
    small = cap_small (length whole) can.4
