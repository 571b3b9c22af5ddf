-- ===== src/Protocol/Answers.antt =====
-- Every answer of the receiver of protocol.py travels back in a frame.
use kb.Base.{
  ℕ, ◌+◌, ◌^◌, ◌≤◌, ◌<◌, ◌≡◌, refl, ap, inl, inr, Bool, true, false, ◌&&◌, not, arith, ltb, ◌==◌,
  if◌then◌else◌, lt→ltb, ==_iff, Bool-cases, and-eq-true, length, drop, length-take, length-drop,
  slice, Bytes, ljust, ok,
}
use kb.Protocol.Report.{Report, pack, unpack, payload_size}
use kb.Protocol.Transfer.{command_kind, read_op, query_capabilities, store_screen}
use kb.Protocol.Receiver.{
  has_arguments, Status, status_code, Validators, Receiver, Reply, abort, stored, is_above,
  on_query_version, on_query_capabilities, on_begin, on_write, on_commit, on_abort, on_read,
  on_select, on_factory_reset, is_read_reply, reply_to, response, overflows, process,
}
use kb.Protocol.Replies.{every_reply}
use kb.Protocol.Framing.{IsInRange}
use kb.Protocol.Frames.{unpack-pack, pack_fits}
use kb.Protocol.Wire.{on_wire}
use kb.Protocol.Valid.{IsValid}
use kb.Protocol.Kept.{process-IsValid}

-- The two capacities, which QUERY_CAPABILITIES sends in 32 bits.
abbrev pub HasCapacities : Receiver → Type 0
HasCapacities c = (c.screen_capacity < 2 ^ 32) × (c.profile_capacity < 2 ^ 32)

abbrev SameCapacities : Receiver → Receiver → Type 0
SameCapacities c c' =
    (c'.screen_capacity ≡ c.screen_capacity) × (c'.profile_capacity ≡ c.profile_capacity)

code_lt : (s : Status) → status_code s < 256
code_lt s = ground arith

module _ (v : Validators) (c : Receiver) (m : Report) where
  no_overflow : HasCapacities c → overflows v c m ≡ false
  no_overflow h =
      rw (lt→ltb c.screen_capacity (2 ^ 32) h.0, lt→ltb c.profile_capacity (2 ^ 32) h.1)
        (never (not (ltb payload_size (length m.payload))) (m.kind == command_kind) (m.status == 0)
          (m.opcode == query_capabilities) (not (has_arguments m (ljust payload_size m.payload))))
    where
      never : (s k t q a : Bool) → (s && (k && (t && (q && (a && false))))) ≡ false
      never s k t q a = ground arith

  same_capacities :
      (padded : Bytes)
      → SameCapacities c (on_query_version c m padded).state
        × SameCapacities c (on_query_capabilities c m padded).state
        × SameCapacities c (on_begin c m padded).state
        × SameCapacities c (on_write c m padded).state
        × SameCapacities c (on_commit v c m padded).state
        × SameCapacities c (on_abort c m padded).state
        × SameCapacities c (on_read c m padded).state
        × SameCapacities c (on_select c m padded).state
        × SameCapacities c (on_factory_reset c m padded).state
  unfolding on_query_version on_query_capabilities on_begin on_write on_commit on_abort on_read
      on_select on_factory_reset abort
  same_capacities padded = (
    ground arith,
    ground arith,
    ground arith,
    ground arith,
    ground arith,
    ground arith,
    ground arith,
    ground arith,
    ground arith,
  )

  reply_to-SameCapacities : SameCapacities c (reply_to v c m).state
  reply_to-SameCapacities =
      let kept = same_capacities (ljust payload_size m.payload) in
      every_reply v c m (λ r. SameCapacities c r.state) (refl, refl) (refl, refl) (refl, refl)
        (λ _. kept.0) (λ _. kept.1) (λ _. kept.2) (λ _ _. kept.3) (λ _. kept.4) (λ _. kept.5)
        (λ _. kept.6) (λ _. kept.7) (λ _. kept.8)

  slice_short : (xs : Bytes) (i : ℕ) → length (slice xs i payload_size) ≤ 36
  slice_short xs i = omega (arith, length-take payload_size (drop i xs))

  short_replies :
      (padded : Bytes)
      → (length (on_query_version c m padded).payload ≤ 36)
        × (length (on_query_capabilities c m padded).payload ≤ 36)
        × (length (on_begin c m padded).payload ≤ 36)
        × (length (on_write c m padded).payload ≤ 36)
        × (length (on_commit v c m padded).payload ≤ 36)
        × (length (on_abort c m padded).payload ≤ 36)
        × (length (on_read c m padded).payload ≤ 36)
        × (length (on_select c m padded).payload ≤ 36)
        × (length (on_factory_reset c m padded).payload ≤ 36)
  unfolding on_query_version on_query_capabilities on_begin on_write on_commit on_abort on_read
      on_select on_factory_reset
  short_replies padded =
      let piece = slice_short (stored c m.flags) m.offset in
      (
        ground arith,
        ground arith,
        ground arith,
        ground arith,
        ground arith,
        ground arith,
        ground arith,
        ground arith,
        ground arith,
      )

  reply_to-short : length (reply_to v c m).payload ≤ 36
  reply_to-short =
      let all = short_replies (ljust payload_size m.payload) in
      every_reply v c m (λ r. length r.payload ≤ 36) (omega arith) (omega arith) (omega arith)
        (λ _. all.0) (λ _. all.1) (λ _. all.2) (λ _ _. all.3) (λ _. all.4) (λ _. all.5) (λ _. all.6)
        (λ _. all.7) (λ _. all.8)

  -- A successful READ ends inside what is stored.
  abbrev EndsInside : Reply → Type 0
  EndsInside r =
      m.opcode ≡ read_op
      → status_code r.status ≡ 0
      → m.offset + length r.payload ≤ length (stored c m.flags)

  on_read-EndsInside : (padded : Bytes) → EndsInside (on_read c m padded)
  unfolding on_read
  on_read-EndsInside padded op done =
      let size = length-take payload_size (drop m.offset (stored c m.flags)) in
      let left = length-drop m.offset (stored c m.flags) in ground arith

  reply_to-EndsInside : EndsInside (reply_to v c m)
  reply_to-EndsInside =
      every_reply v c m EndsInside (λ op done. absurd (omega arith))
        (λ op done. absurd (omega arith)) (λ op done. absurd (omega arith))
        (λ e op. absurd (omega arith)) (λ e op. absurd (omega arith)) (λ e op. absurd (omega arith))
        (λ e short op. absurd (omega arith)) (λ e op. absurd (omega arith))
        (λ e op. absurd (omega arith)) (λ e. on_read-EndsInside (ljust payload_size m.payload))
        (λ e op. absurd (omega arith)) (λ e op. absurd (omega arith))

  process-ok : HasCapacities c → process v c m ≡ ok ((reply_to v c m).state, response v c m)
  unfolding process
  process-ok h = rw (no_overflow h) refl

-- What a valid receiver stores and expects is shorter than its capacities.
module _ (v : Validators) (c : Receiver) (h : IsValid v c) (sizes : HasCapacities c) where
  stored-lt : (flags : ℕ) → length (stored c flags) < 2 ^ 32
  stored-lt flags = elim (Bool-cases (flags == store_screen)) [
    | inl e ↦ rw e (elim h.screen [ inl empty ↦ omega arith | inr fits ↦ omega arith ])
    | inr e ↦ rw e (elim h.profile [ inl empty ↦ omega arith | inr fits ↦ omega arith ])
  ]

  expected-lt : c.expected < 2 ^ 32
  unfolding abort
  expected-lt = elim (Bool-cases c.receiving) [
    | inl busy ↦ within (h.admitted busy).within
    | inr idle ↦
        let none_expected : c.expected ≡ 0 = ap (λ (d : Receiver). d.expected) (h.idle idle) in
        omega arith
  ]
    where
      within : is_above c c.store c.expected ≡ false → c.expected < 2 ^ 32
      within e = ground arith

module _ (v : Validators) (c : Receiver) (m : Report) (h : IsValid v c) (sizes : HasCapacities c)
    (range : IsInRange m) where
  abbrev after : Receiver
  after = (reply_to v c m).state

  after-IsValid : IsValid v after
  after-IsValid = process-IsValid v c after m (response v c m) h (process-ok v c m sizes)

  after-HasCapacities : HasCapacities after
  after-HasCapacities =
      let (screen, profile) = reply_to-SameCapacities v c m in (omega arith, omega arith)

  place-lt :
      (t : Bool)
      → is_read_reply v m (reply_to v c m) ≡ t
      → ((if t then m.offset + length (reply_to v c m).payload else after.next_offset) < 2 ^ 32)
        × ((if t then length (stored c m.flags) else after.expected) < 2 ^ 32)
  place-lt true e =
      let (op, done) = and-eq-true (m.opcode == read_op) _ e in
      let inside =
        reply_to-EndsInside v c m ((==_iff m.opcode read_op).0 op) ((==_iff _ 0).0 done) in
      let small = stored-lt v c h sizes m.flags in (omega (arith, inside, small), small)
  place-lt false e =
      let small = expected-lt v after after-IsValid after-HasCapacities in
      let bounded = after-IsValid.bounded in (omega (arith, small, bounded), small)

  response-IsInRange : IsInRange (response v c m)
  unfolding response
  response-IsInRange =
      let places = place-lt (is_read_reply v m (reply_to v c m)) refl in
      record {
        kind = omega arith;
        opcode = range.opcode;
        flags = omega arith;
        status = code_lt (reply_to v c m).status;
        sequence = range.sequence;
        transfer_id = range.transfer_id;
        offset = places.0;
        total_length = places.1;
      }

  -- An answer that names the report, and that the host unpacks from its frame as it was made.
  pub record IsAnswered : Type 0 where
    pub next : Receiver
    pub answer : Report
    pub frame : Bytes
    pub answered : process v c m ≡ ok (next, answer)
    pub packed : pack answer ≡ ok frame
    pub unpacked : unpack frame ≡ ok (on_wire answer)
    pub named :
        (answer.opcode ≡ m.opcode)
        × (answer.sequence ≡ m.sequence)
        × (answer.transfer_id ≡ m.transfer_id)
    pub kept : IsValid v next

-- A valid receiver with capacities below 2^32 answers every report whose fields are in range: no
-- operation raises, the answer packs into a frame, the frame unpacks to the answer with its payload
-- padded, the answer names the report's operation, sequence number and transfer, and the receiver
-- is valid again.
pub process-IsAnswered :
    (v : Validators) (c : Receiver) (m : Report) (h : IsValid v c) (sizes : HasCapacities c)
    (range : IsInRange m)
    → IsAnswered v c m h sizes range
unfolding response
process-IsAnswered v c m h sizes range =
    let (frame, packed) =
      pack_fits (response v c m) (reply_to-short v c m) (response-IsInRange v c m h sizes range) in
    record {
      next = (reply_to v c m).state;
      answer = response v c m;
      frame = frame;
      answered = process-ok v c m sizes;
      packed = packed;
      unpacked = unpack-pack (response v c m) frame packed;
      named = (refl, refl, refl);
      kept = after-IsValid v c m h sizes range;
    }
