-- ===== src/Protocol/Committed.antt =====
-- A transfer is stored exactly when it is complete, intact and valid.
use kb.Base.{ℕ, ◌≡◌, sym, ap, ◌∙◌, ◌≢◌, true, arith, Bytes, ljust, crc32, ok}
use kb.Protocol.Report.{Report, payload_size}
use kb.Protocol.Transfer.{
  query_version, query_capabilities, begin_op, write_op, commit_op, abort_op, read_op, select_op,
  factory_reset_op,
}
use kb.Protocol.Receiver.{
  status_code, Validators, Receiver, abort, put_store, Reply, accepts, on_commit, reply_to,
  response, process,
}
use kb.Protocol.Replies.{every_reply, process-eq-ok}

-- The transfer of the receiver is complete, its checksum is the announced one, and the validator
-- of its store accepts it.
pub record IsComplete (v : Validators) (c : Receiver) : Type 0 where
  pub going : c.receiving ≡ true
  pub full : c.next_offset ≡ c.expected
  pub intact : crc32 c.buffer ≡ c.expected_crc
  pub valid : accepts v c.store c.buffer ≡ true

abbrev Stores : Validators → Receiver → Reply → Type 0
Stores v c r =
    status_code r.status ≡ 0 → IsComplete v c × (r.state ≡ abort (put_store c c.store c.buffer))

module _ (v : Validators) (c : Receiver) (m : Report) where
  on_commit-Stores : (padded : Bytes) → Stores v c (on_commit v c m padded)
  unfolding on_commit
  on_commit-Stores padded h = ground arith

  other : (op : ℕ) (P : Type 0) → m.opcode ≡ commit_op → op ≢ commit_op → m.opcode ≡ op → P
  other op P e ne o = absurd (ne (sym o ∙ e))

  reply_to-Stores : m.opcode ≡ commit_op → Stores v c (reply_to v c m)
  reply_to-Stores e =
      let padded = ljust payload_size m.payload in
      every_reply v c m (Stores v c) (λ z. absurd (omega arith)) (λ z. absurd (omega arith))
        (λ z. absurd (omega arith)) (other query_version _ e (omega arith))
        (other query_capabilities _ e (omega arith)) (other begin_op _ e (omega arith))
        (λ o _. other write_op _ e (omega arith) o) (λ _. on_commit-Stores padded)
        (other abort_op _ e (omega arith)) (other read_op _ e (omega arith))
        (other select_op _ e (omega arith)) (other factory_reset_op _ e (omega arith))

-- A COMMIT that is answered with `OK` ends a transfer that was complete, had the announced checksum
-- and passed the validator of its store. The received bytes are then stored, and the receiver is
-- idle.
pub process-commit :
    (v : Validators) (c c' : Receiver) (m r : Report)
    → process v c m ≡ ok (c', r)
    → m.opcode ≡ commit_op
    → r.status ≡ 0
    → IsComplete v c × (c' ≡ abort (put_store c c.store c.buffer))
unfolding response
process-commit v c c' m r e o z =
    let (s, a) = process-eq-ok v c c' m r e in
    let done = reply_to-Stores v c m o (ap (λ (q : Report). q.status) a ∙ z) in
    (done.0, sym s ∙ done.1)
