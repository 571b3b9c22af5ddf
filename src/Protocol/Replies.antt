-- ===== src/Protocol/Replies.antt =====
-- What holds of the reply of each operation holds of the reply to a report.
use kb.Base.{
  ℕ, ◌≤◌, ◌≡◌, refl, ap, inl, inr, Bool, true, false, ◌||◌, arith, ltb, ◌==◌, ◌!=◌, if◌then◌else◌,
  Bool-cases, length, ljust, ok, guard-eq-ok,
}
use kb.Protocol.Report.{Report, payload_size}
use kb.Protocol.Transfer.{
  command_kind, query_version, query_capabilities, begin_op, write_op, commit_op, abort_op, read_op,
  select_op, factory_reset_op,
}
use kb.Protocol.Receiver.{
  bad_length, bad_state, unsupported, Validators, Receiver, Reply, refuse, on_query_version,
  on_query_capabilities, on_begin, on_write, on_commit, on_abort, on_read, on_select,
  on_factory_reset, dispatch, reply_to, response, process,
}

module _ (v : Validators) (c : Receiver) (m : Report) where
  either :
      (P : Reply → Type 0) (t : Bool) (a b : Reply)
      → (t ≡ true → P a)
      → P b
      → P (if t then a else b)
  either P true a b p q = p refl
  either P false a b p q = q

  is_op : (op : ℕ) → (m.opcode == op) ≡ true → m.opcode ≡ op
  is_op op h = ground arith

  -- What holds of the reply of every operation holds of the reply to the frame.
  pub every_reply :
      (P : Reply → Type 0)
      → P (refuse c bad_length)
      → P (refuse c bad_state)
      → P (refuse c unsupported)
      → let padded = ljust payload_size m.payload in
        (m.opcode ≡ query_version → P (on_query_version c m padded))
        → (m.opcode ≡ query_capabilities → P (on_query_capabilities c m padded))
        → (m.opcode ≡ begin_op → P (on_begin c m padded))
        → (m.opcode ≡ write_op → length m.payload ≤ payload_size → P (on_write c m padded))
        → (m.opcode ≡ commit_op → P (on_commit v c m padded))
        → (m.opcode ≡ abort_op → P (on_abort c m padded))
        → (m.opcode ≡ read_op → P (on_read c m padded))
        → (m.opcode ≡ select_op → P (on_select c m padded))
        → (m.opcode ≡ factory_reset_op → P (on_factory_reset c m padded))
        → P (reply_to v c m)
  unfolding reply_to dispatch
  every_reply P long wrong other p0 p1 p2 p3 p4 p5 p6 p7 p8 =
      let padded = ljust payload_size m.payload in
      elim (Bool-cases (ltb payload_size (length m.payload))) [
        | inl above ↦ rw above long
        | inr short ↦ rw short (
            either P (m.kind != command_kind || m.status != 0) (refuse c bad_state) _ (λ _. wrong)
              (either P (m.opcode == query_version) (on_query_version c m padded) _
                (λ e. p0 (is_op query_version e))
                (either P (m.opcode == query_capabilities) (on_query_capabilities c m padded) _
                  (λ e. p1 (is_op query_capabilities e))
                  (either P (m.opcode == begin_op) (on_begin c m padded) _
                    (λ e. p2 (is_op begin_op e))
                    (either P (m.opcode == write_op) (on_write c m padded) _
                      (λ e. p3 (is_op write_op e) (ground arith))
                      (either P (m.opcode == commit_op) (on_commit v c m padded) _
                        (λ e. p4 (is_op commit_op e))
                        (either P (m.opcode == abort_op) (on_abort c m padded) _
                          (λ e. p5 (is_op abort_op e))
                          (either P (m.opcode == read_op) (on_read c m padded) _
                            (λ e. p6 (is_op read_op e))
                            (either P (m.opcode == select_op) (on_select c m padded) _
                              (λ e. p7 (is_op select_op e))
                              (either P (m.opcode == factory_reset_op) (on_factory_reset c m padded)
                                (refuse c unsupported) (λ e. p8 (is_op factory_reset_op e))
                                other))))))))))
      ]

pub process-eq-ok :
    (v : Validators) (c c' : Receiver) (m r : Report)
    → process v c m ≡ ok (c', r)
    → ((reply_to v c m).state ≡ c') × (response v c m ≡ r)
unfolding process
process-eq-ok v c c' m r e =
    let pair = (guard-eq-ok _ _ _ _ e).1 in
    (ap (λ (p : Receiver × Report). p.0) pair, ap (λ (p : Receiver × Report). p.1) pair)
