-- ===== src/Protocol/Receiver/Dispatch.antt =====
-- `process` of protocol.py: the choice of the operation, the guards before it and the answer.
use kb.Base.{
  ◌+◌, ◌^◌, Bool, ◌&&◌, ◌||◌, not, ltb, ◌==◌, ◌!=◌, if◌then◌else◌, length, Bytes, ljust, Result, ok,
  err,
}
use kb.Protocol.Report.{Report, ProtocolFault, struct_error, payload_size}
use kb.Protocol.Transfer.{
  command_kind, response_kind, query_version, query_capabilities, begin_op, write_op, commit_op,
  abort_op, read_op, select_op, factory_reset_op,
}
use kb.Protocol.Receiver.State.{
  status_code, Validators, Receiver, stored, Reply, refuse, bad_length, bad_state, unsupported,
}
use kb.Protocol.Receiver.Handlers.{
  has_arguments, on_query_version, on_query_capabilities, on_begin, on_write, on_commit, on_abort,
  on_read, on_select, on_factory_reset,
}

module _ (v : Validators) where
  -- The chain of `elif report.opcode == ...`.
  unfoldable pub dispatch : Receiver → Report → Bytes → Reply
  dispatch c m padded =
      if m.opcode == query_version
      then on_query_version c m padded
      else if m.opcode == query_capabilities
      then on_query_capabilities c m padded
      else if m.opcode == begin_op
      then on_begin c m padded
      else if m.opcode == write_op
      then on_write c m padded
      else if m.opcode == commit_op
      then on_commit v c m padded
      else if m.opcode == abort_op
      then on_abort c m padded
      else if m.opcode == read_op
      then on_read c m padded
      else if m.opcode == select_op
      then on_select c m padded
      else if m.opcode == factory_reset_op
      then on_factory_reset c m padded
      else refuse c unsupported

  unfoldable pub reply_to : Receiver → Report → Reply
  reply_to c m =
      if ltb payload_size (length m.payload)
      then refuse c bad_length
      else if m.kind != command_kind || m.status != 0
      then refuse c bad_state
      else dispatch c m (ljust payload_size m.payload)

  -- A successful READ answers with the end of what it read; every other frame with the progress
  -- of the transfer.
  abbrev pub is_read_reply : Report → Reply → Bool
  is_read_reply m r = m.opcode == read_op && status_code r.status == 0

  unfoldable pub response : Receiver → Report → Report
  response c m =
      let r = reply_to c m in
      record {
        kind = response_kind;
        opcode = m.opcode;
        sequence = m.sequence;
        transfer_id = m.transfer_id;
        offset = if is_read_reply m r then m.offset + length r.payload else r.state.next_offset;
        total_length = if is_read_reply m r then length (stored c m.flags) else r.state.expected;
        payload = r.payload;
        flags = 0;
        status = status_code r.status;
      }

  -- Whether the answer to a capability query needs a capacity that its `I` field does not hold.
  abbrev pub overflows : Receiver → Report → Bool
  overflows c m =
      not (ltb payload_size (length m.payload))
      && (m.kind == command_kind
          && (m.status == 0
              && (m.opcode == query_capabilities
                  && (not (has_arguments m (ljust payload_size m.payload))
                      && not (ltb c.screen_capacity (2 ^ 32) && ltb c.profile_capacity (2 ^ 32))))))

  -- `process`
  unfoldable pub process : Receiver → Report → Result ProtocolFault (Receiver × Report)
  process c m = if overflows c m then err struct_error else ok ((reply_to c m).state, response c m)
