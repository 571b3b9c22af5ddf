-- ===== src/Protocol/Kept.antt =====
-- Every frame keeps the receiver's invariant.
use kb.Base.{◌≡◌, inl, inr, arith, length, Bytes, ljust, length-ljust, ok}
use kb.Protocol.Report.{Report, payload_size}
use kb.Protocol.Receiver.{
  Validators, Receiver, on_query_version, on_query_capabilities, on_begin, on_write, on_commit,
  on_abort, on_read, on_select, on_factory_reset, reply_to, process,
}
use kb.Protocol.Valid.{
  IsValid, abort-IsValid, on_begin-cases, on_write-cases, on_commit-cases, on_abort-cases,
  on_select-cases, on_factory_reset-cases, begun-IsValid, extended-IsValid, committed-IsValid,
  reset-IsValid, select-IsValid,
}
use kb.Protocol.Replies.{every_reply, process-eq-ok}

module _ (v : Validators) where
  module _ (c : Receiver) (h : IsValid v c) where
    on_begin-IsValid : (m : Report) (padded : Bytes) → IsValid v (on_begin c m padded).state
    on_begin-IsValid m padded = elim (on_begin-cases v c h m padded) [
      | inl e ↦ rw e h
      | inr (e, named, known, enough, within) ↦
          rw e (begun-IsValid v c h m named known enough within)
    ]

    on_write-IsValid :
        (m : Report) (padded : Bytes) → length padded ≡ 36 → IsValid v (on_write c m padded).state
    on_write-IsValid m padded full = elim (on_write-cases v c h m padded) [
      | inl e ↦ rw e h
      | inr (e, going) ↦ rw e (extended-IsValid v c h padded full going)
    ]

    on_commit-IsValid : (m : Report) (padded : Bytes) → IsValid v (on_commit v c m padded).state
    on_commit-IsValid m padded = elim (on_commit-cases v c h m padded) [
      | inl e ↦ rw e h
      | inr (e, going, complete, _, good) ↦ rw e (committed-IsValid v c h going complete good)
    ]

    on_abort-IsValid : (m : Report) (padded : Bytes) → IsValid v (on_abort c m padded).state
    on_abort-IsValid m padded = elim (on_abort-cases v c h m padded) [
      | inl e ↦ rw e h
      | inr e ↦ rw e (abort-IsValid v c h)
    ]

    on_select-IsValid : (m : Report) (padded : Bytes) → IsValid v (on_select c m padded).state
    on_select-IsValid m padded = elim (on_select-cases v c h m padded) [
      | inl e ↦ rw e h
      | inr (e, known) ↦ rw e (select-IsValid v c h m.offset known)
    ]

    on_factory_reset-IsValid :
        (m : Report) (padded : Bytes) → IsValid v (on_factory_reset c m padded).state
    on_factory_reset-IsValid m padded = elim (on_factory_reset-cases v c h m padded) [
      | inl e ↦ rw e h
      | inr e ↦ rw e (reset-IsValid v c h)
    ]

    -- The operations that only answer.
    quiet :
        (m : Report) (padded : Bytes)
        → ((on_query_version c m padded).state ≡ c)
          × ((on_query_capabilities c m padded).state ≡ c)
          × ((on_read c m padded).state ≡ c)
    unfolding on_query_version on_query_capabilities on_read
    quiet m padded = (ground arith, ground arith, ground arith)

    reply_to-IsValid : (m : Report) → IsValid v (reply_to v c m).state
    reply_to-IsValid m =
        let padded = ljust payload_size m.payload in
        every_reply v c m (λ r. IsValid v r.state) h h h (λ _. rw (quiet m padded).0 h)
          (λ _. rw (quiet m padded).1 h) (λ _. on_begin-IsValid m padded)
          (λ _ short. on_write-IsValid m padded (length-ljust 36 m.payload short))
          (λ _. on_commit-IsValid m padded) (λ _. on_abort-IsValid m padded)
          (λ _. rw (quiet m padded).2 h) (λ _. on_select-IsValid m padded)
          (λ _. on_factory_reset-IsValid m padded)

-- Every report that `process` answers keeps the invariant.
pub process-IsValid :
    (v : Validators) (c c' : Receiver) (m r : Report)
    → IsValid v c
    → process v c m ≡ ok (c', r)
    → IsValid v c'
process-IsValid v c c' m r h e = rw (process-eq-ok v c c' m r e).0 at (reply_to-IsValid v c h m)
