-- ===== src/Protocol/Outcomes.antt =====
-- What a frame can do: a refusal changes nothing.
use kb.Base.{◌≡◌, refl, sym, ap, ◌∙◌, ◌≢◌, [], arith, Bytes, ljust, ok}
use kb.Protocol.Report.{Report, payload_size}
use kb.Protocol.Transfer.{commit_op, factory_reset_op}
use kb.Protocol.Receiver.{
  status_code, Validators, Receiver, Reply, on_query_version, on_query_capabilities, on_begin,
  on_write, on_commit, on_abort, on_read, on_select, on_factory_reset, reply_to, response, process,
}
use kb.Protocol.Replies.{every_reply, process-eq-ok}

-- A reply that is not `OK` has no payload and leaves the receiver as it was.
abbrev IsAtomic : Receiver → Reply → Type 0
IsAtomic c r = status_code r.status ≢ 0 → (r.state ≡ c) × (r.payload ≡ [])

module _ (v : Validators) (c : Receiver) (m : Report) where
  on_query_version-IsAtomic : (padded : Bytes) → IsAtomic c (on_query_version c m padded)
  unfolding on_query_version
  on_query_version-IsAtomic padded h = ground arith

  on_query_capabilities-IsAtomic : (padded : Bytes) → IsAtomic c (on_query_capabilities c m padded)
  unfolding on_query_capabilities
  on_query_capabilities-IsAtomic padded h = ground arith

  on_begin-IsAtomic : (padded : Bytes) → IsAtomic c (on_begin c m padded)
  unfolding on_begin
  on_begin-IsAtomic padded h = ground arith

  on_write-IsAtomic : (padded : Bytes) → IsAtomic c (on_write c m padded)
  unfolding on_write
  on_write-IsAtomic padded h = ground arith

  on_commit-IsAtomic : (padded : Bytes) → IsAtomic c (on_commit v c m padded)
  unfolding on_commit
  on_commit-IsAtomic padded h = ground arith

  on_abort-IsAtomic : (padded : Bytes) → IsAtomic c (on_abort c m padded)
  unfolding on_abort
  on_abort-IsAtomic padded h = ground arith

  on_read-IsAtomic : (padded : Bytes) → IsAtomic c (on_read c m padded)
  unfolding on_read
  on_read-IsAtomic padded h = ground arith

  on_select-IsAtomic : (padded : Bytes) → IsAtomic c (on_select c m padded)
  unfolding on_select
  on_select-IsAtomic padded h = ground arith

  on_factory_reset-IsAtomic : (padded : Bytes) → IsAtomic c (on_factory_reset c m padded)
  unfolding on_factory_reset
  on_factory_reset-IsAtomic padded h = ground arith

  reply_to-IsAtomic : IsAtomic c (reply_to v c m)
  reply_to-IsAtomic =
      let padded = ljust payload_size m.payload in
      every_reply v c m (IsAtomic c) (λ _. (refl, refl)) (λ _. (refl, refl)) (λ _. (refl, refl))
        (λ _. on_query_version-IsAtomic padded) (λ _. on_query_capabilities-IsAtomic padded)
        (λ _. on_begin-IsAtomic padded) (λ _ _. on_write-IsAtomic padded)
        (λ _. on_commit-IsAtomic padded) (λ _. on_abort-IsAtomic padded)
        (λ _. on_read-IsAtomic padded) (λ _. on_select-IsAtomic padded)
        (λ _. on_factory_reset-IsAtomic padded)

-- A report that is answered with a status other than `OK` changes nothing in the receiver, and the
-- answer carries no payload.
pub process-refused :
    (v : Validators) (c c' : Receiver) (m r : Report)
    → process v c m ≡ ok (c', r)
    → r.status ≢ 0
    → (c' ≡ c) × (r.payload ≡ [])
unfolding response
process-refused v c c' m r e h =
    let (s, a) = process-eq-ok v c c' m r e in
    let same = reply_to-IsAtomic v c m (λ z. h (sym (ap (λ (q : Report). q.status) a) ∙ z)) in
    (sym s ∙ same.0, sym (ap (λ (q : Report). q.payload) a) ∙ same.1)

-- The stored payloads of the two stores.
abbrev stores : Receiver → Bytes × Bytes
stores c = (c.stored_screen, c.stored_profile)

module _ (c : Receiver) (m : Report) (padded : Bytes) where
  same_stores :
      (stores (on_begin c m padded).state ≡ stores c)
      × (stores (on_write c m padded).state ≡ stores c)
      × (stores (on_abort c m padded).state ≡ stores c)
      × (stores (on_select c m padded).state ≡ stores c)
      × (stores (on_query_version c m padded).state ≡ stores c)
      × (stores (on_query_capabilities c m padded).state ≡ stores c)
      × (stores (on_read c m padded).state ≡ stores c)
  unfolding on_begin on_write on_abort on_select on_query_version on_query_capabilities on_read
  same_stores = (
    ground arith,
    ground arith,
    ground arith,
    ground arith,
    ground arith,
    ground arith,
    ground arith,
  )

-- Only a COMMIT and a FACTORY_RESET change what is stored.
pub process-stores :
    (v : Validators) (c c' : Receiver) (m r : Report)
    → process v c m ≡ ok (c', r)
    → m.opcode ≢ commit_op
    → m.opcode ≢ factory_reset_op
    → (c'.stored_screen ≡ c.stored_screen) × (c'.stored_profile ≡ c.stored_profile)
process-stores v c c' m r e not_commit not_reset =
    let kept = same_stores c m (ljust payload_size m.payload) in
    let all : stores (reply_to v c m).state ≡ stores c =
      every_reply v c m (λ q. stores q.state ≡ stores c) refl refl refl (λ _. kept.4) (λ _. kept.5)
        (λ _. kept.0) (λ _ _. kept.1) (λ o. absurd (not_commit o)) (λ _. kept.2) (λ _. kept.6)
        (λ _. kept.3) (λ o. absurd (not_reset o)) in
    let there = ap stores (sym (process-eq-ok v c c' m r e).0) ∙ all in
    (ap (λ (p : Bytes × Bytes). p.0) there, ap (λ (p : Bytes × Bytes). p.1) there)
