-- ===== src/Isp/ReadOnly.antt =====
-- Every command block that `main` of kb7-isp-verify.py sends is one of the five read-only ones.
use kb.Base.{
  ℕ, zero, suc, ◌+◌, ◌-◌, ◌%◌, ◌^◌, min, ◌≡◌, refl, Bool, true, false, ◌&&◌, ◌||◌, not, Option,
  none, some, List, [], ◌∷◌, ◌++◌, map, ltb, leb, ◌==◌, if◌then◌else◌, and-eq-true, length, take,
  slice, Bytes, eq_bytes, is_utf8, rounds, Result, ok, err, Action, pure, raise, lift, ◌>>=◌, ◌>>◌,
  raise_if,
}
use kb.Isp.Transport.{
  IspFault, value_error, runtime_error, struct_error, out_of_steps, Bus, Host,
  stable_loader_descriptor, parse_csw, is_allowed, byte_at, cbw, failed, moved, send_exact,
  receive_exact, receive_data, next_tag, exchange, command, cmd, descriptor_length,
}
use kb.Isp.Reader.{
  isp_flash_size, cdb_simple, cdb_read, round_up, regions_of, region_end, region_passes, read_next,
  read_until, connect, verify,
}

-- A command block wrapper around an F6 command with a subcode of the five.
abbrev pub is_read_only : Bytes → Bool
is_read_only wrapper = (byte_at wrapper 15 == 0xf6) && is_allowed (byte_at wrapper 16)

abbrev pub AllReadOnly : List Bytes → Type 0
AllReadOnly [] = Unit
AllReadOnly (wrapper ∷ rest) = (is_read_only wrapper ≡ true) × AllReadOnly rest

-- A bus that keeps what was sent.
abbrev pub recording : {W : Type 0} → Bus W → Bus (W × List Bytes)
recording bus = record {
  bulk_out = λ content state.
      let (sent, after) = bus.bulk_out content state.0 in
      (sent, (after, state.1 ++ (content ∷ [])));
  bulk_in =
      λ n state. let (received, after) = bus.bulk_in n state.0 in (received, (after, state.1));
  clear_halt = λ endpoint state. (bus.clear_halt endpoint state.0, state.1);
}

-- What a run has sent, from a host on such a bus.
abbrev pub log_of : {W : Type 0} → Host (W × List Bytes) → List Bytes
log_of host = host.wire.1

AllReadOnly-append :
    (log : List Bytes) (wrapper : Bytes)
    → AllReadOnly log
    → is_read_only wrapper ≡ true
    → AllReadOnly (log ++ (wrapper ∷ []))
AllReadOnly-append [] wrapper all good = (good, tt)
AllReadOnly-append (first ∷ log) wrapper all good =
    (all.0, AllReadOnly-append log wrapper all.1 good)

module _ {W : Type 0} (bus : Bus W) where
  -- An action that sends read-only wrappers only.
  Sends : {A : Type 0} → Action (Host (W × List Bytes)) IspFault A → Type 0
  Sends m =
      (host : Host (W × List Bytes)) → AllReadOnly (log_of host) → AllReadOnly (log_of (m host).1)

  bind-Sends :
      {A B : Type 0} (m : Action (Host (W × List Bytes)) IspFault A)
      (f : A → Action (Host (W × List Bytes)) IspFault B)
      → Sends m
      → ((a : A) → Sends (f a))
      → Sends (m >>= f)
  unfolding Sends
  bind-Sends {A = A} {B = B} m f first second host all = next (m host).0 (m host).1 (first host all)
    where
      next :
          (r : Result IspFault A) (after : Host (W × List Bytes))
          → AllReadOnly (log_of after)
          → AllReadOnly (
              log_of (
                let x : Result IspFault B × Host (W × List Bytes) = elim r [
                  | ok a ↦ f a after
                  | err e ↦ raise e after
                ] in
                x.1))
      next (ok a) after kept = second a after kept
      next (err e) after kept = kept

  lift-Sends : {A : Type 0} (r : Result IspFault A) → Sends (lift r)
  unfolding Sends
  lift-Sends r host all = all

  raise_if-Sends : (t : Bool) (e : IspFault) → Sends (raise_if t e)
  unfolding Sends
  raise_if-Sends true e host all = all
  raise_if-Sends false e host all = all

  -- A transfer that fails clears the endpoint or not, and sends nothing more.
  failed-AllReadOnly :
      (clears endpoint : Bool) (after : W × List Bytes)
      → AllReadOnly after.1
      → AllReadOnly (if clears then (recording bus).clear_halt endpoint after else after).1
  failed-AllReadOnly true endpoint after all = all
  failed-AllReadOnly false endpoint after all = all

  receive_exact-Sends : (n : ℕ) → Sends (receive_exact (recording bus) n)
  unfolding Sends receive_exact
  receive_exact-Sends n host all = done (bus.bulk_in n host.wire.0).0
    where
      after : W × List Bytes
      after = ((bus.bulk_in n host.wire.0).1, host.wire.1)

      done :
          (o : Option Bytes)
          → AllReadOnly (
              log_of (
                let x : Result IspFault Bytes × Host (W × List Bytes) = elim o [
                  | none ↦ (err runtime_error, failed (recording bus) true host after)
                  | some content ↦ (
                    (if length content == n then ok content else err runtime_error),
                    moved (recording bus) host after,
                  )
                ] in
                x.1))
      done none = failed-AllReadOnly host.clear_halt_on_error true after all
      done (some content) = all

  send_exact-Sends :
      (content : Bytes) → is_read_only content ≡ true → Sends (send_exact (recording bus) content)
  unfolding Sends send_exact
  send_exact-Sends content good host all = done (bus.bulk_out content host.wire.0).0
    where
      after : W × List Bytes
      after = ((bus.bulk_out content host.wire.0).1, host.wire.1 ++ (content ∷ []))

      kept : AllReadOnly after.1
      kept = AllReadOnly-append host.wire.1 content all good

      done :
          (o : Option ℕ)
          → AllReadOnly (
              log_of (
                let x : Result IspFault (Unit {0}) × Host (W × List Bytes) = elim o [
                  | none ↦ (err runtime_error, failed (recording bus) false host after)
                  | some n ↦ (
                    (if n == length content then ok tt else err runtime_error),
                    moved (recording bus) host after,
                  )
                ] in
                x.1))
      done none = failed-AllReadOnly host.clear_halt_on_error false after kept
      done (some n) = kept

  receive_data-Sends : (n : ℕ) → Sends (receive_data (recording bus) n)
  unfolding Sends receive_data
  receive_data-Sends zero host all = all
  receive_data-Sends (suc n) host all = receive_exact-Sends (suc n) host all

  -- The wrapper of a block whose first two bytes pass the guards.
  cbw-read_only :
      (tag n : ℕ) (cdb : Bytes)
      → (length cdb == 16 && (byte_at cdb 0 == 0xf6)) ≡ true
      → is_allowed (byte_at cdb 1) ≡ true
      → is_read_only (cbw tag n cdb) ≡ true
  cbw-read_only tag n cdb shape sub =
      rw ((and-eq-true (length cdb == 16) (byte_at cdb 0 == 0xf6) shape).1, sub) refl

  exchange-Sends :
      (cdb : Bytes) (n : ℕ)
      → ((tag : ℕ) → is_read_only (cbw tag n cdb) ≡ true)
      → Sends (exchange (recording bus) cdb n)
  unfolding Sends exchange
  exchange-Sends cdb n good host all =
      let tag = (host.tag + 1) % 2 ^ 32 in
      let guard : Action (Host (W × List Bytes)) IspFault (Unit {0}) =
        raise_if (not (leb n 0xffffffff)) struct_error in
      let sending = guard >> send_exact (recording bus) (cbw tag n cdb) in
      bind-Sends (sending >> receive_data (recording bus) n)
        (λ out. receive_exact (recording bus) 13 >>= λ csw.
          lift (parse_csw csw tag n) >>= λ answer. pure (out, answer.0, answer.1))
        (bind-Sends sending (λ a. receive_data (recording bus) n)
          (bind-Sends guard (λ a. send_exact (recording bus) (cbw tag n cdb))
            (raise_if-Sends (not (leb n 0xffffffff)) struct_error)
            (λ a. send_exact-Sends (cbw tag n cdb) (good tag)))
          (λ a. receive_data-Sends n))
        (λ out.
          bind-Sends (receive_exact (recording bus) 13)
            (λ csw. lift (parse_csw csw tag n) >>= λ answer. pure (out, answer.0, answer.1))
            (receive_exact-Sends 13)
            (λ csw.
              bind-Sends (lift (parse_csw csw tag n)) (λ answer. pure (out, answer.0, answer.1))
                (lift-Sends (parse_csw csw tag n))
                (λ answer. lift-Sends {A = Bytes × ℕ × ℕ} (ok (out, answer.0, answer.1)))))
        (next_tag (recording bus) host) all

  cmd-Sends : (cdb : Bytes) (n : ℕ) → Sends (cmd (recording bus) cdb n)
  unfolding Sends command
  cmd-Sends cdb n host all =
      guarded (length cdb == 16 && (byte_at cdb 0 == 0xf6)) (is_allowed (byte_at cdb 1)) refl refl
    where
      guarded :
          (shape sub : Bool)
          → (length cdb == 16 && (byte_at cdb 0 == 0xf6)) ≡ shape
          → is_allowed (byte_at cdb 1) ≡ sub
          → AllReadOnly (
              log_of (
                let x : Result IspFault (Bytes × ℕ × ℕ) × Host (W × List Bytes) =
                  if not shape
                  then (err value_error, host)
                  else if not sub
                  then (err value_error, host)
                  else exchange (recording bus) cdb n host in
                x.1))
      guarded false sub e e' = all
      guarded true false e e' = all
      guarded true true e e' = exchange-Sends cdb n (λ tag. cbw-read_only tag n cdb e e') host all

  read_next-Sends :
      (is_wrong : Bytes → Bool) (offset n : ℕ) → Sends (read_next (recording bus) is_wrong offset n)
  unfolding read_next
  read_next-Sends is_wrong offset n = bind-Sends _ _ (lift-Sends (cdb_read offset n)) (λ cdb.
      bind-Sends _ _ (cmd-Sends cdb n) (λ answer.
        bind-Sends _ _ (raise_if-Sends (not (answer.1 == 0) || is_wrong answer.0) runtime_error)
          (λ a. lift-Sends (ok answer.0))))

  if-Sends :
      {A : Type 0} (t : Bool) (m k : Action (Host (W × List Bytes)) IspFault A)
      → Sends m
      → Sends k
      → Sends (if t then m else k)
  if-Sends true m k first second = first
  if-Sends false m k first second = second

  read_until-Sends :
      (rounds : ℕ) (next : ℕ → ℕ) (is_wrong : ℕ → Bytes → Bool) (end : ℕ) (content : Bytes)
      → Sends (read_until (recording bus) rounds next is_wrong end content)
  unfolding read_until
  read_until-Sends zero next is_wrong end content =
      if-Sends (ltb (length content) end) (raise out_of_steps) (pure content)
        (lift-Sends (err out_of_steps)) (lift-Sends (ok content))
  read_until-Sends (suc rounds) next is_wrong end content =
      let n = next (length content) in
      if-Sends (ltb (length content) end) _ (pure content)
        (bind-Sends _ _ (read_next-Sends (is_wrong n) (length content) n)
          (λ piece. read_until-Sends rounds next is_wrong end (content ++ piece)))
        (lift-Sends (ok content))

  connect-Sends : Sends (connect (recording bus))
  unfolding connect
  connect-Sends = bind-Sends _ _ (cmd-Sends (cdb_simple 0x00) 2) (λ ident.
      bind-Sends _ _
        (bind-Sends _ _ (raise_if-Sends (not (eq_bytes ident.0 (1 ∷ 1 ∷ []))) runtime_error)
          (λ a. cmd-Sends (cdb_simple 0xf1) descriptor_length))
        (λ desc.
          bind-Sends _ _
            (bind-Sends _ _ (lift-Sends (stable_loader_descriptor desc.0))
              (λ a. cmd-Sends (cdb_simple 0x17) 0))
            (λ a. lift-Sends (ok tt))))

  verify-Sends : (chunk : ℕ) (full_chip : Bool) → Sends (verify (recording bus) chunk full_chip)
  unfolding verify
  verify-Sends chunk full_chip =
      bind-Sends _ _
        (bind-Sends _ _ connect-Sends (λ a.
          read_until-Sends 0x11000 (λ offset. chunk) (λ n piece. length piece == 0) 0x11000 []))
        (λ head.
          let manifest = slice head 0x10000 0x1000 in
          let regions = regions_of manifest in
          let end = if full_chip then isp_flash_size else region_end regions in
          bind-Sends _ _
            (bind-Sends _ _
              (bind-Sends _ _
                (raise_if-Sends
                  (not (eq_bytes (take 8 manifest) (83 ∷ 78 ∷ 95 ∷ 70 ∷ 87 ∷ 73 ∷ 78 ∷ 0 ∷ [])))
                  runtime_error)
                (λ a. raise_if-Sends (not (is_utf8 (slice manifest 8 8))) value_error))
              (λ a.
                read_until-Sends end (λ offset. round_up (min chunk (end - offset)))
                  (λ n piece. not (length piece == n)) end head))
            (λ content. lift-Sends (ok (content, map (region_passes content) regions))))

-- Whatever the bus does, the size of a chunk and the extent that is asked for, a run that begins
-- with nothing sent has sent only wrappers of the five read-only commands when it ends, by a result
-- or by an error.
pub verify-AllReadOnly :
    {W : Type 0} (bus : Bus W) (chunk : ℕ) (full_chip clears : Bool) (tag : ℕ) (wire : W)
    → AllReadOnly (
        log_of
          (verify
            (recording bus)
            chunk
            full_chip
            (record { clear_halt_on_error = clears; tag = tag; wire = (wire, []) })).1)
unfolding Sends
verify-AllReadOnly bus chunk full_chip clears tag wire =
    verify-Sends bus chunk full_chip
      (record { clear_halt_on_error = clears; tag = tag; wire = (wire, []) }) tt
