-- ===== src/Isp/Exchange.antt =====
-- `Device.cmd` of kb7-isp-verify.py against a loader that follows the transport.
use kb.Base.{
  ℕ, zero, suc, ◌+◌, ◌%◌, ◌^◌, ◌<◌, ◌≡◌, refl, ap, ◌∙◌, Bool, true, false, not, Option, none, some,
  [], ◌∷◌, ◌++◌, arith, leb, ◌==◌, if◌then◌else◌, le→leb, ==_refl, length, Bytes, le, le_value,
  Result, ok, err, Action, pure, raise, lift, ◌>>=◌, ◌>>◌, raise_if,
}
use kb.Isp.Transport.{
  IspFault, runtime_error, struct_error, failed, Bus, Host, parse_csw, is_allowed, byte_at, cbw,
  send_exact, receive_exact, receive_data, moved, next_tag, exchange, command, cmd,
}

-- The status wrapper of a command that succeeds: the loader leaves the length as the residue.
abbrev pub csw : ℕ → ℕ → Bytes
csw tag n = le 4 0x53425355 ++ (le 4 tag ++ (le 4 n ++ (0 ∷ [])))

-- The state of the bus behind the data phase.
abbrev pub DataPhase : {W : Type 0} → Bus W → Bytes → ℕ → W → W → Type 0
DataPhase bus content zero before after = before ≡ after
DataPhase bus content (suc n) before after = bus.bulk_in (suc n) before ≡ (some content, after)

-- A loader that answers every wrapper that it receives when it is ready: it takes the 31 bytes,
-- sends its reply and then the status wrapper of the tag, and is ready again.
pub record IsLoader {W : Type 0} (bus : Bus W) (IsReady : W → Type 0) (reply : Bytes → ℕ → Bytes)
    : Type 0 where
  pub answers :
      (wire : W) (tag n : ℕ) (cdb : Bytes)
      → IsReady wire
      → tag < 2 ^ 32
      → n < 2 ^ 32
      → length cdb ≡ 16
      → (taken : W) × (replied : W) × (done : W) × (bus.bulk_out (cbw tag n cdb) wire
          ≡ (some 31, taken))
        × DataPhase bus (reply cdb n) n taken replied
        × (bus.bulk_in 13 replied ≡ (some (csw tag n), done))
        × IsReady done
  pub length-reply : (cdb : Bytes) (n : ℕ) → length (reply cdb n) ≡ n

parse_csw-csw : (tag n : ℕ) → tag < 2 ^ 32 → n < 2 ^ 32 → parse_csw (csw tag n) tag n ≡ ok (0, n)
unfolding parse_csw
parse_csw-csw tag n small small' =
    rw
      (
        le→leb n 0xffffffff (omega arith),
        tag_back tag small,
        ==_refl tag,
        tag_back n small',
        ==_refl n,
      )
      refl
  where
    tag_back : (m : ℕ) → m < 2 ^ 32 → le_value (le 4 m) ≡ m
    tag_back m below = omega arith

pub bind-ok :
    {S E A B : Type 0} (m : Action S E A) (f : A → Action S E B) (s s' : S) (a : A)
    → m s ≡ (ok a, s')
    → (m >>= f) s ≡ f a s'
bind-ok {S = S} {E = E} {A = A} {B = B} m f s s' a e =
    ap
      (λ (r : Result E A × S).
        let x : Result E B × S = elim r.0 [ ok a ↦ f a r.1 | err e ↦ raise e r.1 ] in x)
      e

pub raise_if-ok :
    {S E : Type 0} (t : Bool) (e : E) (s : S) → t ≡ false → raise_if t e s ≡ (ok tt, s)
raise_if-ok t e s h = rw h refl

send_exact-sent :
    {W : Type 0} (bus : Bus W) (content : Bytes) (host : Host W) (after : W)
    → bus.bulk_out content host.wire ≡ (some (length content), after)
    → send_exact bus content host ≡ (ok tt, moved bus host after)
unfolding send_exact
send_exact-sent {W = W} bus content host after e =
    ap
      (λ (r : Option ℕ × W).
        let x : Result IspFault (Unit {0}) × Host W = elim r.0 [
          | none ↦ (err runtime_error, failed bus false host r.1)
          | some n ↦
              ((if n == length content then ok tt else err runtime_error), moved bus host r.1)
        ] in
        x)
      e
    ∙ rw (==_refl (length content)) refl

receive_exact-received :
    {W : Type 0} (bus : Bus W) (n : ℕ) (content : Bytes) (host : Host W) (after : W)
    → bus.bulk_in n host.wire ≡ (some content, after)
    → length content ≡ n
    → receive_exact bus n host ≡ (ok content, moved bus host after)
unfolding receive_exact
receive_exact-received {W = W} bus n content host after e size =
    ap
      (λ (r : Option Bytes × W).
        let x : Result IspFault Bytes × Host W = elim r.0 [
          | none ↦ (err runtime_error, failed bus true host r.1)
          | some received ↦ (
            (if length received == n then ok received else err runtime_error),
            moved bus host r.1,
          )
        ] in
        x)
      e
    ∙ rw (size, ==_refl n) refl

module _ {W : Type 0} (bus : Bus W) (IsReady : W → Type 0) (reply : Bytes → ℕ → Bytes)
    (loader : IsLoader bus IsReady reply) where
  receive_data-reply :
      (cdb : Bytes) (n : ℕ) (host : Host W) (replied : W)
      → DataPhase bus (reply cdb n) n host.wire replied
      → receive_data bus n host ≡ (ok (reply cdb n), moved bus host replied)
  unfolding receive_data
  receive_data-reply cdb zero host replied same =
      rw (no_bytes (reply cdb 0) (loader.length-reply cdb 0), ← same) refl
    where
      no_bytes : (bs : Bytes) → length bs ≡ 0 → bs ≡ []
      no_bytes [] e = refl
      no_bytes (b ∷ bs) e = absurd (omega arith)
  receive_data-reply cdb (suc n) host replied got =
      receive_exact-received bus (suc n) (reply cdb (suc n)) host replied got
        (loader.length-reply cdb (suc n))

  exchange-reply :
      (cdb : Bytes) (n : ℕ) (host : Host W)
      → IsReady host.wire
      → length cdb ≡ 16
      → n < 2 ^ 32
      → (after : Host W) × (exchange bus cdb n host ≡ (ok (reply cdb n, 0, n), after))
        × IsReady after.wire
  unfolding exchange
  exchange-reply cdb n host ready size small =
      let tag = (host.tag + 1) % 2 ^ 32 in
      let start = next_tag bus host in
      let guard : Action (Host W) IspFault (Unit {0}) =
        raise_if (not (leb n 0xffffffff)) struct_error in
      let sending = guard >> send_exact bus (cbw tag n cdb) in
      let parsing : Bytes → Bytes → Action (Host W) IspFault (Bytes × ℕ × ℕ) = λ out answered.
        lift (parse_csw answered tag n) >>= λ answer. pure (out, answer.0, answer.1) in
      let closing : Bytes → Action (Host W) IspFault (Bytes × ℕ × ℕ) =
        λ out. receive_exact bus 13 >>= parsing out in
      let (taken, replied, done, out, data_phase, status, again) =
        loader.answers host.wire tag n cdb ready (omega arith) small size in
      let guarded : raise_if (not (leb n 0xffffffff)) struct_error start ≡ (ok tt, start) =
        raise_if-ok (not (leb n 0xffffffff)) struct_error start
          (ap not (le→leb n 0xffffffff (omega arith))) in
      let sent : send_exact bus (cbw tag n cdb) start ≡ (ok tt, moved bus start taken) =
        send_exact-sent bus (cbw tag n cdb) start taken (out ∙ wrapped size taken) in
      let got = receive_data-reply cdb n (moved bus start taken) replied data_phase in
      let closed =
        receive_exact-received bus 13 (csw tag n) (moved bus start replied) done status refl in
      (
        moved bus start done,
        bind-ok (sending >> receive_data bus n) closing start (moved bus start replied)
              (reply cdb n)
              (bind-ok sending (λ a. receive_data bus n) start (moved bus start taken) tt
                  (bind-ok guard (λ a. send_exact bus (cbw tag n cdb)) start start tt guarded
                    ∙ sent)
                ∙ got)
            ∙ bind-ok (receive_exact bus 13) (parsing (reply cdb n)) (moved bus start replied)
                (moved bus start done) (csw tag n) closed
            ∙ bind-ok (lift (parse_csw (csw tag n) tag n))
                (λ answer. pure (reply cdb n, answer.0, answer.1)) (moved bus start done)
                (moved bus start done) (0, n)
                (ap (λ (r : Result IspFault (ℕ × ℕ)). (r, moved bus start done))
                  (parse_csw-csw tag n (omega arith) small)),
        again,
      )
    where
      wrapped :
          length cdb ≡ 16
          → (taken : W)
          → ◌≡◌ {A = Option ℕ × W}
              (some 31, taken)
              (some (length (cbw ((host.tag + 1) % 2 ^ 32) n cdb)), taken)
      wrapped size taken = ap (λ (m : ℕ). (some m, taken)) (omega (arith, size))

-- Against a loader that follows the transport and is ready, a command block of 16 bytes that starts
-- with F6 and a permitted subcode, with a length of less than 32 bits, returns the loader's reply
-- with the status 0 and the length as the residue, and the loader is ready again.
pub cmd-reply :
    {W : Type 0} (bus : Bus W) (IsReady : W → Type 0) (reply : Bytes → ℕ → Bytes)
    (loader : IsLoader bus IsReady reply) (cdb : Bytes) (n : ℕ) (host : Host W)
    → IsReady host.wire
    → length cdb ≡ 16
    → byte_at cdb 0 ≡ 0xf6
    → is_allowed (byte_at cdb 1) ≡ true
    → n < 2 ^ 32
    → (after : Host W) × (cmd bus cdb n host ≡ (ok (reply cdb n, 0, n), after)) × IsReady after.wire
unfolding command
cmd-reply bus IsReady reply loader cdb n host ready size first sub small =
    rw (size, first, sub) (exchange-reply bus IsReady reply loader cdb n host ready size small)
