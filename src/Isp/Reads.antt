-- ===== src/Isp/Reads.antt =====
-- The reading loops of kb7-isp-verify.py against a loader that serves a flash image.
use kb.Base.{
  ℕ, zero, suc, ◌+◌, ◌*◌, ◌/◌, ◌%◌, ◌≤◌, ◌<◌, ◌≡◌, refl, ap, ◌∙◌, inl, inr, Bool, false, ◌||◌, not,
  ◌++◌, arith, ◌==◌, lt→ltb, le→leb, not-ltb, length, take, length-take, take-append-take, slice,
  length-slice, Bytes, lt-or-le, rounds, Result, ok, Action, pure, lift, ◌>>=◌, ◌>>◌, raise_if,
}
use kb.Isp.Transport.{IspFault, runtime_error, Bus, Host, cmd}
use kb.Isp.Reader.{
  isp_flash_base, isp_flash_size, isp_block, read_block, cdb_read, read_next, read_until,
}
use kb.Isp.Exchange.{IsLoader, bind-ok, raise_if-ok, cmd-reply}

-- A loader that answers a READ of some blocks inside the flash by its bytes.
abbrev pub IsServing : (Bytes → ℕ → Bytes) → Bytes → Type 0
IsServing reply flash =
    (offset blocks : ℕ)
    → 0 < blocks
    → blocks ≤ 0xffff
    → offset + blocks * isp_block ≤ isp_flash_size
    → reply (read_block (isp_flash_base + offset) blocks) (blocks * isp_block)
      ≡ slice flash offset (blocks * isp_block)

cdb_read-block :
    (offset blocks : ℕ)
    → 0 < blocks
    → blocks ≤ 0xffff
    → offset + blocks * isp_block ≤ isp_flash_size
    → cdb_read offset (blocks * isp_block) ≡ ok (read_block (isp_flash_base + offset) blocks)
unfolding cdb_read
cdb_read-block offset blocks some_blocks few inside =
    let aligned : (blocks * isp_block) % isp_block ≡ 0 = omega arith in
    let whole : (blocks * isp_block) / isp_block ≡ blocks = omega arith in
    rw
      (
        aligned,
        lt→ltb 0 (blocks * isp_block) (omega arith),
        le→leb (blocks * isp_block) (0xffff * isp_block) (omega arith),
        le→leb (offset + blocks * isp_block) isp_flash_size inside,
        whole,
      )
      refl

module _ {W : Type 0} (bus : Bus W) (IsReady : W → Type 0) (reply : Bytes → ℕ → Bytes)
    (loader : IsLoader bus IsReady reply) (flash : Bytes) (size : length flash ≡ isp_flash_size)
    (serving : IsServing reply flash) where
  read_next-reads :
      (is_wrong : Bytes → Bool) (offset blocks : ℕ) (host : Host W)
      → IsReady host.wire
      → 0 < blocks
      → blocks ≤ 0xffff
      → offset + blocks * isp_block ≤ isp_flash_size
      → is_wrong (slice flash offset (blocks * isp_block)) ≡ false
      → (after : Host W) × (read_next bus is_wrong offset (blocks * isp_block) host
          ≡ (ok (slice flash offset (blocks * isp_block)), after))
        × IsReady after.wire
  unfolding read_next
  read_next-reads is_wrong offset blocks host ready some_blocks few inside right =
      let n = blocks * isp_block in
      let piece = slice flash offset n in
      let cdb = read_block (isp_flash_base + offset) blocks in
      let checking : Bytes × ℕ × ℕ → Action (Host W) IspFault Bytes = λ answer.
        raise_if (not (answer.1 == 0) || is_wrong answer.0) runtime_error >> pure answer.0 in
      let (after, got, again) =
        cmd-reply bus IsReady reply loader cdb n host ready refl refl refl (omega arith) in
      let checked : checking (piece, 0, n) after ≡ (ok piece, after) =
        bind-ok (raise_if (false || is_wrong piece) runtime_error) (λ a. pure piece) after after tt
          (raise_if-ok (is_wrong piece) runtime_error after right) in
      (
        after,
        bind-ok (lift (cdb_read offset n)) (λ cdb. cmd bus cdb n >>= checking) host host cdb
              (ap (λ (r : Result IspFault Bytes). (r, host))
                (cdb_read-block offset blocks some_blocks few inside))
            ∙ bind-ok (cmd bus cdb n) checking host after (reply cdb n, 0, n) got
            ∙ ap (λ (x : Bytes). checking (x, 0, n) after)
                (serving offset blocks some_blocks few inside)
            ∙ checked,
        again,
      )

  -- What is read is a prefix of the flash that has the end.
  abbrev pub Reads : (ℕ → ℕ) → (ℕ → Bytes → Bool) → ℕ → ℕ → Bytes → Host W → Type 0
  Reads next is_wrong end rounds content host =
      (q : ℕ) × (after : Host W) × (read_until bus rounds next is_wrong end content host
        ≡ (ok (take q flash), after))
      × (end ≤ q)
      × (q ≤ isp_flash_size)
      × (q % isp_block ≡ 0)
      × IsReady after.wire

  module _ (next : ℕ → ℕ) (is_wrong : ℕ → Bytes → Bool) (end : ℕ)
      (steps : (p : ℕ)
        → p < end
        → p % isp_block ≡ 0
        → (blocks : ℕ) × (next p ≡ blocks * isp_block)
          × (0 < blocks)
          × (blocks ≤ 0xffff)
          × (p + blocks * isp_block ≤ isp_flash_size))
      (right : (n : ℕ) (piece : Bytes) → 0 < n → length piece ≡ n → is_wrong n piece ≡ false) where
    pub read_until-Reads :
        (rounds p : ℕ) (host : Host W)
        → IsReady host.wire
        → p % isp_block ≡ 0
        → p ≤ isp_flash_size
        → end ≤ rounds + p
        → Reads next is_wrong end rounds (take p flash) host
    unfolding read_until
    read_until-Reads zero p host ready aligned inside enough =
        let read : length (take p flash) ≡ p = omega (arith, length-take p flash, size) in
        (p, host, rw (read, not-ltb p end (omega arith)) refl, omega arith, inside, aligned, ready)
    read_until-Reads (suc rounds) p host ready aligned inside enough =
        let read : length (take p flash) ≡ p = omega (arith, length-take p flash, size) in
        elim (lt-or-le p end) [
          | inr past ↦ (p, host, rw (read, not-ltb p end past) refl, past, inside, aligned, ready)
          | inl below ↦
              let (blocks, chosen, some_blocks, few, inside') = steps p below aligned in
              let n = blocks * isp_block in
              let piece = slice flash p n in
              let content = take p flash in
              let reading : ℕ → ℕ → Action (Host W) IspFault Bytes =
                λ m at. read_next bus (is_wrong m) at m in
              let going : Bytes → Action (Host W) IspFault Bytes =
                λ piece. read_until bus rounds next is_wrong end (content ++ piece) in
              let (after, got, again) =
                read_next-reads (is_wrong n) p blocks host ready some_blocks few inside'
                  (right n piece (omega arith) (length-slice flash p n (omega (arith, size)))) in
              let (q, after', rest, past, inside'', aligned', again') =
                read_until-Reads rounds (p + n) after again (omega arith) inside' (omega arith) in
              let started : read_until bus (suc rounds) next is_wrong end content host
                  ≡ (reading n p >>= going) host =
                rw (read, lt→ltb p end below, chosen) refl in
              (
                q,
                after',
                started
                    ∙ bind-ok (reading n p) going host after piece got
                    ∙ ap (λ (x : Bytes). read_until bus rounds next is_wrong end x after)
                        (take-append-take p n flash)
                    ∙ rest,
                past,
                inside'',
                aligned',
                again',
              )
        ]
