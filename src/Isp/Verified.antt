-- ===== src/Isp/Verified.antt =====
-- A run of `main` of kb7-isp-verify.py against a loader that serves a flash image.
use kb.Base.{
  ℕ, ◌+◌, ◌-◌, ◌*◌, ◌/◌, ◌%◌, ◌^◌, ◌≤◌, ◌<◌, min, ◌≡◌, refl, ap, ◌∙◌, Bool, true, false, not, List,
  [], ◌∷◌, map, arith, ◌==◌, if◌then◌else◌, length, take, slice, Bytes, eq_bytes, is_utf8, Result,
  ok, Action, pure, lift, ◌>>=◌, ◌>>◌, raise_if,
}
use kb.Isp.Transport.{
  IspFault, is_allowed, runtime_error, value_error, Bus, Host, stable_loader_descriptor,
  descriptor_length, cmd,
}
use kb.Isp.Reader.{
  isp_flash_size, isp_block, cdb_simple, round_up, regions_of, region_end, region_passes, read_head,
  read_rest, connect, verify,
}
use kb.Isp.Exchange.{IsLoader, bind-ok, raise_if-ok, cmd-reply}
use kb.Isp.Reads.{IsServing, Reads, read_until-Reads}
use kb.Isp.Regions.{AllMapped, slice-take, region_passes-take}

-- The replies of the boot loader to the identity checks, and to the reads of a flash image.
pub record IsKeyboard (reply : Bytes → ℕ → Bytes) (flash : Bytes) : Type 0 where
  pub length-flash : length flash ≡ isp_flash_size
  pub identity : reply (cdb_simple 0x00) 2 ≡ 1 ∷ 1 ∷ []
  pub stable : Bytes
  pub descriptor : stable_loader_descriptor (reply (cdb_simple 0xf1) descriptor_length) ≡ ok stable
  pub serving : IsServing reply flash

abbrev pub manifest_of : Bytes → Bytes
manifest_of flash = slice flash 0x10000 0x1000

-- A manifest with the magic and a version that is text, whose regions lie inside the flash.
pub record HasManifest (flash : Bytes) : Type 0 where
  pub magic :
      eq_bytes (take 8 (manifest_of flash)) (83 ∷ 78 ∷ 95 ∷ 70 ∷ 87 ∷ 73 ∷ 78 ∷ 0 ∷ []) ≡ true
  pub version : is_utf8 (slice (manifest_of flash) 8 8) ≡ true
  pub mapped : AllMapped (regions_of (manifest_of flash))
  pub inside : region_end (regions_of (manifest_of flash)) ≤ isp_flash_size

module _ {W : Type 0} (bus : Bus W) (IsReady : W → Type 0) (reply : Bytes → ℕ → Bytes)
    (loader : IsLoader bus IsReady reply) (flash : Bytes) (keyboard : IsKeyboard reply flash) where
  simple-reply :
      (sub n : ℕ) (host : Host W)
      → IsReady host.wire
      → is_allowed sub ≡ true
      → n < 2 ^ 32
      → (after : Host W) × (cmd bus (cdb_simple sub) n host
          ≡ (ok (reply (cdb_simple sub) n, 0, n), after))
        × IsReady after.wire
  unfolding cdb_simple
  simple-reply sub n host ready permitted small =
      cmd-reply bus IsReady reply loader (cdb_simple sub) n host ready refl refl permitted small

  connect-ready :
      (host : Host W)
      → IsReady host.wire
      → (after : Host W) × (connect bus host ≡ (ok tt, after)) × IsReady after.wire
  unfolding connect
  connect-ready host ready =
      let (first, e1, ready1) = simple-reply 0x00 2 host ready refl (omega arith) in
      let (second, e2, ready2) =
        simple-reply 0xf1 descriptor_length first ready1 refl (omega arith) in
      let (third, e3, ready3) = simple-reply 0x17 0 second ready2 refl (omega arith) in
      let ident = reply (cdb_simple 0x00) 2 in
      let desc = reply (cdb_simple 0xf1) descriptor_length in
      let check : Bytes × ℕ × ℕ → Action (Host W) IspFault (Unit {0}) =
        λ answer. raise_if (not (eq_bytes answer.0 (1 ∷ 1 ∷ []))) runtime_error in
      let describe = cmd bus (cdb_simple 0xf1) descriptor_length in
      let address = cmd bus (cdb_simple 0x17) 0 in
      let last : Bytes × ℕ × ℕ → Action (Host W) IspFault (Unit {0}) =
        λ answer. lift (stable_loader_descriptor answer.0) >> address >> pure tt in
      let rest : Bytes × ℕ × ℕ → Action (Host W) IspFault (Unit {0}) =
        λ answer. check answer >> describe >>= last in
      let identified : check (ident, 0, 2) first ≡ (ok tt, first) =
        raise_if-ok (not (eq_bytes ident (1 ∷ 1 ∷ []))) runtime_error first
          (rw keyboard.identity refl) in
      (
        third,
        bind-ok (cmd bus (cdb_simple 0x00) 2) rest host first (ident, 0, 2) e1
            ∙ bind-ok (check (ident, 0, 2) >> describe) last first second
                (desc, 0, descriptor_length)
                (bind-ok (check (ident, 0, 2)) (λ a. describe) first first tt identified ∙ e2)
            ∙ bind-ok (lift (stable_loader_descriptor desc) >> address) (λ a. pure tt) second third
                (reply (cdb_simple 0x17) 0, 0, 0)
                (bind-ok (lift (stable_loader_descriptor desc)) (λ a. address) second second
                    keyboard.stable
                    (ap (λ (r : Result IspFault Bytes). (r, second)) keyboard.descriptor)
                  ∙ e3),
        ready3,
      )

  -- The loop over the header and the manifest, with chunks of whole blocks.
  head-Reads :
      (blocks : ℕ) (host : Host W)
      → IsReady host.wire
      → 0 < blocks
      → blocks ≤ 0xffff
      → 0x11000 + blocks * isp_block ≤ isp_flash_size
      → Reads bus IsReady reply loader flash keyboard.length-flash keyboard.serving
          (λ offset. blocks * isp_block)
          (λ n piece. length piece == 0)
          0x11000
          0x11000
          []
          host
  head-Reads blocks host ready some_blocks few fits =
      read_until-Reads bus IsReady reply loader flash keyboard.length-flash keyboard.serving
        (λ offset. blocks * isp_block) (λ n piece. length piece == 0) 0x11000
        (λ p below aligned. (blocks, refl, some_blocks, few, omega arith))
        (λ n piece some_bytes same. ground arith) 0x11000 0 host ready refl (omega arith)
        (omega arith)

  rest-Reads :
      (blocks end p : ℕ) (host : Host W)
      → IsReady host.wire
      → 0 < blocks
      → blocks ≤ 0xffff
      → end ≤ isp_flash_size
      → p % isp_block ≡ 0
      → p ≤ isp_flash_size
      → Reads bus IsReady reply loader flash keyboard.length-flash keyboard.serving
          (λ offset. round_up (min (blocks * isp_block) (end - offset)))
          (λ n piece. not (length piece == n))
          end
          end
          (take p flash)
          host
  rest-Reads blocks end p host ready some_blocks few inside aligned below_size =
      read_until-Reads bus IsReady reply loader flash keyboard.length-flash keyboard.serving
        (λ offset. round_up (min (blocks * isp_block) (end - offset)))
        (λ n piece. not (length piece == n)) end
        (λ p below aligned. (
          (min (blocks * isp_block) (end - p) + isp_block - 1) / isp_block,
          refl,
          omega arith,
          omega arith,
          omega arith,
        ))
        (λ n piece some_bytes same. ground arith) end p host ready aligned below_size (omega arith)

  -- How far `main` reads.
  abbrev pub extent : Bool → ℕ
  extent full_chip =
      if full_chip then isp_flash_size else region_end (regions_of (manifest_of flash))

  -- The run behind the first loop, with the manifest that it read.
  checking : ℕ → Bool → Bytes → Bytes → Action (Host W) IspFault (Bytes × List Bool)
  checking chunk full_chip manifest head =
      let regions = regions_of manifest in
      let end = if full_chip then isp_flash_size else region_end regions in
      raise_if (not (eq_bytes (take 8 manifest) (83 ∷ 78 ∷ 95 ∷ 70 ∷ 87 ∷ 73 ∷ 78 ∷ 0 ∷ [])))
        runtime_error
      >> raise_if (not (is_utf8 (slice manifest 8 8))) value_error
      >> read_rest bus chunk end head
      >>= λ content. pure (content, map (region_passes content) regions)

  -- A run that reads a prefix of the flash with all that was asked for.
  abbrev pub IsVerified : Bool → Action (Host W) IspFault (Bytes × List Bool) → Host W → Type 0
  IsVerified full_chip action host =
      (q : ℕ) × (after : Host W) × (action host
        ≡ (ok (take q flash, map (region_passes flash) (regions_of (manifest_of flash))), after))
      × (extent full_chip ≤ q)
      × IsReady after.wire

  extent-inside :
      (full_chip : Bool)
      → HasManifest flash
      → (extent full_chip ≤ isp_flash_size)
        × (region_end (regions_of (manifest_of flash)) ≤ extent full_chip)
  extent-inside true manifest = (omega arith, manifest.inside)
  extent-inside false manifest = (manifest.inside, omega arith)

  checking-IsVerified :
      (blocks : ℕ) (full_chip : Bool) (p : ℕ) (host : Host W)
      → HasManifest flash
      → IsReady host.wire
      → 0 < blocks
      → blocks ≤ 0xffff
      → p % isp_block ≡ 0
      → p ≤ isp_flash_size
      → IsVerified full_chip
          (checking (blocks * isp_block) full_chip (manifest_of flash) (take p flash))
          host
  unfolding checking
  checking-IsVerified blocks full_chip p host manifest ready some_blocks few aligned below_size =
      let m = manifest_of flash in
      let (inside, regions_inside) = extent-inside full_chip manifest in
      let has_magic : Action (Host W) IspFault (Unit {0}) =
        raise_if (not (eq_bytes (take 8 m) (83 ∷ 78 ∷ 95 ∷ 70 ∷ 87 ∷ 73 ∷ 78 ∷ 0 ∷ [])))
          runtime_error in
      let has_text : Action (Host W) IspFault (Unit {0}) =
        raise_if (not (is_utf8 (slice m 8 8))) value_error in
      let reading = read_rest bus (blocks * isp_block) (extent full_chip) (take p flash) in
      let (q, after, read, past, whole, aligned', again) =
        rest-Reads blocks (extent full_chip) p host ready some_blocks few inside aligned
          below_size in
      (
        q,
        after,
        bind-ok (has_magic >> has_text >> reading)
              (λ content. pure (content, map (region_passes content) (regions_of m))) host after
              (take q flash)
              (bind-ok (has_magic >> has_text) (λ a. reading) host host tt
                  (bind-ok has_magic (λ a. has_text) host host tt
                      (raise_if-ok _ runtime_error host (ap not manifest.magic))
                    ∙ raise_if-ok _ value_error host (ap not manifest.version))
                ∙ read)
            ∙ ap
                (λ (passes : List Bool).
                  let x : Result IspFault (Bytes × List Bool) × Host W =
                    (ok (take q flash, passes), after) in
                  x)
                (region_passes-take flash q (regions_of m) (omega (arith, keyboard.length-flash))
                  manifest.mapped (omega arith)),
        past,
        again,
      )

-- Against a loader that follows the transport, passes the identity checks and serves a flash with
-- a manifest whose regions lie in it, a run with chunks of at most 65535 blocks that fit behind the
-- manifest ends with a prefix of the flash, at least as long as the regions or, where it is asked
-- for, the whole chip, and with the check of each region on the flash; the loader is ready again.
pub verify-IsVerified :
    {W : Type 0} (bus : Bus W) (IsReady : W → Type 0) (reply : Bytes → ℕ → Bytes)
    (loader : IsLoader bus IsReady reply) (flash : Bytes) (keyboard : IsKeyboard reply flash)
    (manifest : HasManifest flash) (blocks : ℕ) (full_chip : Bool) (host : Host W)
    → IsReady host.wire
    → 0 < blocks
    → blocks ≤ 0xffff
    → 0x11000 + blocks * isp_block ≤ isp_flash_size
    → IsVerified bus IsReady reply loader flash keyboard full_chip
        (verify bus (blocks * isp_block) full_chip)
        host
unfolding verify checking
verify-IsVerified {W = W} bus IsReady reply loader flash keyboard manifest blocks full_chip host
      ready some_blocks few fits =
    let (connected, connecting, ready1) =
      connect-ready bus IsReady reply loader flash keyboard host ready in
    let (p, headed, read, past, below_size, aligned, ready2) =
      head-Reads bus IsReady reply loader flash keyboard blocks connected ready1 some_blocks few
        fits in
    let chunk = blocks * isp_block in
    let checks = checking bus IsReady reply loader flash keyboard chunk full_chip in
    let (q, after, checked, far, ready3) =
      checking-IsVerified bus IsReady reply loader flash keyboard blocks full_chip p headed manifest
        ready2 some_blocks few aligned below_size in
    (
      q,
      after,
      bind-ok (connect bus >> read_head bus chunk) (λ head. checks (slice head 0x10000 0x1000) head)
            host headed (take p flash)
            (bind-ok (connect bus) (λ a. read_head bus chunk) host connected tt connecting ∙ read)
          ∙ ap (λ (m : Bytes). checks m (take p flash) headed)
              (slice-take flash p 0x10000 0x1000 (omega arith))
          ∙ checked,
      far,
      ready3,
    )
