-- ===== src/Isp/Tests.antt =====
-- Witnesses for the reader of kb7-isp-verify.py: a loader that serves a flash out of a queue.
use kb.Base.{
  ℕ, zero, suc, ◌+◌, ◌-◌, ◌*◌, ◌^◌, ◌≤◌, ◌<◌, ◌≡◌, refl, sym, ap, subst, ◌∙◌, true, false, Option,
  none, some, List, [], ◌∷◌, ◌++◌, arith, ◌==◌, if◌then◌else◌, length, take, drop, replicate,
  length-append, length-take, length-replicate, take-append, slice, length-slice, slice-append,
  Bytes, le, le_value, is_utf8, ok,
}
use kb.Isp.Transport.{
  Bus, Host, loader_version, loader_device, loader_magic, byte_at, cbw, cmd,
  stable_loader_descriptor,
}
use kb.Isp.Reader.{
  isp_flash_base, isp_flash_size, isp_block, cdb_simple, read_block, region_end, regions_of, verify,
}
use kb.Isp.ReadOnly.{AllReadOnly, recording, log_of, verify-AllReadOnly}
use kb.Isp.Exchange.{csw, DataPhase, IsLoader, cmd-reply}
use kb.Isp.Reads.{IsServing}
use kb.Isp.Regions.{AllMapped}
use kb.Isp.Verified.{IsKeyboard, HasManifest, IsVerified, manifest_of, verify-IsVerified}

-- The address of a READ, its first byte the highest one.
abbrev address_of : Bytes → ℕ
address_of cdb =
    byte_at cdb 3 * 2 ^ 24 + byte_at cdb 4 * 2 ^ 16 + byte_at cdb 5 * 2 ^ 8 + byte_at cdb 6

abbrev answer : Bytes → Bytes → ℕ → Bytes
answer flash cdb n =
    let sub = byte_at cdb 1 in
    if sub == 0x00
    then 1 ∷ 1 ∷ []
    else if sub == 0xf1
    then loader_version ++ (loader_device ++ (replicate 4 0 ++ loader_magic))
    else if sub == 0x05
    then slice flash (address_of cdb - isp_flash_base) n
    else []

abbrev queue_reply : Bytes → Bytes → ℕ → Bytes
queue_reply flash cdb n = take n (answer flash cdb n ++ replicate n 0)

abbrev queue_of : Bytes → Bytes → ℕ → Bytes → List Bytes
queue_of flash cdb zero status = status ∷ []
queue_of flash cdb (suc n) status = queue_reply flash cdb (suc n) ∷ status ∷ []

abbrev queue_head : List Bytes → Option Bytes × List Bytes
queue_head [] = (none, [])
queue_head (content ∷ rest) = (some content, rest)

abbrev queue_bus : Bytes → Bus (List Bytes)
queue_bus flash = record {
  bulk_out = λ content wire. (
    some (length content),
    queue_of flash (drop 15 content) (le_value (slice content 8 4))
        (csw (le_value (slice content 4 4)) (le_value (slice content 8 4))),
  );
  bulk_in = λ n wire. queue_head wire;
  clear_halt = λ endpoint wire. wire;
}

abbrev IsReady : List Bytes → Type 0
IsReady wire = Unit

word_back : (m : ℕ) → m < 2 ^ 32 → le_value (le 4 m) ≡ m
word_back m below = omega arith

queue_out :
    (flash : Bytes) (wire : List Bytes) (tag n : ℕ) (cdb : Bytes)
    → tag < 2 ^ 32
    → n < 2 ^ 32
    → length cdb ≡ 16
    → (queue_bus flash).bulk_out (cbw tag n cdb) wire ≡ (some 31, queue_of flash cdb n (csw tag n))
queue_out flash wire tag n cdb small small' size =
    rw (size, word_back tag small, word_back n small') refl

queue_phase :
    (flash cdb : Bytes) (n : ℕ) (status : Bytes)
    → DataPhase
        (queue_bus flash)
        (queue_reply flash cdb n)
        n
        (queue_of flash cdb n status)
        (status ∷ [])
queue_phase flash cdb zero status = refl
queue_phase flash cdb (suc n) status = refl

queue_length : (flash cdb : Bytes) (n : ℕ) → length (queue_reply flash cdb n) ≡ n
queue_length flash cdb n =
    rw
      (
        length-take n (answer flash cdb n ++ replicate n 0),
        length-append (answer flash cdb n) (replicate n 0),
        length-replicate {A = ℕ} n 0,
      )
      (omega arith)

queue-IsLoader : (flash : Bytes) → IsLoader (queue_bus flash) IsReady (queue_reply flash)
queue-IsLoader flash = record {
  answers = λ wire tag n cdb ready small small' size. (
    queue_of flash cdb n (csw tag n),
    csw tag n ∷ [],
    [],
    queue_out flash wire tag n cdb small small' size,
    queue_phase flash cdb n (csw tag n),
    refl,
    tt,
  );
  length-reply = queue_length flash;
}

abbrev start : Host (List Bytes)
start = record { clear_halt_on_error = true; tag = 41; wire = [] }

cmd-reply_example :
    (after : Host (List Bytes)) × (cmd (queue_bus []) (cdb_simple 0x00) 2 start
      ≡ (ok (1 ∷ 1 ∷ [], 0, 2), after))
    × IsReady after.wire
unfolding cdb_simple
cmd-reply_example =
    cmd-reply (queue_bus []) IsReady (queue_reply []) (queue-IsLoader []) (cdb_simple 0x00) 2 start
      tt refl refl refl (omega arith)

verify-AllReadOnly_example : AllReadOnly (
    log_of
      (verify
        (recording (queue_bus []))
        0x1000
        false
        (record { clear_halt_on_error = true; tag = 0; wire = ([], []) })).1)
verify-AllReadOnly_example = verify-AllReadOnly (queue_bus []) 0x1000 false true 0 []

address-read_block :
    (address blocks : ℕ) → address < 2 ^ 32 → address_of (read_block address blocks) ≡ address
address-read_block address blocks small = omega arith

queue-IsServing :
    (flash : Bytes) → length flash ≡ isp_flash_size → IsServing (queue_reply flash) flash
queue-IsServing flash size offset blocks some_blocks few inside =
    let n = blocks * isp_block in
    let place : address_of (read_block (isp_flash_base + offset) blocks) ≡ isp_flash_base + offset =
      address-read_block (isp_flash_base + offset) blocks (omega arith) in
    let back : isp_flash_base + offset - isp_flash_base ≡ offset = omega arith in
    ap (λ (at : ℕ). take n (slice flash (at - isp_flash_base) n ++ replicate n 0)) place
    ∙ ap (λ (at : ℕ). take n (slice flash at n ++ replicate n 0)) back
    ∙ take-append n (slice flash offset n) (replicate n 0)
        (length-slice flash offset n (omega (arith, size)))

queue-IsKeyboard :
    (flash : Bytes) → length flash ≡ isp_flash_size → IsKeyboard (queue_reply flash) flash
unfolding cdb_simple stable_loader_descriptor
queue-IsKeyboard flash size = record {
  length-flash = size;
  identity = refl;
  stable = loader_version ++ (loader_device ++ loader_magic);
  descriptor = refl;
  serving = queue-IsServing flash size;
}

-- Three regions of 16 bytes.
abbrev entry_bytes : Bytes
entry_bytes = le 4 0 ++ (le 4 0x60011000 ++ (le 4 16 ++ le 4 0))

abbrev example_manifest : Bytes
example_manifest =
    83
    ∷ 78
    ∷ 95
    ∷ 70
    ∷ 87
    ∷ 73
    ∷ 78
    ∷ 0
    ∷ (replicate 24 0 ++ (entry_bytes ++ (entry_bytes ++ (entry_bytes ++ replicate 4016 0))))

-- A manifest at its place in a flash that is empty otherwise.
abbrev flash_with : Bytes → ℕ → ℕ → Bytes
flash_with manifest before behind = replicate before 0 ++ (manifest ++ replicate behind 0)

flash_with-length :
    (manifest : Bytes) (before behind : ℕ)
    → length (flash_with manifest before behind) ≡ before + (length manifest + behind)
flash_with-length manifest before behind =
    rw
      (
        length-append (replicate before 0) (manifest ++ replicate behind 0),
        length-append manifest (replicate behind 0),
        length-replicate {A = ℕ} before 0,
        length-replicate {A = ℕ} behind 0,
      )
      refl

example-HasManifest : (flash : Bytes) → manifest_of flash ≡ example_manifest → HasManifest flash
unfolding is_utf8
example-HasManifest flash e = record {
  magic = rw e refl;
  version = rw e refl;
  mapped =
      subst (λ (m : Bytes). AllMapped (regions_of m)) (sym e)
        (omega arith, (omega arith, (omega arith, tt)));
  inside = subst (λ (m : Bytes). region_end (regions_of m) ≤ isp_flash_size) (sym e) (omega arith);
}

example_manifest-length : length example_manifest ≡ 0x1000
example_manifest-length = refl

abbrev example_flash : Bytes
example_flash = flash_with example_manifest 0x10000 0x1fef000

example_flash-length : length example_flash ≡ isp_flash_size
example_flash-length =
    flash_with-length example_manifest 0x10000 0x1fef000
    ∙ ap (λ (n : ℕ). 0x10000 + (n + 0x1fef000)) example_manifest-length

example_flash-manifest : manifest_of example_flash ≡ example_manifest
example_flash-manifest =
    slice-append 0x10000 0x1000 (replicate 0x10000 0) example_manifest (replicate 0x1fef000 0)
      (length-replicate {A = ℕ} 0x10000 0) example_manifest-length

verify-IsVerified_example :
    IsVerified
      (queue_bus example_flash)
      IsReady
      (queue_reply example_flash)
      (queue-IsLoader example_flash)
      example_flash
      (queue-IsKeyboard example_flash example_flash-length)
      true
      (verify (queue_bus example_flash) (8 * isp_block) true)
      start
verify-IsVerified_example =
    verify-IsVerified (queue_bus example_flash) IsReady (queue_reply example_flash)
      (queue-IsLoader example_flash) example_flash
      (queue-IsKeyboard example_flash example_flash-length)
      (example-HasManifest example_flash example_flash-manifest) 8 true start tt (omega arith)
      (omega arith) (omega arith)
