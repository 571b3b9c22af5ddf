-- ===== src/Isp/Reader.antt =====
-- The command builders of kb7-isp-verify.py and the reads of its `main`; what it prints is left out.
use kb.Base.{
  ℕ, zero, suc, ◌+◌, ◌-◌, ◌*◌, ◌/◌, ◌%◌, ◌^◌, min, Bool, ◌&&◌, ◌||◌, not, List, [], ◌∷◌, ◌++◌, map,
  ltb, leb, ◌==◌, if◌then◌else◌, length, take, replicate, slice, Bytes, le_value, eq_bytes, is_utf8,
  rounds, Result, ok, err, Action, pure, raise, lift, ◌>>=◌, ◌>>◌, raise_if,
}
use kb.Updater.Sequence.{fwin_checksum}
use kb.Isp.Transport.{
  IspFault, value_error, runtime_error, out_of_steps, Bus, Host, descriptor_length,
  stable_loader_descriptor, cmd,
}

abbrev pub isp_flash_base : ℕ
isp_flash_base = 0x60000000

abbrev pub isp_flash_size : ℕ
isp_flash_size = 0x02000000

abbrev pub isp_block : ℕ
isp_block = 512

unfoldable pub cdb_simple : ℕ → Bytes
cdb_simple sub = 0xf6 ∷ sub ∷ replicate 14 0

abbrev pub read_block : ℕ → ℕ → Bytes
read_block address blocks =
    0xf6
    ∷ 0x05
    ∷ 0
    ∷ (address / 2 ^ 24)
    ∷ (address / 2 ^ 16 % 256)
    ∷ (address / 2 ^ 8 % 256)
    ∷ (address % 256)
    ∷ (blocks / 256)
    ∷ (blocks % 256)
    ∷ replicate 7 0

unfoldable pub cdb_read : ℕ → ℕ → Result IspFault Bytes
cdb_read offset nbytes =
    if not (nbytes % isp_block == 0) || not (ltb 0 nbytes && leb nbytes (0xffff * isp_block))
    then err value_error
    else if not (leb (offset + nbytes) isp_flash_size)
    then err value_error
    else ok (read_block (isp_flash_base + offset) (nbytes / isp_block))

-- `((n + BLOCK - 1) // BLOCK) * BLOCK`
abbrev pub round_up : ℕ → ℕ
round_up n = (n + isp_block - 1) / isp_block * isp_block

-- `fwin`, the function that the planner has too.
abbrev pub fwin : Bytes → ℕ
fwin = fwin_checksum

-- What is used of a region of the manifest: its index, its place in the mapped flash, its length
-- and its checksum.
pub record Region : Type 0 where
  pub region_index : ℕ
  pub region_store : ℕ
  pub region_size : ℕ
  pub region_checksum : ℕ

abbrev pub region_at : Bytes → ℕ → ℕ → Region
region_at manifest index place = record {
  region_index = index;
  region_store = le_value (slice manifest (place + 4) 4);
  region_size = le_value (slice manifest (place + 8) 4);
  region_checksum = le_value (slice manifest (place + 12) 4);
}

abbrev pub regions_of : Bytes → List Region
regions_of manifest =
    region_at manifest 0 0x20 ∷ region_at manifest 1 0x30 ∷ region_at manifest 2 0x40 ∷ []

-- `max(off + ln for _, off, ln, _ in regions)`, where it is positive.
abbrev pub region_end : List Region → ℕ
region_end [] = 0
region_end (r ∷ rest) =
    let last = region_end rest in
    let own = r.region_store + r.region_size - isp_flash_base in if ltb last own then own else last

-- The index of an address of the mapped flash in a slice of Python: one below the flash counts from
-- the end.
abbrev pub slice_index : ℕ → ℕ → ℕ
slice_index size address =
    if leb isp_flash_base address
    then min size (address - isp_flash_base)
    else size - (isp_flash_base - address)

-- `data[off:off + length]`
abbrev pub region_bytes : Bytes → Region → Bytes
region_bytes content r =
    let first = slice_index (length content) r.region_store in
    let last = slice_index (length content) (r.region_store + r.region_size) in
    slice content first (last - first)

-- The check of the last loop.
abbrev pub region_passes : Bytes → Region → Bool
region_passes content r = fwin (region_bytes content r) == r.region_checksum

module _ {W : Type 0} (bus : Bus W) where
  -- One read of so many bytes behind what was read; each loop has its own test of the data.
  unfoldable pub read_next : (Bytes → Bool) → ℕ → ℕ → Action (Host W) IspFault Bytes
  read_next is_wrong offset n = lift (cdb_read offset n) >>= λ cdb. cmd bus cdb n >>= λ answer.
      raise_if (not (answer.1 == 0) || is_wrong answer.0) runtime_error >> pure answer.0

  -- A `while len(content) < end` loop, with the length of its next read, its test of what a read of
  -- such a length gave, and the rounds left.
  unfoldable pub read_until :
      ℕ → (ℕ → ℕ) → (ℕ → Bytes → Bool) → ℕ → Bytes → Action (Host W) IspFault Bytes
  read_until zero next is_wrong end content =
      if ltb (length content) end then raise out_of_steps else pure content
  read_until (suc rounds) next is_wrong end content =
      if ltb (length content) end
      then (let n = next (length content) in
          read_next (is_wrong n) (length content) n >>= λ piece.
          read_until rounds next is_wrong end (content ++ piece))
      else pure content

  -- The loop over the header and the manifest reads chunks; the other one stops at the end.
  abbrev pub read_head : ℕ → Action (Host W) IspFault Bytes
  read_head chunk = read_until 0x11000 (λ offset. chunk) (λ n piece. length piece == 0) 0x11000 []

  abbrev pub read_rest : ℕ → ℕ → Bytes → Action (Host W) IspFault Bytes
  read_rest chunk end =
      read_until end (λ offset. round_up (min chunk (end - offset)))
        (λ n piece. not (length piece == n)) end

  -- The identity checks and the address mode.
  unfoldable pub connect : Action (Host W) IspFault (Unit {0})
  connect = cmd bus (cdb_simple 0x00) 2 >>= λ ident.
      raise_if (not (eq_bytes ident.0 (1 ∷ 1 ∷ []))) runtime_error
      >> cmd bus (cdb_simple 0xf1) descriptor_length
      >>= λ desc. lift (stable_loader_descriptor desc.0) >> cmd bus (cdb_simple 0x17) 0 >> pure tt

  -- `main` behind its argument parser: the content that was read, and whether each region passes.
  -- The version is decoded for a message; the zeros that are stripped are text themselves.
  unfoldable pub verify : ℕ → Bool → Action (Host W) IspFault (Bytes × List Bool)
  verify chunk full_chip = connect >> read_head chunk >>= λ head.
      let manifest = slice head 0x10000 0x1000 in
      let regions = regions_of manifest in
      let end = if full_chip then isp_flash_size else region_end regions in
      raise_if (not (eq_bytes (take 8 manifest) (83 ∷ 78 ∷ 95 ∷ 70 ∷ 87 ∷ 73 ∷ 78 ∷ 0 ∷ [])))
        runtime_error
      >> raise_if (not (is_utf8 (slice manifest 8 8))) value_error
      >> read_rest chunk end head
      >>= λ content. pure (content, map (region_passes content) regions)
