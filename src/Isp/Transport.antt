-- ===== src/Isp/Transport.antt =====
-- The transport of kb7-isp-verify.py: `parse_csw`, `stable_loader_descriptor`, the command builders
-- and `Device._command`. The bulk transfers of libusb are a parameter, a record over their state.
use kb.Base.{
  ℕ, zero, suc, ◌+◌, ◌%◌, ◌^◌, Bool, true, false, ◌&&◌, ◌||◌, not, Option, none, some, [], ◌∷◌,
  ◌++◌, leb, ◌==◌, if◌then◌else◌, length, get_elem?, take, slice, Bytes, le, le_value, eq_bytes,
  Result, ok, err, Action, pure, lift, ◌>>=◌, ◌>>◌, raise_if,
}

-- `ValueError`, `RuntimeError`, and the error of `struct.pack`; `out_of_steps` is the end of a loop
-- of the model that had too few steps.
pub data IspFault : Type 0 where
  value_error runtime_error struct_error out_of_steps : IspFault

-- `libusb_bulk_transfer` on the two endpoints, and `libusb_clear_halt`. A transfer gives nothing
-- where its return code is not 0; otherwise the number of bytes that were sent, or the bytes that
-- were received.
pub record Bus (W : Type 0) : Type 0 where
  pub bulk_out : Bytes → W → Option ℕ × W
  pub bulk_in : ℕ → W → Option Bytes × W
  pub clear_halt : Bool → W → W

-- `Device`, with the state of the bus.
pub record Host (W : Type 0) : Type 0 where
  pub clear_halt_on_error : Bool
  pub tag : ℕ
  pub wire : W

-- The status and the residue.
unfoldable pub parse_csw : Bytes → ℕ → ℕ → Result IspFault (ℕ × ℕ)
parse_csw raw expected_tag expected_residue =
    let signature = le_value (slice raw 0 4) in
    let tag = le_value (slice raw 4 4) in
    let residue = le_value (slice raw 8 4) in
    let status = le_value (slice raw 12 1) in
    if not (leb expected_residue 0xffffffff)
    then err value_error
    else if not (length raw == 13)
    then err runtime_error
    else if not (signature == 0x53425355)
    then err runtime_error
    else if not (tag == expected_tag)
    then err runtime_error
    else if not (residue == expected_residue)
    then err runtime_error
    else if not (status == 0)
    then err runtime_error
    else ok (status, residue)

abbrev pub descriptor_length : ℕ
descriptor_length = 36

-- `b"v0.001 test!" + bytes(4)`, `b"SNC7320B" + bytes(4)` and `struct.pack("<I", 0xBAABCFFC)`
abbrev pub loader_version : Bytes
loader_version = 118 ∷ 48 ∷ 46 ∷ 48 ∷ 48 ∷ 49 ∷ 32 ∷ 116 ∷ 101 ∷ 115 ∷ 116 ∷ 33 ∷ 0 ∷ 0 ∷ 0 ∷ 0 ∷ []

abbrev pub loader_device : Bytes
loader_device = 83 ∷ 78 ∷ 67 ∷ 55 ∷ 51 ∷ 50 ∷ 48 ∷ 66 ∷ 0 ∷ 0 ∷ 0 ∷ 0 ∷ []

abbrev pub loader_magic : Bytes
loader_magic = le 4 0xbaabcffc

unfoldable pub stable_loader_descriptor : Bytes → Result IspFault Bytes
stable_loader_descriptor raw =
    if not (length raw == descriptor_length)
    then err runtime_error
    else if not (eq_bytes (take 16 raw) loader_version)
    then err runtime_error
    else if not (eq_bytes (slice raw 16 12) loader_device)
    then err runtime_error
    else if not (eq_bytes (slice raw 32 4) loader_magic)
    then err runtime_error
    else ok (take 28 raw ++ slice raw 32 4)

-- `_ALLOWED`: identify, status, read, 4-byte addressing, descriptor.
abbrev pub is_allowed : ℕ → Bool
is_allowed sub = (sub == 0x00) || (sub == 0x01) || (sub == 0x05) || (sub == 0x17) || (sub == 0xf1)

-- `cdb[0]` and `cdb[1]`, of a block that has them.
abbrev pub byte_at : Bytes → ℕ → ℕ
byte_at cdb i = elim (get_elem? cdb i) [ some b ↦ b | none ↦ 0 ]

abbrev pub cbw : ℕ → ℕ → Bytes → Bytes
cbw tag data_len cdb =
    le 4 0x43425355
    ++ (le 4 tag ++ (le 4 data_len ++ ((if data_len == 0 then 0 else 0x80) ∷ 0 ∷ 16 ∷ cdb)))

module _ {W : Type 0} (bus : Bus W) where
  -- What `_xfer` does with a return code that is not 0.
  abbrev pub failed : Bool → Host W → W → Host W
  failed endpoint host after = record {
    clear_halt_on_error = host.clear_halt_on_error;
    tag = host.tag;
    wire = if host.clear_halt_on_error then bus.clear_halt endpoint after else after;
  }

  abbrev pub moved : Host W → W → Host W
  moved host after = record {
    clear_halt_on_error = host.clear_halt_on_error;
    tag = host.tag;
    wire = after;
  }

  -- `_xfer_exact` on the OUT endpoint, and on the IN endpoint.
  unfoldable pub send_exact : Bytes → Action (Host W) IspFault (Unit {0})
  send_exact content host =
      let (sent, after) = bus.bulk_out content host.wire in
      elim sent [
        | none ↦ (err runtime_error, failed false host after)
        | some n ↦ ((if n == length content then ok tt else err runtime_error), moved host after)
      ]

  unfoldable pub receive_exact : ℕ → Action (Host W) IspFault Bytes
  receive_exact n host =
      let (received, after) = bus.bulk_in n host.wire in
      elim received [
        | none ↦ (err runtime_error, failed true host after)
        | some content ↦
            ((if length content == n then ok content else err runtime_error), moved host after)
      ]

  -- The data phase, none for a length of 0.
  unfoldable pub receive_data : ℕ → Action (Host W) IspFault Bytes
  receive_data zero = pure []
  receive_data (suc n) = receive_exact (suc n)

  abbrev pub next_tag : Host W → Host W
  next_tag host = record {
    clear_halt_on_error = host.clear_halt_on_error;
    tag = (host.tag + 1) % 2 ^ 32;
    wire = host.wire;
  }

  -- `_command` behind its guards. A length of more than 32 bits is one that `struct.pack` refuses.
  unfoldable pub exchange : Bytes → ℕ → Action (Host W) IspFault (Bytes × ℕ × ℕ)
  exchange cdb data_len host =
      let tag = (host.tag + 1) % 2 ^ 32 in
      (raise_if (not (leb data_len 0xffffffff)) struct_error
          >> send_exact (cbw tag data_len cdb)
          >> receive_data data_len
          >>= λ out. receive_exact 13 >>= λ csw.
              lift (parse_csw csw tag data_len) >>= λ answer. pure (out, answer.0, answer.1))
        (next_tag host)

  unfoldable pub command : (ℕ → Bool) → Bytes → ℕ → Action (Host W) IspFault (Bytes × ℕ × ℕ)
  command allowed cdb data_len host =
      if not (length cdb == 16 && (byte_at cdb 0 == 0xf6))
      then (err value_error, host)
      else if not (allowed (byte_at cdb 1))
      then (err value_error, host)
      else exchange cdb data_len host

  -- `Device.cmd`
  abbrev pub cmd : Bytes → ℕ → Action (Host W) IspFault (Bytes × ℕ × ℕ)
  cmd = command is_allowed
