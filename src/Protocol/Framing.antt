-- ===== src/Protocol/Framing.antt =====
-- What `pack` and `unpack` do, branch by branch.
use kb.Base.{
  not-ltb, ℕ, ◌^◌, ◌≤◌, ◌<◌, ◌≡◌, Bool, true, false, ◌||◌, not, ◌++◌, arith, ltb, ◌!=◌,
  if◌then◌else◌, length, drop, slice, Bytes, le, le_value, ljust, crc32, ok, err,
}
use kb.Protocol.Report.{
  Report, report_id, version_number, payload_size, report_size, fits, frame_prefix, pack, fields_of,
  unpack,
}

-- What `fits` tests.
pub record IsInRange (r : Report) : Type 0 where
  pub kind : r.kind < 256
  pub opcode : r.opcode < 256
  pub flags : r.flags < 256
  pub status : r.status < 256
  pub sequence : r.sequence < 2 ^ 16
  pub transfer_id : r.transfer_id < 2 ^ 32
  pub offset : r.offset < 2 ^ 32
  pub total_length : r.total_length < 2 ^ 32

pub fits-IsInRange : (r : Report) → fits r ≡ true → IsInRange r
unfolding fits
fits-IsInRange r h = ground arith

pub IsInRange-fits : (r : Report) → IsInRange r → fits r ≡ true
unfolding fits
IsInRange-fits r h = ground arith

-- Tests and branches over plain values.
or-ne-false : (a b c d : ℕ) → (a != b || c != d) ≡ false → (a ≡ b) × (c ≡ d)
or-ne-false a b c d h = ground arith

false-or-ne : (a b c d : ℕ) → a ≡ b → c ≡ d → (a != b || c != d) ≡ false
false-or-ne a b c d p q = ground arith

ne-false : (a b : ℕ) → (a != b) ≡ false → a ≡ b
ne-false a b h = ground arith

false-ne : (a b : ℕ) → a ≡ b → (a != b) ≡ false
false-ne a b h = ground arith

three_guards :
    {E A : Type 0} (a b c : Bool) (e : E) (x r : A)
    → (if a then err e else if b then err e else if c then err e else ok x) ≡ ok r
    → (a ≡ false) × (b ≡ false) × (c ≡ false) × (x ≡ r)
three_guards a b c e x r h = ground arith

two_guards :
    {E A : Type 0} (a b : Bool) (d e : E) (x r : A)
    → (if a then err d else if not b then err e else ok x) ≡ ok r
    → (a ≡ false) × (b ≡ true) × (x ≡ r)
two_guards a b d e x r h = ground arith

pub unpack_lem :
    (blob : Bytes) (r : Report)
    → length blob ≡ 64
    → le_value (slice blob 0 1) ≡ report_id
    → le_value (slice blob 1 1) ≡ version_number
    → crc32 (slice blob 24 36) ≡ le_value (slice blob 20 4)
    → crc32 (slice blob 1 59) ≡ le_value (slice blob 60 4)
    → fields_of blob ≡ r
    → unpack blob ≡ ok r
unfolding unpack
unpack_lem blob r l i v p f e = rw (
  unpack,
  false-ne (length blob) report_size l,
  false-or-ne (le_value (slice blob 0 1)) report_id (le_value (slice blob 1 1)) version_number i v,
  false-or-ne (crc32 (slice blob 24 36)) (le_value (slice blob 20 4)) (crc32 (slice blob 1 59))
      (le_value (slice blob 60 4)) p f,
  e,
)

pub record IsFrame (blob : Bytes) (r : Report) : Type 0 where
  pub sized : length blob ≡ 64
  pub head : (le_value (slice blob 0 1) ≡ report_id) × (le_value (slice blob 1 1) ≡ version_number)
  pub crcs :
      (crc32 (slice blob 24 36) ≡ le_value (slice blob 20 4))
      × (crc32 (slice blob 1 59) ≡ le_value (slice blob 60 4))
  pub fields : fields_of blob ≡ r

pub unpack-IsFrame : (blob : Bytes) (r : Report) → unpack blob ≡ ok r → IsFrame blob r
unfolding unpack
unpack-IsFrame blob r h =
    let g = three_guards _ _ _ _ _ _ h in
    record {
      sized = ne-false _ _ g.0;
      head = or-ne-false _ _ _ _ g.1;
      crcs = or-ne-false _ _ _ _ g.2;
      fields = g.3;
    }

-- The frame that `pack` makes.
abbrev pub frame_of : Report → Bytes → Bytes
frame_of r padded = let frame = frame_prefix r padded in frame ++ le 4 (crc32 (drop 1 frame))

pub pack_lem :
    (r : Report)
    → length r.payload ≤ 36
    → fits r ≡ true
    → pack r ≡ ok (frame_of r (ljust payload_size r.payload))
unfolding pack
pack_lem r l h = rw (pack, not-ltb payload_size (length r.payload) l, h)

pub pack-eq-ok :
    (r : Report) (blob : Bytes)
    → pack r ≡ ok blob
    → (length r.payload ≤ 36) × (fits r ≡ true) × (frame_of r (ljust payload_size r.payload) ≡ blob)
unfolding pack
pack-eq-ok r blob h = let g = two_guards _ _ _ _ _ _ h in (not_above _ g.0, g.1, g.2)
  where
    not_above : (n : ℕ) → ltb payload_size n ≡ false → n ≤ 36
    not_above n e = ground arith

pub le_value-le_1 : (n : ℕ) → n < 256 → le_value (le 1 n) ≡ n
le_value-le_1 n h = omega arith

pub le_value-le_2 : (n : ℕ) → n < 2 ^ 16 → le_value (le 2 n) ≡ n
le_value-le_2 n h = omega arith

pub le_value-le_4 : (n : ℕ) → n < 2 ^ 32 → le_value (le 4 n) ≡ n
le_value-le_4 n h = omega arith
