-- ===== src/Profile/Container.antt =====
-- `parse_profile_binary` of profile_binary.py.
use kb.Base.{
  ℕ, zero, suc, ◌+◌, ◌*◌, Bool, ◌&&◌, ◌||◌, not, List, [], ◌∷◌, ltb, leb, ◌==◌, ◌!=◌, if◌then◌else◌,
  length, drop, replicate, slice, Bytes, le_value, eq_bytes, crc32, Result, ok, err,
}
use kb.Profile.Record.{ProfileFault, profile_format_error, record_size, validate_record}

abbrev pub container_magic : ℕ
container_magic = 0x3150424b

abbrev pub container_version : ℕ
container_version = 1

-- `HEADER.size`
abbrev pub container_header : ℕ
container_header = 48

abbrev pub profile_count_max : ℕ
profile_count_max = 5

-- The loop over the slots, with the rounds left and the offset.
unfoldable pub record_names : ℕ → ℕ → Bytes → Result ProfileFault (List Bytes)
record_names zero offset blob = ok []
record_names (suc rounds) offset blob =
    let rest = record_names rounds (offset + record_size) blob in
    elim (validate_record (slice blob offset record_size)) [
      | err e ↦ err e
      | ok name ↦ elim rest [ err e ↦ err e | ok names ↦ ok (name ∷ names) ]
    ]

-- The description that is returned, without its constant `format`.
pub record Description : Type 0 where
  pub profile_count : ℕ
  pub active_profile : ℕ
  pub names : List Bytes
  pub body_crc32 : ℕ

-- The fields of the header, in their order.
abbrev pub field_i : ℕ → Bytes → ℕ
field_i offset blob = le_value (slice blob offset 4)

abbrev pub field_h : ℕ → Bytes → ℕ
field_h offset blob = le_value (slice blob offset 2)

abbrev pub field_b : ℕ → Bytes → ℕ
field_b offset blob = le_value (slice blob offset 1)

abbrev pub has_identity : Bytes → Bool
has_identity blob =
    field_i 0 blob == container_magic
    && field_h 4 blob == container_version
    && field_h 6 blob == container_header
    && field_i 20 blob == container_header
    && field_i 24 blob == 0
    && eq_bytes (slice blob 28 20) (replicate 20 0)

unfoldable pub parse_profile_binary : Bytes → Result ProfileFault Description
parse_profile_binary blob =
    let total = field_i 8 blob in
    let body_crc = field_i 12 blob in
    let count = field_b 16 blob in
    let active = field_b 17 blob in
    if ltb (length blob) container_header
    then err profile_format_error
    else if not (has_identity blob)
    then err profile_format_error
    else if not (leb 1 count && leb count profile_count_max)
        || (leb count active || field_h 18 blob != record_size)
    then err profile_format_error
    else if total != length blob || total != container_header + count * record_size
    then err profile_format_error
    else if crc32 (drop container_header blob) != body_crc
    then err profile_format_error
    else elim (record_names count container_header blob) [
      | err e ↦ err e
      | ok names ↦ ok (record {
        profile_count = count;
        active_profile = active;
        names = names;
        body_crc32 = body_crc;
      })
    ]
