-- ===== src/Profile/Record.antt =====
-- `_validate_record` of profile_binary.py: one fixed-size profile of the container.
use kb.Base.{
  ℕ, zero, suc, ◌+◌, ◌*◌, ◌/◌, Bool, true, false, ◌&&◌, ◌||◌, not, Option, none, some, [], ◌∷◌, ltb,
  leb, ◌==◌, ◌!=◌, if◌then◌else◌, length, take, slice, Bytes, le_value, any, is_utf8, Result, ok,
  err,
}

-- `ProfileFormatError`, without its message.
pub data ProfileFault : Type 0 where
  profile_format_error : ProfileFault

abbrev pub record_size : ℕ
record_size = 1792

abbrev pub name_bytes : ℕ
name_bytes = 64

abbrev pub logical_keys : ℕ
logical_keys = 85

abbrev pub mode_count : ℕ
mode_count = 4

abbrev pub fn_logical_key : ℕ
fn_logical_key = 0x4e

abbrev pub fn1_mode : ℕ
fn1_mode = 3

-- The `B` and the `H` at an offset of a record.
abbrev pub byte_at : Bytes → ℕ → ℕ
byte_at record_bytes i = le_value (slice record_bytes i 1)

abbrev pub word_at : Bytes → ℕ → ℕ
word_at record_bytes i = le_value (slice record_bytes i 2)

-- `raw_name.split(b"\0", 1)`, when there is a zero.
abbrev pub split_at_zero : Bytes → Option (Bytes × Bytes)
split_at_zero [] = none
split_at_zero (x ∷ xs) =
    let rest = split_at_zero xs in
    if x == 0
    then some ([], xs)
    else elim rest [ none ↦ none | some (name, padding) ↦ some (x ∷ name, padding) ]

abbrev pub is_lighting : Bytes → Bool
is_lighting r = not (
    ltb 1 (byte_at r 66)
    || ltb 4 (byte_at r 67)
    || ltb 100 (byte_at r 68)
    || ltb 100 (byte_at r 69)
    || ltb 4 (byte_at r 70))

abbrev pub is_travel : ℕ → Bool
is_travel x = leb 1 x && leb x 32

-- `for logical in range(LOGICAL_KEYS)`, with the rounds left and the offset of the record.
abbrev pub are_hall_records : ℕ → ℕ → Bytes → Bool
are_hall_records zero offset r = true
are_hall_records (suc rounds) offset r =
    is_travel (byte_at r offset)
    && is_travel (byte_at r (offset + 1))
    && is_travel (byte_at r (offset + 2))
    && leb (byte_at r (offset + 3)) 1
    && are_hall_records rounds (offset + 4) r

abbrev pub is_keyboard_usage : ℕ → Bool
is_keyboard_usage code = (ltb 0 code && ltb code 152) || (leb 0xe0 code && leb code 0xe7)

-- `valid` of an action record.
abbrev pub is_action : ℕ → ℕ → ℕ → ℕ → Bool
is_action logical code kind argument =
    if kind == 0 || kind == 1
    then code == 0 && argument == 0
    else if kind == 2
    then logical != fn_logical_key && is_keyboard_usage code && argument == 0
    else if kind == 3
    then logical != fn_logical_key && code != 0 && argument == 0
    else if kind == 4
    then logical == fn_logical_key && code == 0 && argument == fn1_mode
    else false

-- The two loops over the modes and the keys, with the rounds left.
abbrev pub are_mode_actions : ℕ → ℕ → ℕ → Bytes → Bool
are_mode_actions zero logical offset r = true
are_mode_actions (suc rounds) logical offset r =
    is_action logical (word_at r offset) (byte_at r (offset + 2)) (byte_at r (offset + 3))
    && are_mode_actions rounds (logical + 1) (offset + 4) r

abbrev pub are_actions : ℕ → ℕ → Bytes → Bool
are_actions zero offset r = true
are_actions (suc rounds) offset r =
    are_mode_actions logical_keys 0 offset r && are_actions rounds (offset + logical_keys * 4) r

abbrev pub is_primary_fn : Bytes → Bool
is_primary_fn r =
    let offset = 420 + fn_logical_key * 4 in
    word_at r offset == 0 && byte_at r (offset + 2) == 4 && byte_at r (offset + 3) == fn1_mode

-- `len(set(keys)) == len(keys)`
abbrev pub are_distinct : ℕ → ℕ → ℕ → ℕ → Bool
are_distinct a b c d = a != b && a != c && a != d && b != c && b != d && c != d

abbrev pub is_analog : Bytes → Bool
is_analog r = not (
    ltb 1 (byte_at r 1780)
    || ltb 2 (byte_at r 1781)
    || ltb 2 (byte_at r 1782)
    || leb (byte_at r 1784) (byte_at r 1783)
    || ltb 32 (byte_at r 1784)
    || ltb 10 (byte_at r 1785)
    || byte_at r 1786 / 8 != 0
    || byte_at r 1791 != 0
    || leb logical_keys (byte_at r 1787)
    || leb logical_keys (byte_at r 1788)
    || leb logical_keys (byte_at r 1789)
    || leb logical_keys (byte_at r 1790)
    || not (are_distinct (byte_at r 1787) (byte_at r 1788) (byte_at r 1789) (byte_at r 1790)))

-- The checks behind the name.
unfoldable pub is_settings : Bytes → Bool
is_settings r =
    leb (byte_at r 64) 3
    && ltb (byte_at r 65) 3
    && is_lighting r
    && are_hall_records logical_keys 80 r
    && are_actions mode_count 420 r
    && is_primary_fn r
    && length (slice r 1780 12) == 12
    && is_analog r

-- The name of a valid record, as the bytes of its text, for a record of `record_size` bytes, which
-- is what `parse_profile_binary` passes. On a shorter one the code raises another `ValueError`.
unfoldable pub validate_record : Bytes → Result ProfileFault Bytes
validate_record r = elim (split_at_zero (take name_bytes r)) [
  | none ↦ err profile_format_error
  | some (name, padding) ↦
      if length name == 0 || any padding
      then err profile_format_error
      else if not (is_utf8 name)
      then err profile_format_error
      else if not (is_settings r)
      then err profile_format_error
      else ok name
]
