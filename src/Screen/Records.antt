-- ===== src/Screen/Records.antt =====
-- The records of format.py and the checks of a single one.
use kb.Base.{
  ℕ, ◌+◌, ◌-◌, ◌%◌, Bool, true, false, ◌&&◌, ◌||◌, ltb, leb, ◌==◌, ◌!=◌, if◌then◌else◌, slice,
  Bytes, le_value,
}

-- `ScreenFormatError`, without its message.
pub data ScreenFault : Type 0 where
  screen_format_error : ScreenFault

abbrev pub screen_magic : ℕ
screen_magic = 0x3153424b

abbrev pub screen_version : ℕ
screen_version = 1

-- `HEADER.size`, `SCREEN.size` and `WIDGET.size`
abbrev pub header_length : ℕ
header_length = 48

abbrev pub screen_length : ℕ
screen_length = 16

abbrev pub widget_length : ℕ
widget_length = 40

abbrev pub max_screens : ℕ
max_screens = 16

abbrev pub max_widgets : ℕ
max_widgets = 128

abbrev pub max_binary_size : ℕ
max_binary_size = 0x140000 - 64

-- The unsigned fields `I`, `H` and `B` at an offset.
abbrev pub int_at : Bytes → ℕ → ℕ
int_at blob i = le_value (slice blob i 4)

abbrev pub short_at : Bytes → ℕ → ℕ
short_at blob i = le_value (slice blob i 2)

abbrev pub char_at : Bytes → ℕ → ℕ
char_at blob i = le_value (slice blob i 1)

-- A signed `h` as its value plus 32768, which orders and adds as the signed value does.
abbrev pub biased_at : Bytes → ℕ → ℕ
biased_at blob i = (short_at blob i + 32768) % 65536

abbrev pub zero_point : ℕ
zero_point = 32768

abbrev pub is_widget_type : ℕ → Bool
is_widget_type code = leb 1 code && leb code 5

-- The codes of `ACTIONS`.
abbrev pub is_action_code : ℕ → Bool
is_action_code code =
    code == 0x00
    || code == 0x01
    || code == 0x10
    || code == 0x11
    || code == 0x12
    || code == 0x20
    || code == 0x21
    || code == 0x22
    || code == 0x30
    || code == 0x31
    || code == 0x40

-- `_validate_action_fields`, with the bounds of the value biased by 32768.
unfoldable pub is_action_valid : ℕ → ℕ → ℕ → ℕ → ℕ → ℕ → Bool
is_action_valid action target arg0 arg1 minimum maximum =
    if action != 0x01 && target != 0
    then false
    else if action == 0x00 || action == 0x01
    then arg0 == 0 && arg1 == 0
    else if action == 0x10
    then arg0 == 0 && leb arg1 0xffffff
    else if action == 0x11
    then leb arg0 4 && arg1 == 0
    else if action == 0x20
    then leb arg0 4 && arg1 == 0
    else if action == 0x12
    then leb zero_point minimum && leb maximum (zero_point + 100) && arg0 == 0 && arg1 == 0
    else if action == 0x21
    then leb zero_point minimum && leb maximum (zero_point + 0xff) && arg0 == 0 && arg1 == 0
    else if action == 0x22
    then leb zero_point minimum && leb maximum (zero_point + 1) && leb arg0 0xff && leb arg1 0xff
    else if action == 0x30
    then arg0 != 0 && (ltb arg0 152 || (leb 0xe0 arg0 && leb arg0 0xe7)) && arg1 == 0
    else if action == 0x31
    then arg0 != 0 && arg1 == 0
    else true

-- A widget as it is unpacked, with the offset and the length of its text; the signed fields are
-- biased by 32768.
pub record Widget : Type 0 where
  pub widget_id : ℕ
  pub widget_type : ℕ
  pub widget_flags : ℕ
  pub x : ℕ
  pub y : ℕ
  pub width : ℕ
  pub height : ℕ
  pub foreground : ℕ
  pub background : ℕ
  pub minimum : ℕ
  pub maximum : ℕ
  pub value : ℕ
  pub target : ℕ
  pub action : ℕ
  pub action_flags : ℕ
  pub arg0 : ℕ
  pub arg1 : ℕ
  pub text_offset : ℕ
  pub text_length : ℕ
  pub widget_reserved : ℕ

-- `WIDGET.unpack_from(blob, at)`, of the format `<HBBhhhhHHhhhHBBHIIHH`.
unfoldable pub unpack_widget : Bytes → ℕ → Widget
unpack_widget blob at = record {
  widget_id = short_at blob at;
  widget_type = char_at blob (at + 2);
  widget_flags = char_at blob (at + 3);
  x = biased_at blob (at + 4);
  y = biased_at blob (at + 6);
  width = biased_at blob (at + 8);
  height = biased_at blob (at + 10);
  foreground = short_at blob (at + 12);
  background = short_at blob (at + 14);
  minimum = biased_at blob (at + 16);
  maximum = biased_at blob (at + 18);
  value = biased_at blob (at + 20);
  target = short_at blob (at + 22);
  action = char_at blob (at + 24);
  action_flags = char_at blob (at + 25);
  arg0 = short_at blob (at + 26);
  arg1 = int_at blob (at + 28);
  text_offset = int_at blob (at + 32);
  text_length = short_at blob (at + 36);
  widget_reserved = short_at blob (at + 38);
}

-- A screen as it is unpacked.
pub record Screen : Type 0 where
  pub screen_id : ℕ
  pub first : ℕ
  pub count : ℕ
  pub screen_background : ℕ
  pub name_offset : ℕ
  pub name_length : ℕ
  pub screen_flags : ℕ

-- `SCREEN.unpack_from(blob, at)`, of the format `<HHHHIHH`.
unfoldable pub unpack_screen : Bytes → ℕ → Screen
unpack_screen blob at = record {
  screen_id = short_at blob at;
  first = short_at blob (at + 2);
  count = short_at blob (at + 4);
  screen_background = short_at blob (at + 6);
  name_offset = int_at blob (at + 8);
  name_length = short_at blob (at + 12);
  screen_flags = short_at blob (at + 14);
}
