-- ===== src/Screen/Parser.antt =====
-- `parse_binary` of format.py.
use kb.Base.{
  ℕ, zero, suc, ◌+◌, ◌-◌, ◌*◌, ◌/◌, ◌%◌, ◌^◌, Bool, true, false, ◌&&◌, ◌||◌, not, List, [], ◌∷◌,
  ◌++◌, ltb, leb, ◌==◌, ◌!=◌, if◌then◌else◌, length, drop, slice, Bytes, crc32, is_utf8, Result, ok,
  err,
}
use kb.Screen.Records.{
  ScreenFault, screen_format_error, screen_magic, screen_version, header_length, screen_length,
  widget_length, max_screens, max_widgets, max_binary_size, int_at, short_at, zero_point,
  is_widget_type, is_action_code, is_action_valid, Widget, unpack_widget, unpack_screen,
}

-- The three channels that `rgb888` prints.
abbrev pub rgb888 : ℕ → ℕ × ℕ × ℕ
rgb888 colour =
    (colour / 2 ^ 11 % 32 * 255 / 31, colour / 2 ^ 5 % 64 * 255 / 63, colour % 32 * 255 / 31)

-- A widget of the document: its fields, its colours and its text.
pub record WidgetEntry : Type 0 where
  pub fields : Widget
  pub foreground_rgb : ℕ × ℕ × ℕ
  pub background_rgb : ℕ × ℕ × ℕ
  pub text : Bytes

pub record ScreenEntry : Type 0 where
  pub id : ℕ
  pub name : Bytes
  pub rgb : ℕ × ℕ × ℕ
  pub flags : ℕ
  pub widgets : List WidgetEntry

pub record Document : Type 0 where
  pub boot_screen : ℕ
  pub document_flags : ℕ
  pub screens : List ScreenEntry

-- `value in seen`
abbrev pub is_member : ℕ → List ℕ → Bool
is_member value [] = false
is_member value (x ∷ xs) = value == x || is_member value xs

-- The inner function `text`.
unfoldable pub text_of : Bytes → ℕ → ℕ → Result ScreenFault Bytes
text_of strings offset size =
    if ltb (length strings) offset || ltb (length strings - offset) size
    then err screen_format_error
    else if is_utf8 (slice strings offset size)
    then ok (slice strings offset size)
    else err screen_format_error

-- The checks of the loop over the widgets, and its `widget_ids`.
unfoldable pub is_widget : Widget → List ℕ → Bool
is_widget w seen =
    is_widget_type w.widget_type
    && is_action_code w.action
    && w.widget_flags == 0
    && w.action_flags == 0
    && w.widget_reserved == 0
    && not (is_member w.widget_id seen)
    && not (
        leb w.width zero_point
        || leb w.height zero_point
        || ltb w.x zero_point
        || ltb w.y zero_point
        || ltb (480 + 2 * zero_point) (w.x + w.width)
        || ltb (800 + 2 * zero_point) (w.y + w.height))
    && leb w.minimum w.maximum
    && leb w.minimum w.value
    && leb w.value w.maximum
    && is_action_valid w.action w.target w.arg0 w.arg1 w.minimum w.maximum

-- The loop over the widgets, with the rounds left, the offset and the identifiers before.
unfoldable pub read_widgets : ℕ → ℕ → List ℕ → Bytes → Bytes → Result ScreenFault (List WidgetEntry)
read_widgets zero at seen blob strings = ok []
read_widgets (suc rounds) at seen blob strings =
    let w = unpack_widget blob at in
    let rest = read_widgets rounds (at + widget_length) (w.widget_id ∷ seen) blob strings in
    if not (is_widget w seen)
    then err screen_format_error
    else elim (text_of strings w.text_offset w.text_length) [
      | err e ↦ err e
      | ok text ↦ elim rest [
        | err e ↦ err e
        | ok entries ↦ ok (
            record {
              fields = w;
              foreground_rgb = rgb888 w.foreground;
              background_rgb = rgb888 w.background;
              text = text;
            }
            ∷ entries)
      ]
    ]

-- The state of the loop over the screens: the screens and identifiers so far, and `next_widget`.
pub record Screens : Type 0 where
  pub entries : List ScreenEntry
  pub ids : List ℕ
  pub next_widget : ℕ

-- The body of that loop.
unfoldable pub read_screen :
    ℕ → List WidgetEntry → Bytes → Bytes → Screens → Result ScreenFault Screens
read_screen at raw_widgets blob strings state =
    let s = unpack_screen blob at in
    if s.screen_flags != 0
      || is_member s.screen_id state.ids
      || s.first != state.next_widget
      || ltb (length raw_widgets) (s.first + s.count)
    then err screen_format_error
    else elim (text_of strings s.name_offset s.name_length) [
      | err e ↦ err e
      | ok name ↦ ok (record {
        entries =
            state.entries
            ++ (record {
              id = s.screen_id;
              name = name;
              rgb = rgb888 s.screen_background;
              flags = s.screen_flags;
              widgets = slice raw_widgets s.first s.count;
            }
                ∷ []);
        ids = s.screen_id ∷ state.ids;
        next_widget = state.next_widget + s.count;
      })
    ]

unfoldable pub read_screens :
    ℕ → ℕ → List WidgetEntry → Bytes → Bytes → Screens → Result ScreenFault Screens
read_screens zero at raw_widgets blob strings state = ok state
read_screens (suc rounds) at raw_widgets blob strings state =
    elim (read_screen at raw_widgets blob strings state) [
      | err e ↦ err e
      | ok next ↦ read_screens rounds (at + screen_length) raw_widgets blob strings next
    ]

-- The last loop: every navigation names a screen.
abbrev pub are_targets : List ℕ → List WidgetEntry → Bool
are_targets ids [] = true
are_targets ids (w ∷ ws) =
    (w.fields.action != 0x01 || is_member w.fields.target ids) && are_targets ids ws

-- The guards on the header, which end before the string pool is decoded.
unfoldable pub is_header : Bytes → Bool
is_header blob =
    let screen_count = short_at blob 16 in
    let widget_count = short_at blob 20 in
    leb (length blob) max_binary_size
    && leb header_length (length blob)
    && int_at blob 0 == screen_magic
    && short_at blob 4 == screen_version
    && short_at blob 6 == header_length
    && int_at blob 8 == length blob
    && leb 1 screen_count
    && leb screen_count max_screens
    && leb widget_count max_widgets
    && int_at blob 24 == header_length
    && int_at blob 28 == int_at blob 24 + screen_count * screen_length
    && int_at blob 32 == int_at blob 28 + widget_count * widget_length
    && int_at blob 32 + int_at blob 36 == int_at blob 8
    && short_at blob 22 == 0
    && int_at blob 40 == 0
    && int_at blob 44 == 0
    && crc32 (drop header_length blob) == int_at blob 12

-- What follows when the widgets and then the screens are read.
unfoldable pub finish : ℕ → ℕ → List WidgetEntry → Screens → Result ScreenFault Document
finish boot flags raw_widgets state =
    if state.next_widget != length raw_widgets || not (is_member boot state.ids)
    then err screen_format_error
    else if not (are_targets state.ids raw_widgets)
    then err screen_format_error
    else ok (record { boot_screen = boot; document_flags = flags; screens = state.entries })

unfoldable pub parse_binary : Bytes → Result ScreenFault Document
parse_binary blob =
    let strings = drop (int_at blob 32) blob in
    if not (is_header blob)
    then err screen_format_error
    else if not (is_utf8 strings)
    then err screen_format_error
    else elim (read_widgets (short_at blob 20) (int_at blob 28) [] blob strings) [
      | err e ↦ err e
      | ok raw_widgets ↦
          elim (read_screens (short_at blob 16) (int_at blob 24) raw_widgets blob strings
            (record { entries = []; ids = []; next_widget = 0 })) [
              | err e ↦ err e
              | ok state ↦ finish (short_at blob 18) (short_at blob 22) raw_widgets state
            ]
    ]
