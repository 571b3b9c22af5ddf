-- ===== src/Screen/Tests.antt =====
-- A screen with one button that navigates to it, and the document that it is read as.
use kb.Base.{◌≡◌, refl, List, [], ◌∷◌, drop, Bytes, crc32, is_utf8, ok}
use kb.Screen.Records.{unpack_widget}
use kb.Screen.Parser.{
  WidgetEntry, Document, is_header, is_widget, text_of, read_widgets, read_screen, read_screens,
  finish, parse_binary,
}
use kb.Screen.Records.{int_at, short_at, is_action_valid, unpack_screen}
use kb.Screen.Documents.{IsDocument, parse_binary-IsDocument}

abbrev pub small_blob : Bytes
small_blob =
    75 ∷ 66 ∷ 83 ∷ 49 ∷ 1 ∷ 0 ∷ 48 ∷ 0 ∷ 109 ∷ 0 ∷ 0 ∷ 0 ∷ 45 ∷ 93 ∷ 51 ∷ 182 ∷ 1 ∷ 0 ∷ 7 ∷ 0 ∷ 1
    ∷ 0 ∷ 0 ∷ 0 ∷ 48 ∷ 0 ∷ 0 ∷ 0 ∷ 64 ∷ 0 ∷ 0 ∷ 0 ∷ 104 ∷ 0 ∷ 0 ∷ 0 ∷ 5 ∷ 0 ∷ 0 ∷ 0 ∷ 0 ∷ 0 ∷ 0 ∷ 0
    ∷ 0 ∷ 0 ∷ 0 ∷ 0 ∷ 7 ∷ 0 ∷ 0 ∷ 0 ∷ 1 ∷ 0 ∷ 52 ∷ 18 ∷ 0 ∷ 0 ∷ 0 ∷ 0 ∷ 2 ∷ 0 ∷ 0 ∷ 0 ∷ 9 ∷ 0 ∷ 2
    ∷ 0 ∷ 10 ∷ 0 ∷ 20 ∷ 0 ∷ 100 ∷ 0 ∷ 50 ∷ 0 ∷ 255 ∷ 255 ∷ 0 ∷ 0 ∷ 0 ∷ 0 ∷ 100 ∷ 0 ∷ 50 ∷ 0 ∷ 7 ∷ 0
    ∷ 1 ∷ 0 ∷ 0 ∷ 0 ∷ 0 ∷ 0 ∷ 0 ∷ 0 ∷ 2 ∷ 0 ∷ 0 ∷ 0 ∷ 3 ∷ 0 ∷ 0 ∷ 0 ∷ 72 ∷ 105 ∷ 226 ∷ 130 ∷ 172
    ∷ []

abbrev button : WidgetEntry
button = record {
  fields = record {
    widget_id = 9;
    widget_type = 2;
    widget_flags = 0;
    x = 32778;
    y = 32788;
    width = 32868;
    height = 32818;
    foreground = 0xffff;
    background = 0;
    minimum = 32768;
    maximum = 32868;
    value = 32818;
    target = 7;
    action = 1;
    action_flags = 0;
    arg0 = 0;
    arg1 = 0;
    text_offset = 2;
    text_length = 3;
    widget_reserved = 0;
  };
  foreground_rgb = (255, 255, 255);
  background_rgb = (0, 0, 0);
  text = 0xe2 ∷ 0x82 ∷ 0xac ∷ [];
}

abbrev pub small_document : Document
small_document = record {
  boot_screen = 7;
  document_flags = 0;
  screens =
      record { id = 7; name = 72 ∷ 105 ∷ []; rgb = (16, 68, 164); flags = 0; widgets = button ∷ [] }
      ∷ [];
}

pub small_blob_lem : parse_binary small_blob ≡ ok small_document
unfolding parse_binary is_header is_utf8 crc32 read_widgets unpack_widget is_widget is_action_valid
    text_of read_screens read_screen unpack_screen finish
small_blob_lem = refl

parse_binary-IsDocument_example :
    (raw : List WidgetEntry) × (read_widgets
        (short_at small_blob 20)
        (int_at small_blob 28)
        []
        small_blob
        (drop (int_at small_blob 32) small_blob)
      ≡ ok raw)
    × IsDocument raw small_document
parse_binary-IsDocument_example = parse_binary-IsDocument small_blob small_document small_blob_lem
