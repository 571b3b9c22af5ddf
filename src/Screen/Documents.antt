-- ===== src/Screen/Documents.antt =====
-- What a screen document that `parse_binary` accepts is.
use kb.Base.{
  ℕ, zero, suc, ◌+◌, ◌≡◌, refl, sym, ap, subst, ◌∙◌, Bool, true, false, ◌||◌, not, List, [], ◌∷◌,
  ◌++◌, arith, ltb, ◌==◌, ◌!=◌, length, take, drop, take-all, take-append-take, slice, Bytes,
  is_utf8, Result, ok, err, guard-eq-ok, then-eq-ok,
}
use kb.Screen.Records.{
  ScreenFault, screen_format_error, screen_length, int_at, short_at, unpack_screen,
}
use kb.Screen.Parser.{
  rgb888, WidgetEntry, ScreenEntry, Document, is_member, text_of, read_widgets, Screens,
  read_screen, read_screens, are_targets, is_header, finish, parse_binary,
}
use kb.Screen.Lists.{
  entry_ids, all_widgets, Distinct, is_member-append_one, Distinct-append_one, entry_ids-append,
  all_widgets-append,
}

-- The loop over the screens ties its state to the widgets that it has handed out.
abbrev IsTied : List WidgetEntry → Screens → Type 0
IsTied raw state =
    ((v : ℕ) → is_member v (entry_ids state.entries) ≡ is_member v state.ids)
    × Distinct (entry_ids state.entries)
    × (all_widgets state.entries ≡ take state.next_widget raw)

-- The state after one more screen.
next_state : ℕ → List WidgetEntry → Bytes → Screens → Bytes → Screens
next_state at raw blob state name =
    let s = unpack_screen blob at in
    record {
      entries =
          state.entries
          ++ (record {
            id = s.screen_id;
            name = name;
            rgb = rgb888 s.screen_background;
            flags = s.screen_flags;
            widgets = slice raw s.first s.count;
          }
              ∷ []);
      ids = s.screen_id ∷ state.ids;
      next_widget = state.next_widget + s.count;
    }

next_state-IsTied :
    (at : ℕ) (raw : List WidgetEntry) (blob : Bytes) (state : Screens) (name : Bytes)
    → IsTied raw state
    → is_member (unpack_screen blob at).screen_id state.ids ≡ false
    → (unpack_screen blob at).first ≡ state.next_widget
    → IsTied raw (next_state at raw blob state name)
unfolding next_state
next_state-IsTied at raw blob state name tied new place =
    let s = unpack_screen blob at in
    let e : ScreenEntry = record {
      id = s.screen_id;
      name = name;
      rgb = rgb888 s.screen_background;
      flags = s.screen_flags;
      widgets = slice raw s.first s.count;
    } in
    let ids = entry_ids-append state.entries e in
    (
      (λ v.
          ap (is_member v) ids
          ∙ is_member-append_one v (entry_ids state.entries) s.screen_id
          ∙ ap (λ b. v == s.screen_id || b) (tied.0 v)),
      subst Distinct (sym ids) (
          Distinct-append_one (entry_ids state.entries) s.screen_id tied.1
            (tied.0 s.screen_id ∙ new)),
      all_widgets-append state.entries e
          ∙ ap (λ ws. ws ++ slice raw s.first s.count) tied.2
          ∙ ap (λ i. take state.next_widget raw ++ slice raw i s.count) place
          ∙ take-append-take state.next_widget s.count raw,
    )

-- What a chain of two results says of the first.
chain-eq-ok :
    {A B : Type 0} (r : Result ScreenFault A) (f : A → Result ScreenFault B) (b : B)
    → (elim r [ err e ↦ err e | ok a ↦ f a ]) ≡ ok b
    → (a : A) × (r ≡ ok a) × (f a ≡ ok b)
chain-eq-ok (err e) f b h = cc
chain-eq-ok (ok a) f b h = (a, refl, h)

or-eq-false : (a b : Bool) → (a || b) ≡ false → (a ≡ false) × (b ≡ false)
or-eq-false a b h = ground arith

ne-eq-false : (a b : ℕ) → (a != b) ≡ false → a ≡ b
ne-eq-false a b h = ground arith

read_screen-IsTied :
    (at : ℕ) (raw : List WidgetEntry) (blob strings : Bytes) (state next : Screens)
    → IsTied raw state
    → read_screen at raw blob strings state ≡ ok next
    → IsTied raw next
unfolding read_screen next_state
read_screen-IsTied at raw blob strings state next tied h =
    let s = unpack_screen blob at in
    let kept =
      then-eq-ok
        (s.screen_flags != 0
          || is_member s.screen_id state.ids
          || s.first != state.next_widget
          || ltb (length raw) (s.first + s.count))
        screen_format_error _ next h in
    let outer = or-eq-false _ (ltb (length raw) (s.first + s.count)) kept.0 in
    let middle = or-eq-false (s.screen_flags != 0 || is_member s.screen_id state.ids) _ outer.0 in
    let inner = or-eq-false (s.screen_flags != 0) _ middle.0 in
    named inner.1 (ne-eq-false s.first state.next_widget middle.1)
      (text_of strings s.name_offset s.name_length) kept.1
  where
    named :
        is_member (unpack_screen blob at).screen_id state.ids ≡ false
        → (unpack_screen blob at).first ≡ state.next_widget
        → (text : Result ScreenFault Bytes)
        → (elim text [ err e ↦ err e | ok name ↦ ok (next_state at raw blob state name) ]) ≡ ok next
        → IsTied raw next
    named new place (err e) g = cc
    named new place (ok name) g =
        let same : next_state at raw blob state name ≡ next = cc in
        subst (IsTied raw) same (next_state-IsTied at raw blob state name tied new place)

read_screens-IsTied :
    (rounds at : ℕ) (raw : List WidgetEntry) (blob strings : Bytes) (state next : Screens)
    → IsTied raw state
    → read_screens rounds at raw blob strings state ≡ ok next
    → IsTied raw next
unfolding read_screens
read_screens-IsTied zero at raw blob strings state next tied h =
    let same : state ≡ next = cc in subst (IsTied raw) same tied
read_screens-IsTied (suc rounds) at raw blob strings state next tied h =
    let (middle, made, rest) = chain-eq-ok (read_screen at raw blob strings state) _ next h in
    read_screens-IsTied rounds (at + screen_length) raw blob strings middle next
      (read_screen-IsTied at raw blob strings state middle tied made) rest

are_targets-ext :
    (a b : List ℕ) (ws : List WidgetEntry)
    → ((v : ℕ) → is_member v a ≡ is_member v b)
    → are_targets a ws ≡ are_targets b ws
are_targets-ext a b [] e = refl
are_targets-ext a b (w ∷ ws) e = rw (e w.fields.target, are_targets-ext a b ws e)

-- A document whose boot screen and navigations name one of its screens, whose screens have
-- different identifiers, and whose screens share out all the widgets of the blob in order.
abbrev pub IsDocument : List WidgetEntry → Document → Type 0
IsDocument raw document =
    let ids = entry_ids document.screens in
    (is_member document.boot_screen ids ≡ true)
    × Distinct ids
    × (are_targets ids (all_widgets document.screens) ≡ true)
    × (all_widgets document.screens ≡ raw)

finish-IsDocument :
    (boot flags : ℕ) (raw : List WidgetEntry) (state : Screens) (document : Document)
    → IsTied raw state
    → finish boot flags raw state ≡ ok document
    → IsDocument raw document
unfolding finish
finish-IsDocument boot flags raw state document tied h =
    let first =
      then-eq-ok (state.next_widget != length raw || not (is_member boot state.ids))
        screen_format_error _ document h in
    let parts = or-eq-false (state.next_widget != length raw) _ first.0 in
    let last =
      guard-eq-ok (not (are_targets state.ids raw)) screen_format_error
        (record { boot_screen = boot; document_flags = flags; screens = state.entries }) document
        first.1 in
    let whole : all_widgets state.entries ≡ raw =
      tied.2
      ∙ ap (λ n. take n raw) (ne-eq-false state.next_widget (length raw) parts.0)
      ∙ take-all (length raw) raw (omega arith) in
    subst (IsDocument raw) last.1 (
      tied.0 boot ∙ not-eq-false (is_member boot state.ids) parts.1,
      tied.1,
      are_targets-ext (entry_ids state.entries) state.ids (all_widgets state.entries) tied.0
          ∙ ap (are_targets state.ids) whole
          ∙ not-eq-false (are_targets state.ids raw) last.0,
      whole,
    )
  where
    not-eq-false : (b : Bool) → not b ≡ false → b ≡ true
    not-eq-false b k = ground arith

-- An accepted blob is read as the widgets that its header counts and a document that has them: the
-- boot screen and every navigation name a screen of the document, no two screens have the same
-- identifier, and the screens share out the widgets of the blob in their order.
pub parse_binary-IsDocument :
    (blob : Bytes) (document : Document)
    → parse_binary blob ≡ ok document
    → (raw : List WidgetEntry) × (read_widgets
          (short_at blob 20)
          (int_at blob 28)
          []
          blob
          (drop (int_at blob 32) blob)
        ≡ ok raw)
      × IsDocument raw document
unfolding parse_binary
parse_binary-IsDocument blob document h =
    let strings = drop (int_at blob 32) blob in
    let header = then-eq-ok (not (is_header blob)) screen_format_error _ document h in
    let text = then-eq-ok (not (is_utf8 strings)) screen_format_error _ document header.1 in
    let (raw, made, rest) =
      chain-eq-ok (read_widgets (short_at blob 20) (int_at blob 28) [] blob strings) _ document
        text.1 in
    let start : Screens = record { entries = []; ids = []; next_widget = 0 } in
    let (state, tied, last) =
      chain-eq-ok (read_screens (short_at blob 16) (int_at blob 24) raw blob strings start) _
        document rest in
    (
      raw,
      made,
      finish-IsDocument (short_at blob 18) (short_at blob 22) raw state document
          (read_screens-IsTied (short_at blob 16) (int_at blob 24) raw blob strings start state
            ((λ v. refl), tt, refl) tied)
          last,
    )
