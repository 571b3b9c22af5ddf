-- ===== src/Protocol/Sessions.antt =====
-- What a receiver holds at any time of a session.
use kb.Base.{
  ℕ, ◌≡◌, refl, subst, ◌∙◌, ◌⊎◌, inl, inr, true, Option, none, some, List, [], ◌∷◌, arith, ◌==◌,
  Bytes, Result, ok, err,
}
use kb.Screen.Records.{ScreenFault}
use kb.Screen.Parser.{Document, is_member, parse_binary}
use kb.Screen.Lists.{entry_ids}
use kb.Screen.Documents.{parse_binary-IsDocument}
use kb.Profile.Container.{parse_profile_binary}
use kb.Protocol.Report.{Report, ProtocolFault}
use kb.Protocol.Receiver.{Receiver, abort, contains, process}
use kb.Protocol.Valid.{IsStored, IsValid}
use kb.Protocol.Kept.{process-IsValid}
use kb.Protocol.Formats.{returns, format_validators, with_screens, new_receiver, run_session}

contains-is_member : (xs : List ℕ) (v : ℕ) → contains xs v ≡ is_member v xs
contains-is_member [] v = refl
contains-is_member (x ∷ xs) v = rw (contains-is_member xs v, flip x v)
  where
    flip : (a b : ℕ) → (a == b) ≡ (b == a)
    flip a b = ground arith

-- A receiver without stored payloads and without a transfer.
with_screens-IsValid :
    (a b : ℕ) (ids : List ℕ) (selected : ℕ)
    → (contains ids selected ≡ true) ⊎ ((ids ≡ []) × (selected ≡ 0))
    → IsValid format_validators (abort (with_screens a b ids selected))
unfolding abort
with_screens-IsValid a b ids selected h = record {
  counted = refl;
  bounded = omega arith;
  admitted = λ e. cc;
  idle = λ e. refl;
  screen = inl refl;
  profile = inl refl;
  selected = h;
}

new_receiver-IsValid :
    (a b : ℕ) (runtime_screen : Option Bytes) (c : Receiver)
    → new_receiver a b runtime_screen ≡ ok c
    → IsValid format_validators c
unfolding new_receiver
new_receiver-IsValid a b none c h =
    let same : abort (with_screens a b [] 0) ≡ c = cc in
    subst (IsValid format_validators) same (with_screens-IsValid a b [] 0 (inr (refl, refl)))
new_receiver-IsValid a b (some blob) c h = parsed (parse_binary blob) refl h
  where
    parsed :
        (r : Result ScreenFault Document)
        → parse_binary blob ≡ r
        → (elim r [
          | err e ↦ err e
          | ok document ↦
              ok (abort (with_screens a b (entry_ids document.screens) document.boot_screen))
        ])
          ≡ ok c
        → IsValid format_validators c
    parsed (err e) p q = cc
    parsed (ok document) p q =
        let ids = entry_ids document.screens in
        let same : abort (with_screens a b ids document.boot_screen) ≡ c = cc in
        let (raw, read, valid) = parse_binary-IsDocument blob document p in
        subst (IsValid format_validators) same (
          with_screens-IsValid a b ids document.boot_screen
            (inl (contains-is_member ids document.boot_screen ∙ valid.0)))

run_session-IsValid :
    (c c' : Receiver) (reports : List Report)
    → IsValid format_validators c
    → run_session c reports ≡ ok c'
    → IsValid format_validators c'
run_session-IsValid c c' [] v h = let same : c ≡ c' = cc in subst (IsValid format_validators) same v
run_session-IsValid c c' (m ∷ ms) v h =
    answered (λ next. run_session-IsValid next c' ms) (process format_validators c m) refl h
  where
    answered :
        ((next : Receiver)
          → IsValid format_validators next
          → run_session next ms ≡ ok c'
          → IsValid format_validators c')
        → (r : Result ProtocolFault (Receiver × Report)) → process format_validators c m ≡ r
        → (elim r [ err e ↦ err e | ok (next, answer) ↦ run_session next ms ]) ≡ ok c'
        → IsValid format_validators c'
    answered again (err e) p q = cc
    answered again (ok (next, answer)) p q =
        again next (process-IsValid format_validators c next m answer v p) q

-- A stored payload is empty or it is one that this parser takes.
abbrev pub IsParsed : {E A : Type 0} → (Bytes → Result E A) → Bytes → Type 0
IsParsed {E} {A} parse content = (content ≡ []) ⊎ ((a : A) × (parse content ≡ ok a))

returned : {E A : Type 0} (r : Result E A) → returns r ≡ true → (a : A) × (r ≡ ok a)
returned (ok a) k = (a, refl)
returned (err e) k = cc

IsStored-IsParsed :
    {E A : Type 0} (parse : Bytes → Result E A) (least capacity : ℕ) (content : Bytes)
    → IsStored (λ xs. returns (parse xs)) least capacity content
    → IsParsed parse content
IsStored-IsParsed parse least capacity [] (inl e) = inl refl
IsStored-IsParsed parse least capacity (x ∷ xs) (inl e) = absurd (omega arith)
IsStored-IsParsed parse least capacity content (inr (h, _, _)) = inr (returned (parse content) h)

-- At any time of a session that starts with a new receiver and in which every report is answered:
-- the stored screen is empty or one that `parse_binary` takes, the stored profile is empty or one
-- that `parse_profile_binary` takes, and the selected screen is a runtime screen or, when there is
-- none, 0.
pub session-IsParsed :
    (a b : ℕ) (runtime_screen : Option Bytes) (c c' : Receiver) (reports : List Report)
    → new_receiver a b runtime_screen ≡ ok c
    → run_session c reports ≡ ok c'
    → IsParsed parse_binary c'.stored_screen
      × IsParsed parse_profile_binary c'.stored_profile
      × ((contains c'.runtime_screen_ids c'.selected_screen ≡ true)
          ⊎ ((c'.runtime_screen_ids ≡ []) × (c'.selected_screen ≡ 0)))
session-IsParsed a b runtime_screen c c' reports made run =
    let valid =
      run_session-IsValid c c' reports (new_receiver-IsValid a b runtime_screen c made) run in
    (
      IsStored-IsParsed parse_binary 64 c'.screen_capacity c'.stored_screen valid.screen,
      IsStored-IsParsed parse_profile_binary 1840 c'.profile_capacity c'.stored_profile
          valid.profile,
      valid.selected,
    )
