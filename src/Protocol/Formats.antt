-- ===== src/Protocol/Formats.antt =====
-- `OfflineReceiver` with the parsers of format.py and profile_binary.py: its constructor, and the
-- reports of a session one after the other.
use kb.Base.{ℕ, Bool, true, false, Option, none, some, List, [], ◌∷◌, Bytes, Result, ok, err}
use kb.Screen.Records.{ScreenFault}
use kb.Screen.Parser.{parse_binary}
use kb.Screen.Lists.{entry_ids}
use kb.Profile.Container.{parse_profile_binary}
use kb.Protocol.Report.{Report, ProtocolFault}
use kb.Protocol.Transfer.{store_screen}
use kb.Protocol.Receiver.{Validators, Receiver, abort, process}

-- Whether a parser returns.
abbrev pub returns : {E A : Type 0} → Result E A → Bool
returns (ok a) = true
returns (err e) = false

-- The `try` of COMMIT.
abbrev pub format_validators : Validators
format_validators = record {
  accepts_screen = λ content. returns (parse_binary content);
  accepts_profile = λ content. returns (parse_profile_binary content);
}

-- The attributes that `__init__` sets before its call of `abort`, which sets the others.
abbrev pub with_screens : ℕ → ℕ → List ℕ → ℕ → Receiver
with_screens screen_capacity profile_capacity ids selected = record {
  screen_capacity = screen_capacity;
  profile_capacity = profile_capacity;
  stored_screen = [];
  stored_profile = [];
  runtime_screen_ids = ids;
  selected_screen = selected;
  receiving = false;
  transfer_id = 0;
  expected = 0;
  expected_crc = 0;
  next_offset = 0;
  buffer = [];
  store = store_screen;
}

-- `__init__`
unfoldable pub new_receiver : ℕ → ℕ → Option Bytes → Result ScreenFault Receiver
unfolding abort
new_receiver screen_capacity profile_capacity none =
    ok (abort (with_screens screen_capacity profile_capacity [] 0))
new_receiver screen_capacity profile_capacity (some runtime_screen) =
    elim (parse_binary runtime_screen) [
      | err e ↦ err e
      | ok document ↦ ok (
          abort (
            with_screens screen_capacity profile_capacity (entry_ids document.screens)
              document.boot_screen))
    ]

-- A session: the receiver behind a list of reports, all of which it answers.
abbrev pub run_session : Receiver → List Report → Result ProtocolFault Receiver
run_session c [] = ok c
run_session c (m ∷ ms) = elim (process format_validators c m) [
  | err e ↦ err e
  | ok (next, answer) ↦ run_session next ms
]
