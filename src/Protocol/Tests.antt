-- ===== src/Protocol/Tests.antt =====
-- The properties of protocol.py at concrete inputs, and runs of the code.
use kb.Base.{
  ℕ, ◌≡◌, refl, inl, true, false, List, [], ◌∷◌, ◌++◌, arith, replicate, Bytes, le, crc32, ok,
}
use kb.Protocol.Report.{Report}
use kb.Protocol.Receiver.{
  Validators, Receiver, abort, put_store, on_commit, on_select, dispatch, reply_to, response,
  process,
}
use kb.Protocol.Report.{pack, unpack, fits, fields_of}
use kb.Protocol.Frames.{unpack-pack, pack-unpack}
use kb.Protocol.Transfer.{transfer_reports}
use kb.Protocol.Valid.{IsValid}
use kb.Protocol.Kept.{process-IsValid}
use kb.Protocol.Outcomes.{process-refused, process-stores}
use kb.Protocol.Framing.{IsInRange}
use kb.Protocol.Answers.{HasCapacities, IsAnswered, process-IsAnswered}
use kb.Protocol.Committed.{IsComplete, process-commit}
use kb.Protocol.Wire.{Delivered}
use kb.Protocol.Upload.{upload}
use kb.Protocol.Receiver.{contains}
use kb.Protocol.Formats.{with_screens, new_receiver, run_session}
use kb.Protocol.Sessions.{IsParsed, session-IsParsed}
use kb.Protocol.Reading.{read_back, read_back-stored}
use kb.Screen.Parser.{parse_binary}
use kb.Screen.Tests.{small_blob, small_blob_lem}
use kb.Profile.Container.{parse_profile_binary}
use kb.Base.{some, ◌⊎◌}

abbrev trusting : Validators
trusting = record { accepts_screen = λ xs. true; accepts_profile = λ xs. true }

abbrev fresh : Receiver
fresh = record {
  screen_capacity = 0x140000;
  profile_capacity = 0x38000;
  stored_screen = [];
  stored_profile = [];
  runtime_screen_ids = 3 ∷ 7 ∷ [];
  selected_screen = 3;
  receiving = false;
  transfer_id = 0;
  expected = 0;
  expected_crc = 0;
  next_offset = 0;
  buffer = [];
  store = 0;
}

abbrev select_seven : Report
select_seven = record {
  kind = 1;
  opcode = 0x15;
  sequence = 9;
  transfer_id = 0;
  offset = 7;
  total_length = 0;
  payload = [];
  flags = 0;
  status = 0;
}

abbrev select_eight : Report
select_eight = record select_seven { offset = 8 }

abbrev full_screen : Bytes
full_screen = replicate 64 5

-- The receiver behind the two WRITE frames of a screen of 64 bytes.
abbrev filled : Receiver
filled = record fresh {
  receiving = true;
  transfer_id = 1;
  expected = 64;
  expected_crc = crc32 full_screen;
  next_offset = 64;
  buffer = full_screen;
}

abbrev commit_report : Report
commit_report = record {
  kind = 1;
  opcode = 0x12;
  sequence = 3;
  transfer_id = 1;
  offset = 64;
  total_length = 64;
  payload = le 4 (crc32 full_screen);
  flags = 0;
  status = 0;
}

fresh-IsValid : IsValid trusting fresh
unfolding abort
fresh-IsValid = record {
  counted = refl;
  bounded = omega arith;
  admitted = λ e. cc;
  idle = λ e. refl;
  screen = inl refl;
  profile = inl refl;
  selected = inl refl;
}

answer : ℕ → Report → Report
answer s m = record {
  kind = 2;
  opcode = m.opcode;
  sequence = m.sequence;
  transfer_id = m.transfer_id;
  offset = 0;
  total_length = 0;
  payload = [];
  flags = 0;
  status = s;
}

select_runs :
    process trusting fresh select_seven
    ≡ ok (record fresh { selected_screen = 7 }, answer 0 select_seven)
unfolding process reply_to dispatch on_select response answer
select_runs = refl

select_refused : process trusting fresh select_eight ≡ ok (fresh, answer 5 select_eight)
unfolding process reply_to dispatch on_select response answer
select_refused = refl

commit_runs :
    process trusting filled commit_report
    ≡ ok (record fresh { stored_screen = full_screen }, answer 0 commit_report)
unfolding process reply_to dispatch on_commit response answer crc32
commit_runs = refl

abbrev select_frame : Bytes
select_frame =
    0x5c
    ∷ 1
    ∷ 1
    ∷ 0x15
    ∷ 0
    ∷ 0
    ∷ 9
    ∷ 0
    ∷ 0
    ∷ 0
    ∷ 0
    ∷ 0
    ∷ 7
    ∷ 0
    ∷ 0
    ∷ 0
    ∷ 0
    ∷ 0
    ∷ 0
    ∷ 0
    ∷ 213
    ∷ 178
    ∷ 182
    ∷ 106
    ∷ (replicate 36 0 ++ (13 ∷ 34 ∷ 218 ∷ 123 ∷ []))

pack_runs : pack select_seven ≡ ok select_frame
unfolding pack fits crc32
pack_runs = refl

unpack_runs : unpack select_frame ≡ ok (record select_seven { payload = replicate 36 0 })
unfolding unpack fields_of crc32
unpack_runs = refl

unpack-pack_example : unpack select_frame ≡ ok (record select_seven { payload = replicate 36 0 })
unpack-pack_example = unpack-pack select_seven select_frame pack_runs

pack-unpack_example : pack (record select_seven { payload = replicate 36 0 }) ≡ ok select_frame
pack-unpack_example =
    pack-unpack select_frame (record select_seven { payload = replicate 36 0 }) (omega arith)
      unpack_runs

process-IsValid_example : IsValid trusting (record fresh { selected_screen = 7 })
unfolding answer
process-IsValid_example =
    process-IsValid trusting fresh (record fresh { selected_screen = 7 }) select_seven
      (answer 0 select_seven) fresh-IsValid select_runs

process-refused_example : (fresh ≡ fresh) × ((answer 5 select_eight).payload ≡ [])
process-refused_example =
    process-refused trusting fresh fresh select_eight (answer 5 select_eight) select_refused
      (unfold answer in omega arith)

select_eight-IsInRange : IsInRange select_eight
select_eight-IsInRange = record {
  kind = omega arith;
  opcode = omega arith;
  flags = omega arith;
  status = omega arith;
  sequence = omega arith;
  transfer_id = omega arith;
  offset = omega arith;
  total_length = omega arith;
}

fresh-HasCapacities : HasCapacities fresh
fresh-HasCapacities = (omega arith, omega arith)

process-IsAnswered_example :
    IsAnswered trusting fresh select_eight fresh-IsValid fresh-HasCapacities select_eight-IsInRange
process-IsAnswered_example =
    process-IsAnswered trusting fresh select_eight fresh-IsValid fresh-HasCapacities
      select_eight-IsInRange

process-stores_example : ([] ≡ fresh.stored_screen) × ([] ≡ fresh.stored_profile)
process-stores_example =
    process-stores trusting fresh (record fresh { selected_screen = 7 }) select_seven
      (answer 0 select_seven) select_runs (omega arith) (omega arith)

process-commit_example :
    IsComplete trusting filled
    × (record fresh { stored_screen = full_screen } ≡ abort (put_store filled 0 full_screen))
process-commit_example =
    process-commit trusting filled (record fresh { stored_screen = full_screen }) commit_report
      (answer 0 commit_report) commit_runs refl (unfold answer in refl)

upload_example :
    (plan : List Report) × (transfer_reports full_screen 1 0 ≡ ok plan)
    × Delivered trusting fresh plan (abort (put_store fresh 0 full_screen)) (replicate 4 0)
upload_example =
    upload trusting fresh full_screen 1 0 refl
      (refl, omega arith, omega arith, omega arith, omega arith) refl refl

-- A session of a receiver that starts with the small screen and selects its only screen.
abbrev started : Receiver
started = abort (with_screens 0x140000 0x38000 (7 ∷ []) 7)

started_lem : new_receiver 0x140000 0x38000 (some small_blob) ≡ ok started
unfolding new_receiver
started_lem = rw (small_blob_lem, new_receiver)

started_run : run_session started (select_seven ∷ select_eight ∷ []) ≡ ok started
unfolding process reply_to dispatch response on_select abort
started_run = refl

session-IsParsed_example :
    IsParsed parse_binary []
    × IsParsed parse_profile_binary []
    × ((contains started.runtime_screen_ids started.selected_screen ≡ true)
        ⊎ ((started.runtime_screen_ids ≡ []) × (started.selected_screen ≡ 0)))
unfolding abort
session-IsParsed_example =
    session-IsParsed 0x140000 0x38000 (some small_blob) started started
      (select_seven ∷ select_eight ∷ []) started_lem started_run

abbrev holding : Receiver
holding = record fresh { stored_screen = full_screen }

read_back-stored_example : read_back trusting 0 2 0 holding ≡ full_screen
read_back-stored_example = read_back-stored trusting holding 0 2 refl (omega arith) (omega arith)
