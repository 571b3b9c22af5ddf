-- ===== src/Storage/Tests.antt =====
-- The properties of storage.py at concrete inputs, and runs of the code.
use kb.Base.{◌≡◌, refl, none, some, List, [], ◌∷◌, arith, length, Bytes, crc32, ok, err}
use kb.Storage.Header.{
  value_error, index_error, header_size, writing_state, header_pack, header_unpack, make_header,
  parse_header,
}
use kb.Storage.Nor.{program}
use kb.Storage.Slots.{header, payload, active, commit, slot, write_slot}
use kb.Storage.RoundTrip.{parse_header-make_header}
use kb.Storage.Atomic.{IsCommitted, commit-IsCommitted}
use kb.Storage.Cleared.{IsCleared, program-IsCleared}
use kb.Storage.History.{Request, fresh_flash, run_commits, run_commits-fresh}

abbrev screen_a : Bytes
screen_a = 75 ∷ 66 ∷ 83 ∷ []

abbrev screen_b : Bytes
screen_b = 1 ∷ 2 ∷ 3 ∷ 4 ∷ []

abbrev story : List Request
story =
    record { content = screen_a; fail_after = none }
    ∷ record { content = screen_b; fail_after = some header }
    ∷ record { content = []; fail_after = none }
    ∷ record { content = screen_b; fail_after = some payload }
    ∷ []

run_story : active 72 (run_commits 72 story (fresh_flash 72)) ≡ some screen_a
unfolding active commit parse_header make_header slot write_slot header_pack header_unpack crc32
    program run_commits fresh_flash
run_story = refl

program_stops_half_way :
    program 1 (2 ∷ 5 ∷ 0 ∷ []) (255 ∷ 3 ∷ 4 ∷ 7 ∷ []) ≡ (err value_error, 255 ∷ 2 ∷ 4 ∷ 7 ∷ [])
unfolding program
program_stops_half_way = refl

program_out_of_range : program 1 (2 ∷ 5 ∷ []) (255 ∷ 255 ∷ []) ≡ (err index_error, 255 ∷ 2 ∷ [])
unfolding program
program_out_of_range = refl

parse_header-make_header_example :
    (head : Bytes) × (make_header writing_state 7 screen_a ≡ ok head)
    × (length head ≡ header_size)
    × (parse_header head ≡ none)
parse_header-make_header_example =
    parse_header-make_header writing_state 7 screen_a (omega arith) (omega arith) (omega arith)

commit-IsCommitted_example :
    IsCommitted 72 screen_a
      (some payload)
      (fresh_flash 72)
      (commit 72 screen_a (some payload) (fresh_flash 72))
unfolding fresh_flash
commit-IsCommitted_example =
    commit-IsCommitted 72 screen_a (some payload) (fresh_flash 72)
      (record { two_slots = refl; small = omega arith }) (omega arith) (omega arith) (omega arith)

program-IsCleared_example :
    IsCleared (255 ∷ 3 ∷ 4 ∷ []) (program 1 (2 ∷ 5 ∷ []) (255 ∷ 3 ∷ 4 ∷ [])).1
program-IsCleared_example = program-IsCleared 1 (2 ∷ 5 ∷ []) (255 ∷ 3 ∷ 4 ∷ [])

run_commits-fresh_example : active 72 (run_commits 72 story (fresh_flash 72)) ≡ some screen_a
run_commits-fresh_example = run_commits-fresh 72 (omega arith) (omega arith) story (omega arith)
