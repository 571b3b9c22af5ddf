-- ===== src/Profile/Tests.antt =====
-- A record with the default actions, and its container.
use kb.Base.{
  ℕ, zero, suc, ◌≡◌, refl, [], ◌∷◌, ◌++◌, arith, length, replicate, Bytes, crc32, is_utf8, ok,
}
use kb.Profile.Record.{record_size, validate_record, is_settings}
use kb.Profile.Container.{parse_profile_binary}
use kb.Profile.Compile.{default_actions, join, compile_set}
use kb.Profile.Framed.{AreRecords, parse-compile_set}

abbrev hall_defaults : ℕ → Bytes
hall_defaults zero = []
hall_defaults (suc n) = 20 ∷ 5 ∷ 5 ∷ 0 ∷ hall_defaults n

unfoldable default_record : Bytes
unfolding default_actions
default_record =
    (65 ∷ replicate 63 0)
    ++ ((0 ∷ 0 ∷ 1 ∷ 0 ∷ 80 ∷ 50 ∷ 0 ∷ replicate 9 128)
        ++ (hall_defaults 85
            ++ (default_actions ++ (0 ∷ 0 ∷ 0 ∷ 2 ∷ 30 ∷ 3 ∷ 0 ∷ 1 ∷ 2 ∷ 3 ∷ 4 ∷ 0 ∷ []))))

default_record-length : length default_record ≡ record_size
unfolding default_record
default_record-length = refl

default_record_lem : validate_record default_record ≡ ok (65 ∷ [])
unfolding default_record validate_record is_settings is_utf8
default_record_lem = refl

two_records : AreRecords (default_record ∷ default_record ∷ []) ((65 ∷ []) ∷ (65 ∷ []) ∷ [])
two_records =
    (default_record-length, default_record_lem, (default_record-length, default_record_lem, tt))

parse-compile_set_example :
    (blob : Bytes) × (compile_set 1 (default_record ∷ default_record ∷ []) ≡ ok blob)
    × (parse_profile_binary blob
        ≡ ok (record {
          profile_count = 2;
          active_profile = 1;
          names = (65 ∷ []) ∷ (65 ∷ []) ∷ [];
          body_crc32 = crc32 (join (default_record ∷ default_record ∷ []));
        }))
parse-compile_set_example =
    parse-compile_set 1 (default_record ∷ default_record ∷ []) ((65 ∷ []) ∷ (65 ∷ []) ∷ [])
      (omega arith) (omega arith) (omega arith) two_records
