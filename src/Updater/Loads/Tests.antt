-- ===== src/Updater/Loads/Tests.antt =====
-- A witness for the extent: two lines out of order, and one that loads nothing.
use kb.Base.{◌+◌, ◌-◌, ◌≤◌, ◌<◌, ◌≡◌, refl, ◌⊎◌, List, [], ◌∷◌, ok}
use kb.Updater.Loads.{LoadLine, collect_ranges, sorted_extent, validate_load_ranges}
use kb.Updater.Loads.Ranges.{cover_count}
use kb.Updater.Loads.Extent.{validate_load_ranges-covers}

abbrev upper_line : LoadLine
upper_line = record { physical = 16; file_size = 8; memory_size = 8 }

abbrev lower_line : LoadLine
lower_line = record { physical = 0; file_size = 16; memory_size = 32 }

abbrev empty_line : LoadLine
empty_line = record { physical = 4; file_size = 0; memory_size = 4 }

abbrev three_lines : List LoadLine
three_lines = upper_line ∷ lower_line ∷ empty_line ∷ []

three_lines-extent : validate_load_ranges three_lines 0 64 ≡ ok 24
unfolding validate_load_ranges collect_ranges sorted_extent
three_lines-extent = refl

validate_load_ranges-covers_example :
    (24 ≤ 64)
    × (cover_count three_lines 20 ≤ 1)
    × ((cover_count three_lines 20 ≡ 0) ⊎ ((0 ≤ 20) × (20 < 0 + 24)))
    × (1 ≤ cover_count three_lines 0)
    × (1 ≤ cover_count three_lines (0 + 24 - 1))
validate_load_ranges-covers_example =
    validate_load_ranges-covers three_lines 0 64 24 20 three_lines-extent
