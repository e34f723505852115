-- ===== src/Lsm/Sizes/Tests.antt =====
-- Sizes at concrete inputs.
use elmo.Common.{◌≡◌, refl, arith, ◌+◌}
use elmo.Common.Outcome.{ok, err, invalid_page_number}
use elmo.Lsm.Sizes.{calc_overflow_pages, page_offset, get_level_size_in_bytes}
use elmo.Lsm.Sizes.Bounds.{HoldsExactly, calc_overflow_pages_lem}

level_1 : get_level_size_in_bytes 1 4 ≡ 16777216
unfolding get_level_size_in_bytes
level_1 = refl

page_0 : page_offset 4096 0 ≡ err invalid_page_number
unfolding page_offset
page_0 = refl

page_3 : page_offset 4096 3 ≡ ok 8192
unfolding page_offset
page_3 = refl

calc_overflow_pages_example : HoldsExactly (calc_overflow_pages 9000 5 4096) 4096 (5 + 9000)
calc_overflow_pages_example = calc_overflow_pages_lem 9000 5 4096 (omega arith) (omega arith)
