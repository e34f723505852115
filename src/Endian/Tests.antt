-- ===== src/Endian/Tests.antt =====
-- Runs of the conversions, and the theorems at concrete inputs.
use elmo.Common.{◌≡◌, refl, [], ◌∷◌}
use elmo.Endian.{u32_to_bytes_be}
use elmo.Endian.{bytes_le}

to_bytes_300 : u32_to_bytes_be 300 ≡ 0 ∷ 0 ∷ 1 ∷ 44 ∷ []
unfolding bytes_le
to_bytes_300 = refl
