-- ===== src/Lsm/KeyRef/Tests.antt =====
-- Runs of the comparisons of keys, and the theorems at concrete inputs.
use elmo.Common.{ℕ, ◌≡◌, refl, Ordering, List, [], ◌∷◌, ◌&&◌, leb, length, take}
use elmo.Common.Outcome.{ok}
use elmo.Lsm.Bcmp.{compare_bytes}
use elmo.Lsm.KeyRef.{
  KeyRef, overflowed, prefixed, slice, into_boxed_slice, cmp, len, u8_at, map_range, starts_with,
  same_bytes, min_with, max_with,
}
use elmo.Lsm.KeyRef.Compare.{cmp_lem}
use elmo.Lsm.KeyRef.Slices.{parts_lem}
use elmo.Lsm.KeyRef.Extremes.{IsGreater, IsLess, min_with_lem}

abbrev key : KeyRef
key = prefixed (1 ∷ 2 ∷ []) (3 ∷ [])

abbrev one : List ℕ
one = 1 ∷ []

abbrev two : List ℕ
two = 1 ∷ 2 ∷ []

cmp-key : cmp key (slice (1 ∷ 2 ∷ 4 ∷ [])) ≡ ok Ordering.lt
unfolding cmp elmo.Lsm.KeyRef.compare_px_y
cmp-key = refl

map_range-key : map_range key 1 3 ok ≡ ok (2 ∷ 3 ∷ [])
unfolding map_range elmo.Lsm.KeyRef.range
map_range-key = refl

-- The smaller one is `key`.
min_with-key : min_with key (9 ∷ []) ≡ ok (9 ∷ [])
unfolding min_with elmo.Lsm.KeyRef.compare_px_y
min_with-key = refl

cmp_example :
    cmp key (overflowed (1 ∷ 2 ∷ 4 ∷ []) 77)
    ≡ ok (compare_bytes (into_boxed_slice key) (into_boxed_slice (overflowed (1 ∷ 2 ∷ 4 ∷ []) 77)))
cmp_example = cmp_lem key (overflowed (1 ∷ 2 ∷ 4 ∷ []) 77)

parts_example :
    (len key ≡ length (into_boxed_slice key))
    × (u8_at key 2 ≡ u8_at (slice (into_boxed_slice key)) 2)
    × (map_range key 1 3 ok ≡ map_range (slice (into_boxed_slice key)) 1 3 ok)
    × (starts_with key (1 ∷ 2 ∷ 3 ∷ [])
        ≡ ok (leb 3 (len key) && same_bytes (1 ∷ 2 ∷ 3 ∷ []) (take 3 (into_boxed_slice key))))
parts_example = parts_lem key 2 1 3 ok (1 ∷ 2 ∷ 3 ∷ [])

min_with_example :
    ((r : List ℕ) × (min_with key (9 ∷ []) ≡ ok r) × IsGreater (into_boxed_slice key) (9 ∷ []) r)
    × ((r : List ℕ) × (max_with key (9 ∷ []) ≡ ok r) × IsLess (into_boxed_slice key) (9 ∷ []) r)
min_with_example = min_with_lem key (9 ∷ [])
