-- ===== src/Lsm/Bcmp.antt =====
-- lsm/src/lib.rs, the module `bcmp`: comparing byte strings, which are lists of numbers.
pub mod Order
pub mod Prefix
use elmo.Common.{ℕ, zero, suc, ◌+◌, ◌==◌, min, compare, Ordering, length, get_elem?}
use elmo.Common.{Bool, true, false, ◌&&◌, Option, none, some, List, [], ◌∷◌, if◌then◌else◌}

-- `x.cmp(y)` on slices: the order of a dictionary.
unfoldable pub compare_bytes : List ℕ → List ℕ → Ordering
compare_bytes [] [] = Ordering.eq
compare_bytes [] (y ∷ ys) = Ordering.lt
compare_bytes (x ∷ xs) [] = Ordering.gt
compare_bytes (x ∷ xs) (y ∷ ys) =
    let rest = compare_bytes xs ys in elim (compare x y) [ Ordering.eq ↦ rest | c ↦ c ]

-- `x[i] == y[i]`; `false` where an index is out of bounds, which the loop never asks for.
abbrev pub same_at : List ℕ → List ℕ → ℕ → Bool
same_at x y i = elim (get_elem? x i) [
  | none ↦ false
  | some a ↦ elim (get_elem? y i) [ none ↦ false | some b ↦ a == b ]
]

-- The `while` loop from `i` on, with at most `rounds` rounds until `lim`.
unfoldable pub match_loop : List ℕ → List ℕ → ℕ → ℕ → ℕ
match_loop x y zero i = i
match_loop x y (suc rounds) i =
    let rest = match_loop x y rounds (suc i) in if same_at x y i then rest else i

unfoldable pub prefix_match : List ℕ → List ℕ → ℕ → ℕ
unfolding match_loop
prefix_match x y max = match_loop x y (min (min (length x) (length y)) max) 0

unfoldable pub prefix_match2 : List ℕ → List ℕ → ℕ
unfolding match_loop
prefix_match2 x y = match_loop x y (min (length x) (length y)) 0
