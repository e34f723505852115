-- ===== src/Lsm/Bcmp/Order.antt =====
-- `compare_bytes` is a total order on byte strings.
use mathlib.Core.Path.{subst}
use elmo.Common.{ℕ, ◌≡◌, ◌↔◌, refl, Ordering, arith, List, [], ◌∷◌}
use elmo.Lsm.Bcmp.{compare_bytes}

abbrev pub swap : Ordering → Ordering
swap Ordering.lt = Ordering.gt
swap Ordering.eq = Ordering.eq
swap Ordering.gt = Ordering.lt

pub compare_bytes-swap : (x y : List ℕ) → compare_bytes y x ≡ swap (compare_bytes x y)
unfolding compare_bytes
compare_bytes-swap [] [] = refl
compare_bytes-swap [] (b ∷ y) = refl
compare_bytes-swap (a ∷ x) [] = refl
compare_bytes-swap (a ∷ x) (b ∷ y) = ground (arith, compare_bytes-swap x y)

pub compare_bytes_refl : (x : List ℕ) → compare_bytes x x ≡ Ordering.eq
unfolding compare_bytes
compare_bytes_refl [] = refl
compare_bytes_refl (a ∷ x) = ground (arith, compare_bytes_refl x)

pub compare_bytes-eq : (x y : List ℕ) → compare_bytes x y ≡ Ordering.eq → x ≡ y
unfolding compare_bytes
compare_bytes-eq [] [] h = refl
compare_bytes-eq [] (b ∷ y) h = cc
compare_bytes-eq (a ∷ x) [] h = cc
compare_bytes-eq (a ∷ x) (b ∷ y) h = grind (arith, compare_bytes-eq x y)

-- `compare_bytes` is transitive.
pub compare_bytes_trans :
    (x y z : List ℕ)
    → compare_bytes x y ≡ Ordering.lt
    → compare_bytes y z ≡ Ordering.lt
    → compare_bytes x z ≡ Ordering.lt
unfolding compare_bytes
compare_bytes_trans [] [] [] h k = cc
compare_bytes_trans [] (b ∷ y) [] h k = cc
compare_bytes_trans [] y (c ∷ z) h k = refl
compare_bytes_trans (a ∷ x) [] z h k = cc
compare_bytes_trans (a ∷ x) (b ∷ y) [] h k = cc
compare_bytes_trans (a ∷ x) (b ∷ y) (c ∷ z) h k = ground (arith, compare_bytes_trans x y z)

-- Swapping the arguments of `compare_bytes` swaps its result, and it finds two byte strings equal
-- exactly if they are.
pub compare_bytes_lem :
    (x y : List ℕ)
    → (compare_bytes y x ≡ swap (compare_bytes x y)) × ((compare_bytes x y ≡ Ordering.eq) ↔ (x ≡ y))
compare_bytes_lem x y = (
  compare_bytes-swap x y,
  (
    compare_bytes-eq x y,
    λ e. subst (λ t. compare_bytes x t ≡ Ordering.eq) e (compare_bytes_refl x),
  ),
)
