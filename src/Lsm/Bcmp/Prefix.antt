-- ===== src/Lsm/Bcmp/Prefix.antt =====
-- What `prefix_match` finds.
use elmo.Common.{
  ℕ, zero, suc, ◌≤◌, ◌≡◌, refl, ◌==◌, arith, List, [], ◌∷◌, take, drop, min, length, get_elem?,
}
use elmo.Common.{false, some, ap, Bool-cases, inl, inr}
use elmo.Lsm.Bcmp.{match_loop, prefix_match, prefix_match2, same_at}

match_loop-cons :
    (a b : ℕ) (x y : List ℕ) (rounds i : ℕ)
    → match_loop (a ∷ x) (b ∷ y) rounds (suc i) ≡ suc (match_loop x y rounds i)
unfolding match_loop
match_loop-cons a b x y zero i = refl
match_loop-cons a b x y (suc rounds) i = elim (Bool-cases (same_at x y i)) [
  | inl e ↦ rw e (match_loop-cons a b x y rounds (suc i))
  | inr e ↦ rw e refl
]

-- `n` is the length of the longest prefix, of at most `lim` bytes, that both have.
pub record IsLongest (x y : List ℕ) (lim n : ℕ) : Type 0 where
  pub bound : n ≤ lim
  pub common : take n x ≡ take n y
  pub longest : (m : ℕ) → m ≤ lim → take m x ≡ take m y → m ≤ n

IsLongest-cons :
    (a b : ℕ) (x y : List ℕ) (lim n : ℕ)
    → a ≡ b
    → IsLongest x y lim n
    → IsLongest (a ∷ x) (b ∷ y) (suc lim) (suc n)
IsLongest-cons a b x y lim n e l = record {
  bound = omega (arith, l.bound);
  common = rw (e, l.common) refl;
  longest = longer;
}
  where
    longer : (m : ℕ) → m ≤ suc lim → take m (a ∷ x) ≡ take m (b ∷ y) → m ≤ suc n
    longer zero h k = omega arith
    longer (suc m) h k = omega (arith, l.longest m (omega arith) (ap (drop 1) k))

differ :
    {r : ℕ} (a b : ℕ) (x y : List ℕ)
    → (a == b) ≡ false
    → (m : ℕ) → m ≤ suc r
    → take m (a ∷ x) ≡ take m (b ∷ y)
    → m ≤ 0
differ a b x y e zero h k = omega arith
differ a b x y e (suc m) h k =
    let heads : some a ≡ some b = ap (λ l. get_elem? l 0) k in ground arith

match_loop-IsLongest :
    (x y : List ℕ) (rounds : ℕ)
    → rounds ≤ length x
    → rounds ≤ length y
    → IsLongest x y rounds (match_loop x y rounds 0)
unfolding match_loop
match_loop-IsLongest x y zero hx hy = record {
  bound = omega arith;
  common = refl;
  longest = λ m h k. h;
}
match_loop-IsLongest [] y (suc r) hx hy = absurd (omega arith)
match_loop-IsLongest (a ∷ x) [] (suc r) hx hy = absurd (omega arith)
match_loop-IsLongest (a ∷ x) (b ∷ y) (suc r) hx hy = elim (Bool-cases (a == b)) [
  | inl e ↦
      rw (e, match_loop-cons a b x y r 0)
        (IsLongest-cons a b x y r (match_loop x y r 0) (ground arith)
          (match_loop-IsLongest x y r (omega arith) (omega arith)))
  | inr e ↦ rw e record { bound = omega arith; common = refl; longest = differ a b x y e }
]

-- `prefix_match` and `prefix_match2` never index out of bounds, and return the length of the
-- longest prefix that the two byte strings have in common, for `prefix_match` of at most `max` bytes.
pub prefix_match_lem :
    (x y : List ℕ) (max : ℕ)
    → IsLongest x y (min (min (length x) (length y)) max) (prefix_match x y max)
      × IsLongest x y (min (length x) (length y)) (prefix_match2 x y)
unfolding prefix_match prefix_match2
prefix_match_lem x y max = (
  match_loop-IsLongest x y (min (min (length x) (length y)) max) (omega arith) (omega arith),
  match_loop-IsLongest x y (min (length x) (length y)) (omega arith) (omega arith),
)
