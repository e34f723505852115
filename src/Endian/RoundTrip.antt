-- ===== src/Endian/RoundTrip.antt =====
-- A number that is written is read back.
use mathlib.Core.List.{append_assoc}
use elmo.Common.{
  ℕ, zero, suc, ◌+◌, ◌*◌, ◌/◌, ◌^◌, ◌<◌, ◌≡◌, refl, sym, ap, ◌∙◌, arith, leb, length, take, true,
}
use elmo.Common.{some, List, [], ◌∷◌, ◌++◌, length-append, take-append, drop-append}
use elmo.Endian.{bytes_le, number_le, swap_bytes, extract, get_u32, get_u16, slurp_u32_le}
use elmo.Endian.{
  u32_to_bytes_be, u32_to_bytes_le, u16_to_bytes_be, u64_to_bytes_le, u64_to_bytes_be,
}
use elmo.Endian.{u64_from_bytes_le, u64_from_bytes_be}

-- 256 ^ w
abbrev pub limit : ℕ → ℕ
limit zero = 1
limit (suc w) = 256 * limit w

pub number_le-bytes_le : (w v : ℕ) → v < limit w → number_le (bytes_le w v) ≡ v
unfolding number_le bytes_le
number_le-bytes_le zero v h = omega arith
number_le-bytes_le (suc w) v h = rw (number_le-bytes_le w (v / 256) (omega arith)) (omega arith)

pub length-bytes_le : (w v : ℕ) → length (bytes_le w v) ≡ w
unfolding bytes_le
length-bytes_le zero v = refl
length-bytes_le (suc w) v = ap suc (length-bytes_le w (v / 256))

swap_bytes-append : (xs ys : List ℕ) → swap_bytes (xs ++ ys) ≡ swap_bytes ys ++ swap_bytes xs
swap_bytes-append [] ys = sym (append_nil (swap_bytes ys))
  where
    append_nil : (zs : List ℕ) → zs ++ [] ≡ zs
    append_nil [] = refl
    append_nil (z ∷ zs) = ap (λ l. z ∷ l) (append_nil zs)
swap_bytes-append (x ∷ xs) ys =
    ap (λ l. l ++ (x ∷ [])) (swap_bytes-append xs ys)
    ∙ append_assoc (swap_bytes ys) (swap_bytes xs) (x ∷ [])

swap_bytes_twice : (xs : List ℕ) → swap_bytes (swap_bytes xs) ≡ xs
swap_bytes_twice [] = refl
swap_bytes_twice (x ∷ xs) =
    swap_bytes-append (swap_bytes xs) (x ∷ []) ∙ ap (λ l. x ∷ l) (swap_bytes_twice xs)

length-swap_bytes : (xs : List ℕ) → length (swap_bytes xs) ≡ length xs
length-swap_bytes [] = refl
length-swap_bytes (x ∷ xs) =
    omega (arith, length-append (swap_bytes xs) (x ∷ []), length-swap_bytes xs)

pub extract-append :
    (n : ℕ) (pre bs rest : List ℕ)
    → length bs ≡ n
    → extract n (pre ++ (bs ++ rest)) (length pre) ≡ some bs
extract-append n pre bs rest e =
    let room : leb (length pre + n) (length (pre ++ (bs ++ rest))) ≡ true =
      ground (arith, length-append pre (bs ++ rest), length-append bs rest, e) in
    rw room (
      ap some (
        ap (take n) (drop-append pre (bs ++ rest) (length pre) refl)
        ∙ take-append bs rest n (sym e)))

-- What `u16_to_bytes_be`, `u32_to_bytes_be` and `u32_to_bytes_le` make of a number of that width
-- is read back by `get_u16`, `get_u32` and `slurp_u32_le`, wherever it stands, and these move
-- past exactly it.
pub get_lem :
    (pre rest : List ℕ) (a b : ℕ)
    → a < 2 ^ 16
    → b < 2 ^ 32
    → (get_u16 (pre ++ (u16_to_bytes_be a ++ rest)) (length pre) ≡ some (a, length pre + 2))
      × (get_u32 (pre ++ (u32_to_bytes_be b ++ rest)) (length pre) ≡ some (b, length pre + 4))
      × (slurp_u32_le (pre ++ (u32_to_bytes_le b ++ rest)) (length pre) ≡ some (b, length pre + 4))
unfolding get_u16 get_u32 slurp_u32_le
get_lem pre rest a b ha hb = (
  rw
      (extract-append 2 pre (u16_to_bytes_be a) rest
        (length-swap_bytes (bytes_le 2 a) ∙ length-bytes_le 2 a))
      (ap (λ (n : ℕ). some (n, length pre + 2))
        (ap number_le (swap_bytes_twice (bytes_le 2 a)) ∙ number_le-bytes_le 2 a (omega arith))),
  rw
      (extract-append 4 pre (u32_to_bytes_be b) rest
        (length-swap_bytes (bytes_le 4 b) ∙ length-bytes_le 4 b))
      (ap (λ (n : ℕ). some (n, length pre + 4))
        (ap number_le (swap_bytes_twice (bytes_le 4 b)) ∙ number_le-bytes_le 4 b (omega arith))),
  rw (extract-append 4 pre (u32_to_bytes_le b) rest (length-bytes_le 4 b))
      (ap (λ (n : ℕ). some (n, length pre + 4)) (number_le-bytes_le 4 b (omega arith))),
)

-- The conversions of a `u64` to bytes, in either order, are undone by those from bytes.
pub u64_lem :
    (v : ℕ)
    → v < 2 ^ 64
    → (u64_from_bytes_le (u64_to_bytes_le v) ≡ v) × (u64_from_bytes_be (u64_to_bytes_be v) ≡ v)
u64_lem v h = (
  number_le-bytes_le 8 v (omega arith),
  ap number_le (swap_bytes_twice (bytes_le 8 v)) ∙ number_le-bytes_le 8 v (omega arith),
)
