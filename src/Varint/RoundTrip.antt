-- ===== src/Varint/RoundTrip.antt =====
-- `read` undoes `write`, and what `write` and `space_needed_for` say of lengths.
use native.Mathlib.Nat.{suc-add}
use elmo.Common.{
  ℕ, ◌+◌, ◌<◌, ◌≤◌, ◌≡◌, refl, ap, arith, some, List, [], ◌∷◌, ◌++◌, length, get_elem?, All,
  Bool-cases, leb, true, false, inl, inr,
}
use elmo.Varint.{IsByte, IsU64, bytes_of, read, space_needed_for, first_byte_to_len}
use elmo.Varint.{bytes_1, bytes_2, bytes_3, bytes_4, bytes_5, bytes_6, bytes_7, bytes_8, bytes_9}
use elmo.Varint.Digits.{join_3, join_4, join_5, join_6, join_7, join_8}

get_first {ℓ} :
    {A : Type ℓ} (pre : List A) (x : A) (ys : List A)
    → get_elem? (pre ++ (x ∷ ys)) (length pre) ≡ some x
get_first [] x ys = refl
get_first (y ∷ pre) x ys = get_first pre x ys

get_shift {ℓ} :
    {A : Type ℓ} (pre ys : List A) (i : ℕ) → get_elem? (pre ++ ys) (length pre + i) ≡ get_elem? ys i
get_shift [] ys i = ap (get_elem? ys) (omega arith)
get_shift (y ∷ pre) ys i = rw (suc-add (length pre) i) (get_shift pre ys i)

leb-true : (a b : ℕ) → leb a b ≡ true → a ≤ b
leb-true a b h = ground arith

leb-false : (a b : ℕ) → leb a b ≡ false → b < a
leb-false a b h = ground arith

-- A property of the stored bytes holds if it does in each branch of `write`.
bytes_of_cases {ℓ} :
    (P : List ℕ → Type ℓ) (v : ℕ)
    → (v ≤ 240 → P (bytes_1 v))
    → (240 < v → v ≤ 2287 → P (bytes_2 v))
    → (2287 < v → v ≤ 67823 → P (bytes_3 v))
    → (67823 < v → v ≤ 16777215 → P (bytes_4 v))
    → (16777215 < v → v ≤ 4294967295 → P (bytes_5 v))
    → (4294967295 < v → v ≤ 1099511627775 → P (bytes_6 v))
    → (1099511627775 < v → v ≤ 281474976710655 → P (bytes_7 v))
    → (281474976710655 < v → v ≤ 72057594037927935 → P (bytes_8 v))
    → (72057594037927935 < v → P (bytes_9 v))
    → P (bytes_of v)
unfolding bytes_of
bytes_of_cases P v p1 p2 p3 p4 p5 p6 p7 p8 p9 = elim (Bool-cases (leb v 240)) [
  | inl e ↦ rw e (p1 (leb-true _ _ e))
  | inr e1 ↦ rw e1 (elim (Bool-cases (leb v 2287)) [
    | inl e ↦ rw e (p2 (leb-false _ _ e1) (leb-true _ _ e))
    | inr e2 ↦ rw e2 (elim (Bool-cases (leb v 67823)) [
      | inl e ↦ rw e (p3 (leb-false _ _ e2) (leb-true _ _ e))
      | inr e3 ↦ rw e3 (elim (Bool-cases (leb v 16777215)) [
        | inl e ↦ rw e (p4 (leb-false _ _ e3) (leb-true _ _ e))
        | inr e4 ↦ rw e4 (elim (Bool-cases (leb v 4294967295)) [
          | inl e ↦ rw e (p5 (leb-false _ _ e4) (leb-true _ _ e))
          | inr e5 ↦ rw e5 (elim (Bool-cases (leb v 1099511627775)) [
            | inl e ↦ rw e (p6 (leb-false _ _ e5) (leb-true _ _ e))
            | inr e6 ↦ rw e6 (elim (Bool-cases (leb v 281474976710655)) [
              | inl e ↦ rw e (p7 (leb-false _ _ e6) (leb-true _ _ e))
              | inr e7 ↦ rw e7 (elim (Bool-cases (leb v 72057594037927935)) [
                | inl e ↦ rw e (p8 (leb-false _ _ e7) (leb-true _ _ e))
                | inr e8 ↦ rw e8 (p9 (leb-false _ _ e8))
              ])
            ])
          ])
        ])
      ])
    ])
  ])
]

module _ (pre rest : List ℕ) (v : ℕ) where
  -- The goal of the round trip, for a list of stored bytes.
  abbrev ReadsBack : List ℕ → Type 0
  ReadsBack bs = read (pre ++ (bs ++ rest)) (length pre) ≡ some (v, length pre + length bs)

  reads_1 : v ≤ 240 → ReadsBack (bytes_1 v)
  unfolding read
  reads_1 h = simp get_first (ground arith)

  reads_2 : 240 < v → v ≤ 2287 → ReadsBack (bytes_2 v)
  unfolding read
  reads_2 h k = simp (get_first, get_shift) (ground arith)

  reads_3 : 2287 < v → v ≤ 67823 → ReadsBack (bytes_3 v)
  unfolding read
  reads_3 h k = simp (get_first, get_shift) (ground arith)

  reads_4 : 67823 < v → v ≤ 16777215 → ReadsBack (bytes_4 v)
  unfolding read
  reads_4 h k =
      simp (get_first, get_shift)
        (ap (λ (t : ℕ). some (t, length pre + 4)) (join_3 v (omega arith)))

  reads_5 : 16777215 < v → v ≤ 4294967295 → ReadsBack (bytes_5 v)
  unfolding read
  reads_5 h k =
      simp (get_first, get_shift)
        (ap (λ (t : ℕ). some (t, length pre + 5)) (join_4 v (omega arith)))

  reads_6 : 4294967295 < v → v ≤ 1099511627775 → ReadsBack (bytes_6 v)
  unfolding read
  reads_6 h k =
      simp (get_first, get_shift)
        (ap (λ (t : ℕ). some (t, length pre + 6)) (join_5 v (omega arith)))

  reads_7 : 1099511627775 < v → v ≤ 281474976710655 → ReadsBack (bytes_7 v)
  unfolding read
  reads_7 h k =
      simp (get_first, get_shift)
        (ap (λ (t : ℕ). some (t, length pre + 7)) (join_6 v (omega arith)))

  reads_8 : 281474976710655 < v → v ≤ 72057594037927935 → ReadsBack (bytes_8 v)
  unfolding read
  reads_8 h k =
      simp (get_first, get_shift)
        (ap (λ (t : ℕ). some (t, length pre + 8)) (join_7 v (omega arith)))

  reads_9 : 72057594037927935 < v → IsU64 v → ReadsBack (bytes_9 v)
  unfolding read
  reads_9 h k =
      simp (get_first, get_shift)
        (ap (λ (t : ℕ). some (t, length pre + 9)) (join_8 v (omega arith)))

-- `read` at the place where the bytes of a `u64` stand returns it, and moves past exactly them.
pub read-bytes_of :
    (pre rest : List ℕ) (v : ℕ)
    → IsU64 v
    → read (pre ++ (bytes_of v ++ rest)) (length pre) ≡ some (v, length pre + length (bytes_of v))
read-bytes_of pre rest v lt =
    bytes_of_cases (ReadsBack pre rest v) v (reads_1 pre rest v) (reads_2 pre rest v)
      (reads_3 pre rest v) (reads_4 pre rest v) (reads_5 pre rest v) (reads_6 pre rest v)
      (reads_7 pre rest v) (reads_8 pre rest v) (λ h. reads_9 pre rest v h lt)

-- What `first_byte_to_len` says of a stored number.
abbrev pub first_len : List ℕ → ℕ
first_len [] = 0
first_len (x ∷ xs) = first_byte_to_len x

abbrev Shape : ℕ → List ℕ → Type 0
Shape v bs = (length bs ≡ space_needed_for v) × (first_len bs ≡ space_needed_for v) × All IsByte bs

-- On a `u64`, `space_needed_for` is the number of bytes that `write` stores, `first_byte_to_len` reads that
-- number off the first of them, and all of them are bytes.
pub bytes_of_lem :
    (v : ℕ)
    → IsU64 v
    → (length (bytes_of v) ≡ space_needed_for v)
      × (first_len (bytes_of v) ≡ space_needed_for v)
      × All IsByte (bytes_of v)
unfolding space_needed_for first_byte_to_len
bytes_of_lem v lt =
    bytes_of_cases (Shape v) v (λ h. ground arith) (λ h k. ground arith) (λ h k. ground arith)
      (λ h k. ground arith) (λ h k. ground arith) (λ h k. ground arith) (λ h k. ground arith)
      (λ h k. ground arith) (λ h. ground arith)
