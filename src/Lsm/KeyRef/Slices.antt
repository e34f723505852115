-- ===== src/Lsm/KeyRef/Slices.antt =====
-- Parts of a key are the parts of the bytes that it stands for.
use elmo.Common.{
  ℕ, zero, suc, ◌+◌, ◌-◌, ◌≤◌, ◌<◌, ◌≡◌, refl, sym, ap, ◌∙◌, ltb, leb, length, take, drop, arith,
  length-drop,
}
use elmo.Common.{
  true, false, ◌&&◌, List, [], ◌∷◌, ◌++◌, if◌then◌else◌, length-append, Bool-cases, inl, inr,
}
use elmo.Common.Outcome.{Outcome, ok, ◌>>=◌}
use elmo.Lsm.KeyRef.{
  KeyRef, overflowed, prefixed, slice, into_boxed_slice, len, u8_at, starts_with, map_range, range,
  same_bytes,
}
use elmo.Lsm.KeyRef.Compare.{index2-eq}

-- The bytes of a list up to `end`, without the first `begin`, in both parts of a key.
take-append_before : (xs ys : List ℕ) (n : ℕ) → n ≤ length xs → take n (xs ++ ys) ≡ take n xs
take-append_before xs ys zero h = refl
take-append_before [] ys (suc n) h = absurd (omega arith)
take-append_before (x ∷ xs) ys (suc n) h =
    ap (λ l. x ∷ l) (take-append_before xs ys n (omega arith))

take-append_after :
    (xs ys : List ℕ) (n : ℕ) → length xs ≤ n → take n (xs ++ ys) ≡ xs ++ take (n - length xs) ys
take-append_after [] ys n h = ap (λ k. take k ys) (omega arith)
take-append_after (x ∷ xs) ys zero h = absurd (omega arith)
take-append_after (x ∷ xs) ys (suc n) h =
    ap (λ l. x ∷ l)
      (take-append_after xs ys n (omega arith) ∙ ap (λ k. xs ++ take k ys) (omega arith))

drop-append_before : (xs ys : List ℕ) (n : ℕ) → n ≤ length xs → drop n (xs ++ ys) ≡ drop n xs ++ ys
drop-append_before xs ys zero h = refl
drop-append_before [] ys (suc n) h = absurd (omega arith)
drop-append_before (x ∷ xs) ys (suc n) h = drop-append_before xs ys n (omega arith)

drop-append_after :
    (xs ys : List ℕ) (n : ℕ) → length xs ≤ n → drop n (xs ++ ys) ≡ drop (n - length xs) ys
drop-append_after [] ys n h = ap (λ k. drop k ys) (omega arith)
drop-append_after (x ∷ xs) ys zero h = absurd (omega arith)
drop-append_after (x ∷ xs) ys (suc n) h =
    drop-append_after xs ys n (omega arith) ∙ ap (λ k. drop k ys) (omega arith)

take_all : (xs : List ℕ) (n : ℕ) → length xs ≤ n → take n xs ≡ xs
take_all [] zero h = refl
take_all [] (suc n) h = refl
take_all (x ∷ xs) zero h = absurd (omega arith)
take_all (x ∷ xs) (suc n) h = ap (λ l. x ∷ l) (take_all xs n (omega arith))

range_ok :
    (a : List ℕ) (begin end : ℕ)
    → begin ≤ end
    → end ≤ length a
    → range a begin end ≡ ok (take (end - begin) (drop begin a))
unfolding range
range_ok a begin end h k = ground arith

range_start : (a : List ℕ) (n : ℕ) → n ≤ length a → range a 0 n ≡ ok (take n a)
range_start a n h = range_ok a 0 n (omega arith) h ∙ ap (λ m. ok (take m a)) (omega arith)

-- `range` of the bytes of a key with a prefix, in the three cases of `map_range`.
module _ (front back : List ℕ) (begin end : ℕ) (h : begin < end)
    (k : end ≤ length front + length back) where
  whole : range (front ++ back) begin end ≡ ok (take (end - begin) (drop begin (front ++ back)))
  whole = range_ok (front ++ back) begin end (omega arith) (omega (arith, length-append front back))

  range-front : end ≤ length front → range (front ++ back) begin end ≡ range front begin end
  range-front f =
      let d = drop-append_before front back begin (omega arith) in
      let t =
        take-append_before (drop begin front) back (end - begin)
          (omega (arith, length-drop begin front)) in
      let g : range front begin end ≡ ok (take (end - begin) (drop begin front)) =
        range_ok front begin end (omega arith) f in
      whole ∙ ap ok (rw d t) ∙ sym g

  range-back :
      length front ≤ begin
      → range (front ++ back) begin end ≡ range back (begin - length front) (end - length front)
  range-back f =
      let d = drop-append_after front back begin f in
      let g : range back (begin - length front) (end - length front)
          ≡ ok (
              take (end - length front - (begin - length front))
                (drop (begin - length front) back)) =
        range_ok back (begin - length front) (end - length front) (omega arith) (omega arith) in
      let n : end - length front - (begin - length front) ≡ end - begin = omega arith in
      whole
      ∙ ap ok (ap (take (end - begin)) d)
      ∙ sym (g ∙ ap (λ m. ok (take m (drop (begin - length front) back))) n)

  range_both :
      begin < length front
      → length front < end
      → range (front ++ back) begin end ≡ (
          range front begin (length front) >>= λ a.
          range back 0 (end - length front) >>= λ b. ok (a ++ b))
  range_both f e =
      let d = drop-append_before front back begin (omega arith) in
      let l = length-drop begin front in
      let t = take-append_after (drop begin front) back (end - begin) (omega (arith, l)) in
      let n : end - begin - length (drop begin front) ≡ end - length front = omega (arith, l) in
      let a : range front begin (length front) ≡ ok (drop begin front) =
        range_ok front begin (length front) (omega arith) (omega arith)
        ∙ ap ok (take_all (drop begin front) (length front - begin) (omega (arith, l))) in
      let b : range back 0 (end - length front) ≡ ok (take (end - length front) back) =
        range_start back (end - length front) (omega arith) in
      whole
      ∙ ap ok (ap (take (end - begin)) d ∙ t ∙ ap (λ m. drop begin front ++ take m back) n)
      ∙ rw (a, b) refl

-- `map_range` of a key with a prefix, case by case.
map_range-prefixed :
    {T : Type 0} (front back : List ℕ) (begin end : ℕ) (func : List ℕ → Outcome T)
    → map_range (prefixed front back) begin end func
      ≡ map_range (slice (front ++ back)) begin end func
unfolding map_range
map_range-prefixed front back begin end func = elim (Bool-cases (leb end begin)) [
  | inl e ↦ rw e refl
  | inr e ↦
      let h : begin < end = ground arith in
      let l = length-append front back in
      elim (Bool-cases (leb end (length front))) [
        | inl f ↦
            let g : leb end (length (front ++ back)) ≡ true = ground (arith, l) in
            rw (e, f, g, range-front front back begin end h (ground arith) (ground arith)) refl
        | inr f ↦ elim (Bool-cases (leb (length front) begin)) [
          | inl b ↦ elim (Bool-cases (leb (end - length front) (length back))) [
            | inl r ↦
                let g : leb end (length (front ++ back)) ≡ true = ground (arith, l) in
                rw (e, f, b, r, g, range-back front back begin end h (ground arith) (ground arith))
                  refl
            | inr r ↦
                let g : leb end (length (front ++ back)) ≡ false = ground (arith, l) in
                rw (e, f, b, r, g) refl
          ]
          | inr b ↦
              let front_ok = range_ok front begin (length front) (ground arith) (omega arith) in
              elim (Bool-cases (leb (end - length front) (length back))) [
                | inl r ↦
                    let g : leb end (length (front ++ back)) ≡ true = ground (arith, l) in
                    let both =
                      range_both front back begin end h (ground arith) (ground arith)
                        (ground arith) in
                    let back_ok = range_start back (end - length front) (ground arith) in
                    let both' = rw (front_ok, back_ok) at both in
                    rw (e, f, b, r, g, front_ok, back_ok, both') refl
                | inr r ↦
                    let g : leb end (length (front ++ back)) ≡ false = ground (arith, l) in
                    rw (e, f, b, g, front_ok, r) refl
              ]
        ]
      ]
]

map_range_lem :
    {T : Type 0} (x : KeyRef) (begin end : ℕ) (func : List ℕ → Outcome T)
    → map_range x begin end func ≡ map_range (slice (into_boxed_slice x)) begin end func
unfolding map_range
map_range_lem (overflowed a page) begin end func = refl
map_range_lem (slice a) begin end func = refl
map_range_lem (prefixed front back) begin end func = map_range-prefixed front back begin end func

-- The length and the bytes of a key are those of the bytes that it stands for.
u8_at_lem : (x : KeyRef) (i : ℕ) → u8_at x i ≡ u8_at (slice (into_boxed_slice x)) i
unfolding u8_at
u8_at_lem (overflowed a page) i = refl
u8_at_lem (slice a) i = refl
u8_at_lem (prefixed front back) i =
    let l = length-append front back in let e = index2-eq front back i in ground (arith, l, e)

pub len_lem : (x : KeyRef) → len x ≡ length (into_boxed_slice x)
len_lem (overflowed a page) = refl
len_lem (slice a) = refl
len_lem (prefixed front back) = sym (length-append front back)

same_bytes-append :
    (k front z : List ℕ)
    → length front ≤ length k
    → same_bytes k (front ++ z)
      ≡ (same_bytes (take (length front) k) front && same_bytes (drop (length front) k) z)
same_bytes-append k [] z h = refl
same_bytes-append [] (x ∷ front) z h = absurd (omega arith)
same_bytes-append (a ∷ k) (x ∷ front) z h = ground (arith, same_bytes-append k front z)

starts_with_one :
    (a k : List ℕ)
    → (if ltb (length a) (length k)
        then ok false
        else (range a 0 (length k) >>= λ s. ok (same_bytes k s)))
      ≡ ok (leb (length k) (length a) && same_bytes k (take (length k) a))
starts_with_one a k = elim (Bool-cases (ltb (length a) (length k))) [
  | inl e ↦ ground arith
  | inr e ↦
      let g : leb (length k) (length a) ≡ true = ground arith in
      rw (e, g, range_start a (length k) (ground arith)) refl
]

pub starts_with_lem :
    (x : KeyRef) (k : List ℕ)
    → starts_with x k
      ≡ ok (leb (length k) (len x) && same_bytes k (take (length k) (into_boxed_slice x)))
unfolding starts_with
starts_with_lem (overflowed a page) k = starts_with_one a k
starts_with_lem (slice a) k = starts_with_one a k
starts_with_lem (prefixed front back) k =
    elim (Bool-cases (ltb (length front + length back) (length k))) [
      | inl e ↦ ground arith
      | inr e ↦
          let g : leb (length k) (length front + length back) ≡ true = ground arith in
          elim (Bool-cases (leb (length k) (length front))) [
            | inl f ↦
                let s = range_start front (length k) (ground arith) in
                let t = take-append_before front back (length k) (ground arith) in
                rw (e, g, f, s, t) refl
            | inr f ↦
                let a = range_start k (length front) (ground arith) in
                let b = range_start front (length front) (omega arith) in
                let b' = take_all front (length front) (omega arith) in
                let c = range_ok k (length front) (length k) (ground arith) (omega arith) in
                let c' =
                  take_all (drop (length front) k) (length k - length front)
                    (omega (arith, length-drop (length front) k)) in
                let d = range_start back (length k - length front) (ground arith) in
                let t = take-append_after front back (length k) (ground arith) in
                let s =
                  same_bytes-append k front (take (length k - length front) back) (ground arith) in
                rw (e, g, f, a, b, b', c, c', d, t, s) refl
          ]
    ]

-- A key answers as the byte string that it stands for, whatever its form: its length, the byte at
-- an index, and what a function makes of a range are the same, errors included, and
-- `starts_with` compares its first bytes. No index or range is out of bounds.
pub parts_lem :
    {T : Type 0} (x : KeyRef) (i begin end : ℕ) (func : List ℕ → Outcome T) (k : List ℕ)
    → (len x ≡ length (into_boxed_slice x))
      × (u8_at x i ≡ u8_at (slice (into_boxed_slice x)) i)
      × (map_range x begin end func ≡ map_range (slice (into_boxed_slice x)) begin end func)
      × (starts_with x k
          ≡ ok (leb (length k) (len x) && same_bytes k (take (length k) (into_boxed_slice x))))
parts_lem x i begin end func k =
    (len_lem x, u8_at_lem x i, map_range_lem x begin end func, starts_with_lem x k)
