-- ===== src/Lsm/KeyRef.antt =====
-- lsm/src/lib.rs, `KeyRef`: a key of a page, in one of three forms.
pub mod Compare
pub mod Slices
pub mod Extremes
mod Tests
use elmo.Common.{
  ℕ, zero, suc, ◌+◌, ◌-◌, ◌==◌, ltb, leb, min, compare, Ordering, length, get_elem?, take, drop,
}
use elmo.Common.{Bool, true, false, ◌&&◌, List, [], ◌∷◌, ◌++◌, if◌then◌else◌, Option, none, some}
use elmo.Common.Outcome.{Outcome, ok, err, panic, misc, ◌>>=◌}
use elmo.Lsm.Bcmp.{compare_bytes}

-- `overflowed` has the number of the first page, the page cache is left out.
pub data KeyRef : Type 0 where
  overflowed : List ℕ → ℕ → KeyRef
  prefixed : List ℕ → List ℕ → KeyRef
  slice : List ℕ → KeyRef

pub data KeyForStorage : Type 0 where
  same_file_overflow : List ℕ → ℕ → KeyForStorage
  boxed : List ℕ → KeyForStorage

abbrev pub into_key_for_merge : KeyRef → KeyForStorage
into_key_for_merge (overflowed a page) = same_file_overflow a page
into_key_for_merge (slice a) = boxed a
into_key_for_merge (prefixed front back) = boxed (front ++ back)

abbrev pub for_storage_as_ref : KeyForStorage → List ℕ
for_storage_as_ref (same_file_overflow a page) = a
for_storage_as_ref (boxed a) = a

abbrev pub into_boxed_slice : KeyRef → List ℕ
into_boxed_slice (overflowed a page) = a
into_boxed_slice (slice a) = a
into_boxed_slice (prefixed front back) = front ++ back

abbrev pub len : KeyRef → ℕ
len (overflowed a page) = length a
len (slice a) = length a
len (prefixed front back) = length front + length back

-- `a[i]` and `&a[begin .. end]`.
abbrev pub index : List ℕ → ℕ → Outcome ℕ
index a i = elim (get_elem? a i) [ none ↦ panic | some x ↦ ok x ]

unfoldable pub range : List ℕ → ℕ → ℕ → Outcome (List ℕ)
range a begin end =
    if leb begin end && leb end (length a) then ok (take (end - begin) (drop begin a)) else panic

unfoldable pub u8_at : KeyRef → ℕ → Outcome ℕ
u8_at (overflowed a page) i = if ltb i (length a) then index a i else err misc
u8_at (slice a) i = if ltb i (length a) then index a i else err misc
u8_at (prefixed front back) i =
    if ltb i (length front)
    then index front i
    else (let i' = i - length front in if ltb i' (length back) then index back i' else err misc)

-- `==` on slices.
abbrev pub same_bytes : List ℕ → List ℕ → Bool
same_bytes [] [] = true
same_bytes [] (y ∷ ys) = false
same_bytes (x ∷ xs) [] = false
same_bytes (x ∷ xs) (y ∷ ys) = x == y && same_bytes xs ys

unfoldable pub starts_with : KeyRef → List ℕ → Outcome Bool
starts_with (overflowed a page) k =
    if ltb (length a) (length k)
    then ok false
    else (range a 0 (length k) >>= λ s. ok (same_bytes k s))
starts_with (slice a) k =
    if ltb (length a) (length k)
    then ok false
    else (range a 0 (length k) >>= λ s. ok (same_bytes k s))
starts_with (prefixed front back) k =
    if ltb (length front + length back) (length k)
    then ok false
    else (if leb (length k) (length front)
        then (range front 0 (length k) >>= λ s. ok (same_bytes k s))
        else (do
          k_front ← range k 0 (length front)
          front' ← range front 0 (length front)
          k_back ← range k (length front) (length k)
          back' ← range back 0 (length k - length front)
          ok (same_bytes k_front front' && same_bytes k_back back')))

-- `func` gets a part of the key.
unfoldable pub map_range {ℓ} : {T : Type ℓ} → KeyRef → ℕ → ℕ → (List ℕ → Outcome T) → Outcome T
map_range (slice a) begin end func =
    if leb end begin
    then err misc
    else (if leb end (length a) then (range a begin end >>= func) else err misc)
map_range (overflowed a page) begin end func =
    if leb end begin
    then err misc
    else (if leb end (length a) then (range a begin end >>= func) else err misc)
map_range (prefixed front back) begin end func =
    if leb end begin
    then err misc
    else (if leb end (length front)
        then (range front begin end >>= func)
        else (if leb (length front) begin
            then (if leb (end - length front) (length back)
                then (range back (begin - length front) (end - length front) >>= func)
                else err misc)
            else (do
              a ← range front begin (length front)
              if leb (end - length front) (length back)
                  then (range back 0 (end - length front) >>= λ b. func (a ++ b))
                  else err misc)))

-- `if i < px.len() { px[i] } else { x[i - px.len()] }`
abbrev pub index2 : List ℕ → List ℕ → ℕ → Outcome ℕ
index2 px x i = if ltb i (length px) then index px i else index x (i - length px)

-- The `for` loops of the comparisons from `i` on, where `xval` and `yval` index the keys, and `c`
-- compares their lengths.
unfoldable pub compare_loop :
    (ℕ → Outcome ℕ) → (ℕ → Outcome ℕ) → ℕ → ℕ → Ordering → Outcome Ordering
compare_loop xval yval zero i c = ok c
compare_loop xval yval (suc rounds) i c =
    let rest = compare_loop xval yval rounds (suc i) c in
    (do x ← xval i; y ← yval i; elim (compare x y) [ Ordering.eq ↦ rest | d ↦ ok d ])

abbrev pub compare_px_py : List ℕ → List ℕ → List ℕ → List ℕ → Outcome Ordering
unfolding compare_loop
compare_px_py px x py y =
    let xlen = length px + length x in
    let ylen = length py + length y in
    compare_loop (index2 px x) (index2 py y) (min xlen ylen) 0 (compare xlen ylen)

abbrev pub compare_px_y : List ℕ → List ℕ → List ℕ → Outcome Ordering
unfolding compare_loop
compare_px_y px x y =
    let xlen = length px + length x in
    compare_loop (index2 px x) (index y) (min xlen (length y)) 0 (compare xlen (length y))

abbrev pub compare_x_py : List ℕ → List ℕ → List ℕ → Outcome Ordering
unfolding compare_loop
compare_x_py x py y =
    let ylen = length py + length y in
    compare_loop (index x) (index2 py y) (min (length x) ylen) 0 (compare (length x) ylen)

unfoldable pub compare_with : KeyRef → List ℕ → Outcome Ordering
compare_with (overflowed a page) k = ok (compare_bytes a k)
compare_with (slice a) k = ok (compare_bytes a k)
compare_with (prefixed front back) k = compare_px_y front back k

unfoldable pub min_with : KeyRef → List ℕ → Outcome (List ℕ)
unfolding compare_with
min_with x k = compare_with x k >>= λ c. elim c [ Ordering.gt ↦ ok (into_boxed_slice x) | _ ↦ ok k ]

unfoldable pub max_with : KeyRef → List ℕ → Outcome (List ℕ)
unfolding compare_with
max_with x k = compare_with x k >>= λ c. elim c [ Ordering.lt ↦ ok (into_boxed_slice x) | _ ↦ ok k ]

unfoldable pub cmp : KeyRef → KeyRef → Outcome Ordering
cmp (overflowed x page) (overflowed y page') = ok (compare_bytes x y)
cmp (overflowed x page) (prefixed y_p y) = compare_x_py x y_p y
cmp (overflowed x page) (slice y) = ok (compare_bytes x y)
cmp (prefixed x_p x) (overflowed y page) = compare_px_y x_p x y
cmp (slice x) (overflowed y page) = ok (compare_bytes x y)
cmp (prefixed x_p x) (prefixed y_p y) = compare_px_py x_p x y_p y
cmp (prefixed x_p x) (slice y) = compare_px_y x_p x y
cmp (slice x) (prefixed y_p y) = compare_x_py x y_p y
cmp (slice x) (slice y) = ok (compare_bytes x y)
