-- ===== src/Varint/Buffer.antt =====
-- `write` in a buffer, and `push_varint` at the end of one.
use elmo.Common.{ℕ, ◌+◌, ◌<◌, ◌≤◌, ◌≡◌, sym, ap, arith}
use elmo.Common.{List, ◌++◌, length, take, drop, none, some}
use elmo.Common.{length-append, length-take, take-append, drop-append}
use mathlib.Core.List.{append_assoc}
use elmo.Varint.{IsU64, space_needed_for, bytes_of, write, read, push_varint, zeros_9}
use elmo.Varint.RoundTrip.{read-bytes_of, bytes_of_lem}

-- The buffer that `write` leaves.
abbrev pub written : List ℕ → ℕ → ℕ → List ℕ
written buf c v = take c buf ++ (bytes_of v ++ drop (c + length (bytes_of v)) buf)

write_fits :
    (buf : List ℕ) (c v : ℕ)
    → c + length (bytes_of v) ≤ length buf
    → write buf c v ≡ some (written buf c v, c + length (bytes_of v))
unfolding write
write_fits buf c v h = ground arith

-- Where the bytes of a `u64` fit at `c`, `write` stores them, leaves the rest of the buffer as it
-- was, and `read` at `c` returns the number and the same new position.
pub read-write :
    (buf : List ℕ) (c v : ℕ)
    → IsU64 v
    → c + space_needed_for v ≤ length buf
    → (write buf c v ≡ some (written buf c v, c + space_needed_for v))
      × (read (written buf c v) c ≡ some (v, c + space_needed_for v))
      × (take c (written buf c v) ≡ take c buf)
      × (drop (c + space_needed_for v) (written buf c v) ≡ drop (c + space_needed_for v) buf)
read-write buf c v lt h = (
  rw (← e) (write_fits buf c v (omega (arith, e))),
  reads,
  take-append front _ c (sym at_c),
  rest,
)
  where
    front : List ℕ
    front = take c buf

    e : length (bytes_of v) ≡ space_needed_for v
    e = (bytes_of_lem v lt).0

    at_c : length (take c buf) ≡ c
    at_c = omega (arith, length-take c buf)

    reads : read (written buf c v) c ≡ some (v, c + space_needed_for v)
    reads = rw (← e) (rw at_c at (read-bytes_of front (drop (c + length (bytes_of v)) buf) v lt))

    rest : drop (c + space_needed_for v) (written buf c v) ≡ drop (c + space_needed_for v) buf
    rest =
        rw (← e, ← append_assoc)
          (drop-append (take c buf ++ bytes_of v) _ (c + length (bytes_of v))
            (omega (arith, at_c, length-append (take c buf) (bytes_of v))))

-- Where they do not fit, `write` panics.
pub write_overrun :
    (buf : List ℕ) (c v : ℕ) → IsU64 v → length buf < c + space_needed_for v → write buf c v ≡ none
unfolding write
write_overrun buf c v lt h = ground (arith, bytes_of_lem v lt)

space_needed_for-le : (v : ℕ) → space_needed_for v ≤ 9
unfolding space_needed_for
space_needed_for-le v = ground arith

-- `push_varint` never panics on a `u64`: it appends its bytes.
pub push_varint_lem : (bs : List ℕ) (v : ℕ) → IsU64 v → push_varint bs v ≡ some (bs ++ bytes_of v)
unfolding push_varint
push_varint_lem bs v lt =
    rw (write_fits zeros_9 0 v (omega (arith, bytes_of_lem v lt, space_needed_for-le v)))
      (ap (λ (t : List ℕ). some (bs ++ t)) (take-append (bytes_of v) _ _ (omega arith)))
