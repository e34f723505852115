-- ===== src/Varint.antt =====
-- misc/src/lib.rs, module `varint` and `push_varint`: 64-bit numbers in one to nine bytes.
-- A slice of bytes is a list of numbers below 256; `none` is an index out of bounds.
pub mod Digits
pub mod RoundTrip
pub mod Buffer
mod Tests
use Prim.Native.Nat.{bit_or}
use elmo.Common.{ℕ, zero, suc, ◌+◌, ◌-◌, ◌*◌, ◌/◌, ◌%◌, ◌^◌, ◌<◌, leb, ◌==◌, if◌then◌else◌}
use elmo.Common.{List, [], ◌∷◌, ◌++◌, length, take, drop, get_elem?, Option, none, some, ◌>>=◌}

abbrev pub IsByte : ℕ → Type 0
IsByte b = b < 256

abbrev pub IsU64 : ℕ → Type 0
IsU64 v = v < 2 ^ 64

pub space_needed_for : ℕ → ℕ
space_needed_for v =
    if leb v 240
    then 1
    else (if leb v 2287
        then 2
        else (if leb v 67823
            then 3
            else (if leb v 16777215
                then 4
                else (if leb v 4294967295
                    then 5
                    else (if leb v 1099511627775
                        then 6
                        else (if leb v 281474976710655
                            then 7
                            else (if leb v 72057594037927935 then 8 else 9)))))))

pub first_byte_to_len : ℕ → ℕ
first_byte_to_len a0 =
    if leb a0 240
    then 1
    else (if leb a0 248
        then 2
        else (if a0 == 249
            then 3
            else (if a0 == 250
                then 4
                else (if a0 == 251
                    then 5
                    else (if a0 == 252
                        then 6
                        else (if a0 == 253 then 7 else (if a0 == 254 then 8 else 9)))))))

-- `a << k` on a `u64`.
abbrev pub shl : ℕ → ℕ → ℕ
shl a k = a * 2 ^ k % 2 ^ 64

-- `(v >> k) as u8`.
abbrev pub byte_at : ℕ → ℕ → ℕ
byte_at v k = v / 2 ^ k % 256

-- The branches of `read`, one for each length of the encoding: what is read from `buf[c + 1]` on.
abbrev pub read_2 : List ℕ → ℕ → ℕ → Option ℕ
read_2 buf c a0 = do a1 ← get_elem? buf (c + 1); some ((240 + 256 * (a0 - 241) + a1) % 2 ^ 64)

abbrev pub read_3 : List ℕ → ℕ → Option ℕ
read_3 buf c = do
  a1 ← get_elem? buf (c + 1)
  a2 ← get_elem? buf (c + 2)
  some ((2288 + 256 * a1 + a2) % 2 ^ 64)

abbrev pub read_4 : List ℕ → ℕ → Option ℕ
read_4 buf c = do
  a1 ← get_elem? buf (c + 1)
  a2 ← get_elem? buf (c + 2)
  a3 ← get_elem? buf (c + 3)
  some (bit_or (bit_or (shl a1 16) (shl a2 8)) a3)

abbrev pub read_5 : List ℕ → ℕ → Option ℕ
read_5 buf c = do
  a1 ← get_elem? buf (c + 1)
  a2 ← get_elem? buf (c + 2)
  a3 ← get_elem? buf (c + 3)
  a4 ← get_elem? buf (c + 4)
  some (bit_or (bit_or (bit_or (shl a1 24) (shl a2 16)) (shl a3 8)) a4)

abbrev pub read_6 : List ℕ → ℕ → Option ℕ
read_6 buf c = do
  a1 ← get_elem? buf (c + 1)
  a2 ← get_elem? buf (c + 2)
  a3 ← get_elem? buf (c + 3)
  a4 ← get_elem? buf (c + 4)
  a5 ← get_elem? buf (c + 5)
  some (bit_or (bit_or (bit_or (bit_or (shl a1 32) (shl a2 24)) (shl a3 16)) (shl a4 8)) a5)

abbrev pub read_7 : List ℕ → ℕ → Option ℕ
read_7 buf c = do
  a1 ← get_elem? buf (c + 1)
  a2 ← get_elem? buf (c + 2)
  a3 ← get_elem? buf (c + 3)
  a4 ← get_elem? buf (c + 4)
  a5 ← get_elem? buf (c + 5)
  a6 ← get_elem? buf (c + 6)
  let high = bit_or (bit_or (bit_or (shl a1 40) (shl a2 32)) (shl a3 24)) (shl a4 16)
  some (bit_or (bit_or high (shl a5 8)) a6)

abbrev pub read_8 : List ℕ → ℕ → Option ℕ
read_8 buf c = do
  a1 ← get_elem? buf (c + 1)
  a2 ← get_elem? buf (c + 2)
  a3 ← get_elem? buf (c + 3)
  a4 ← get_elem? buf (c + 4)
  a5 ← get_elem? buf (c + 5)
  a6 ← get_elem? buf (c + 6)
  a7 ← get_elem? buf (c + 7)
  let high = bit_or (bit_or (bit_or (shl a1 48) (shl a2 40)) (shl a3 32)) (shl a4 24)
  some (bit_or (bit_or (bit_or high (shl a5 16)) (shl a6 8)) a7)

abbrev pub read_9 : List ℕ → ℕ → Option ℕ
read_9 buf c = do
  a1 ← get_elem? buf (c + 1)
  a2 ← get_elem? buf (c + 2)
  a3 ← get_elem? buf (c + 3)
  a4 ← get_elem? buf (c + 4)
  a5 ← get_elem? buf (c + 5)
  a6 ← get_elem? buf (c + 6)
  a7 ← get_elem? buf (c + 7)
  a8 ← get_elem? buf (c + 8)
  let high = bit_or (bit_or (bit_or (shl a1 56) (shl a2 48)) (shl a3 40)) (shl a4 32)
  some (bit_or (bit_or (bit_or (bit_or high (shl a5 24)) (shl a6 16)) (shl a7 8)) a8)

-- The result and the new `*cur`.
unfoldable pub read : List ℕ → ℕ → Option (ℕ × ℕ)
read buf c = do
  a0 ← get_elem? buf c
  if leb a0 240
      then some (a0, c + 1)
      else (if leb a0 248
          then (read_2 buf c a0 >>= λ r. some (r, c + 2))
          else (if a0 == 249
              then (read_3 buf c >>= λ r. some (r, c + 3))
              else (if a0 == 250
                  then (read_4 buf c >>= λ r. some (r, c + 4))
                  else (if a0 == 251
                      then (read_5 buf c >>= λ r. some (r, c + 5))
                      else (if a0 == 252
                          then (read_6 buf c >>= λ r. some (r, c + 6))
                          else (if a0 == 253
                              then (read_7 buf c >>= λ r. some (r, c + 7))
                              else (if a0 == 254
                                  then (read_8 buf c >>= λ r. some (r, c + 8))
                                  else (read_9 buf c >>= λ r. some (r, c + 9)))))))))

-- What each branch of `write` stores at `buf[c]`, `buf[c + 1]`, …
abbrev pub bytes_1 : ℕ → List ℕ
bytes_1 v = v % 256 ∷ []

abbrev pub bytes_2 : ℕ → List ℕ
bytes_2 v = ((v - 240) / 256 + 241) % 256 ∷ (v - 240) % 256 % 256 ∷ []

abbrev pub bytes_3 : ℕ → List ℕ
bytes_3 v = 249 ∷ (v - 2288) / 256 % 256 ∷ (v - 2288) % 256 % 256 ∷ []

abbrev pub bytes_4 : ℕ → List ℕ
bytes_4 v = 250 ∷ byte_at v 16 ∷ byte_at v 8 ∷ byte_at v 0 ∷ []

abbrev pub bytes_5 : ℕ → List ℕ
bytes_5 v = 251 ∷ byte_at v 24 ∷ byte_at v 16 ∷ byte_at v 8 ∷ byte_at v 0 ∷ []

abbrev pub bytes_6 : ℕ → List ℕ
bytes_6 v = 252 ∷ byte_at v 32 ∷ byte_at v 24 ∷ byte_at v 16 ∷ byte_at v 8 ∷ byte_at v 0 ∷ []

abbrev pub bytes_7 : ℕ → List ℕ
bytes_7 v =
    253 ∷ byte_at v 40 ∷ byte_at v 32 ∷ byte_at v 24 ∷ byte_at v 16 ∷ byte_at v 8 ∷ byte_at v 0 ∷ []

abbrev pub bytes_8 : ℕ → List ℕ
bytes_8 v =
    254
    ∷ byte_at v 48
    ∷ byte_at v 40
    ∷ byte_at v 32
    ∷ byte_at v 24
    ∷ byte_at v 16
    ∷ byte_at v 8
    ∷ byte_at v 0
    ∷ []

abbrev pub bytes_9 : ℕ → List ℕ
bytes_9 v =
    255
    ∷ byte_at v 56
    ∷ byte_at v 48
    ∷ byte_at v 40
    ∷ byte_at v 32
    ∷ byte_at v 24
    ∷ byte_at v 16
    ∷ byte_at v 8
    ∷ byte_at v 0
    ∷ []

-- What `write` stores.
unfoldable pub bytes_of : ℕ → List ℕ
bytes_of v =
    if leb v 240
    then bytes_1 v
    else (if leb v 2287
        then bytes_2 v
        else (if leb v 67823
            then bytes_3 v
            else (if leb v 16777215
                then bytes_4 v
                else (if leb v 4294967295
                    then bytes_5 v
                    else (if leb v 1099511627775
                        then bytes_6 v
                        else (if leb v 281474976710655
                            then bytes_7 v
                            else (if leb v 72057594037927935 then bytes_8 v else bytes_9 v)))))))

-- `buf[c + i] = bs[i]` for each `i`, in order.
unfoldable pub store : List ℕ → ℕ → List ℕ → Option (List ℕ)
store buf c bs =
    if leb (c + length bs) (length buf)
    then some (take c buf ++ (bs ++ drop (c + length bs) buf))
    else none

-- The new buffer and the new `*cur`.
unfoldable pub write : List ℕ → ℕ → ℕ → Option (List ℕ × ℕ)
unfolding bytes_of store
write buf c v = store buf c (bytes_of v) >>= λ buf'. some (buf', c + length (bytes_of v))

abbrev zeros_9 : List ℕ
zeros_9 = 0 ∷ 0 ∷ 0 ∷ 0 ∷ 0 ∷ 0 ∷ 0 ∷ 0 ∷ 0 ∷ []

-- `push_varint`: a `write` into nine zero bytes, of which the written ones are appended.
unfoldable pub push_varint : List ℕ → ℕ → Option (List ℕ)
push_varint v n = write zeros_9 0 n >>= λ r. some (v ++ take r.1 r.0)
