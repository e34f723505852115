-- ===== src/Endian.antt =====
-- misc/src/lib.rs, `endian` for unsigned numbers, and the readers that stand on it. A number of
-- `w` bytes is one below 256 ^ w; the signed conversions and those of `f64` are left out.
pub mod RoundTrip
mod Tests
use elmo.Common.{
  ℕ, zero, suc, ◌+◌, ◌*◌, ◌/◌, ◌%◌, leb, length, take, drop, if◌then◌else◌, get_elem?,
}
use elmo.Common.{Option, none, some, ◌>>=◌, List, [], ◌∷◌, ◌++◌}

-- The bytes of a number in memory, the lowest first: `transmute` of `to_le`.
unfoldable pub bytes_le : ℕ → ℕ → List ℕ
bytes_le zero v = []
bytes_le (suc w) v = v % 256 ∷ bytes_le w (v / 256)

unfoldable pub number_le : List ℕ → ℕ
number_le [] = 0
number_le (x ∷ xs) = x + 256 * number_le xs

-- `swap_bytes`, which `to_be` and `from_be` do.
abbrev pub swap_bytes : List ℕ → List ℕ
swap_bytes [] = []
swap_bytes (x ∷ xs) = swap_bytes xs ++ (x ∷ [])

abbrev pub u64_to_bytes_le : ℕ → List ℕ
u64_to_bytes_le i = bytes_le 8 i

abbrev pub u64_to_bytes_be : ℕ → List ℕ
u64_to_bytes_be i = swap_bytes (bytes_le 8 i)

abbrev pub u32_to_bytes_le : ℕ → List ℕ
u32_to_bytes_le i = bytes_le 4 i

abbrev pub u32_to_bytes_be : ℕ → List ℕ
u32_to_bytes_be i = swap_bytes (bytes_le 4 i)

abbrev pub u16_to_bytes_le : ℕ → List ℕ
u16_to_bytes_le i = bytes_le 2 i

abbrev pub u16_to_bytes_be : ℕ → List ℕ
u16_to_bytes_be i = swap_bytes (bytes_le 2 i)

abbrev pub u64_from_bytes_le : List ℕ → ℕ
u64_from_bytes_le a = number_le a

abbrev pub u64_from_bytes_be : List ℕ → ℕ
u64_from_bytes_be a = number_le (swap_bytes a)

abbrev pub u32_from_bytes_le : List ℕ → ℕ
u32_from_bytes_le a = number_le a

abbrev pub u32_from_bytes_be : List ℕ → ℕ
u32_from_bytes_be a = number_le (swap_bytes a)

abbrev pub u16_from_bytes_le : List ℕ → ℕ
u16_from_bytes_le a = number_le a

abbrev pub u16_from_bytes_be : List ℕ → ℕ
u16_from_bytes_be a = number_le (swap_bytes a)

-- `bytes::extract_n(&buf[at .. at + n])`
abbrev pub extract : ℕ → List ℕ → ℕ → Option (List ℕ)
extract n buf at = if leb (at + n) (length buf) then some (take n (drop at buf)) else none

unfoldable pub get_byte : List ℕ → ℕ → Option (ℕ × ℕ)
get_byte buf cur = get_elem? buf cur >>= λ r. some (r, cur + 1)

unfoldable pub get_u32 : List ℕ → ℕ → Option (ℕ × ℕ)
get_u32 buf cur = extract 4 buf cur >>= λ a. some (u32_from_bytes_be a, cur + 4)

unfoldable pub get_u16 : List ℕ → ℕ → Option (ℕ × ℕ)
get_u16 buf cur = extract 2 buf cur >>= λ a. some (u16_from_bytes_be a, cur + 2)

-- `bufndx::slurp_u32_le`
unfoldable pub slurp_u32_le : List ℕ → ℕ → Option (ℕ × ℕ)
slurp_u32_le ba i = extract 4 ba i >>= λ a. some (u32_from_bytes_le a, i + 4)
