-- ===== src/Lsm/Sizes.antt =====
-- lsm/src/lib.rs: how many pages a value outside of a leaf takes, where a page is in the file, and how
-- large a level may be. An operation on a `u64` that overflows wraps around.
pub mod Bounds
mod Tests
use elmo.Common.{ℕ, zero, suc, ◌+◌, ◌-◌, ◌*◌, ◌/◌, ◌%◌, ◌^◌, ◌==◌, if◌then◌else◌}
use elmo.Common.Outcome.{Outcome, ok, err, invalid_page_number}

-- `pgsz` is not 0, by which the source would panic.
unfoldable pub pages_needed_for : ℕ → ℕ → ℕ
pages_needed_for len pgsz = len / pgsz + (if len % pgsz == 0 then 0 else 1)

unfoldable pub calc_overflow_pages : ℕ → ℕ → ℕ → ℕ
calc_overflow_pages len header_len pgsz = pages_needed_for ((header_len + len) % 2 ^ 64) pgsz

unfoldable pub page_offset : ℕ → ℕ → Outcome ℕ
page_offset pgsz pgnum =
    if pgnum == 0 then err invalid_page_number else ok ((pgnum - 1) * pgsz % 2 ^ 64)

-- The loop of `get_level_size_in_bytes`.
abbrev pub multiply : ℕ → ℕ → ℕ → ℕ
multiply zero multiplier n = n
multiply (suc rounds) multiplier n = multiply rounds multiplier (n * multiplier % 2 ^ 64)

unfoldable pub get_level_size_in_bytes : ℕ → ℕ → ℕ
get_level_size_in_bytes i multiplier = multiply (i + 1) multiplier 1 * 1024 % 2 ^ 64 * 1024 % 2 ^ 64
