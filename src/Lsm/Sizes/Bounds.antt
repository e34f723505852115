-- ===== src/Lsm/Sizes/Bounds.antt =====
-- What the sizes of `calc_overflow_pages` are.
use mathlib.Core.Path.{subst}
use native.Mathlib.Nat.{mod-eq_of_lt, mod-lt, div-add-mod, mul-suc}
use elmo.Common.{
  ℕ, suc, ◌+◌, ◌*◌, ◌/◌, ◌%◌, ◌^◌, ◌≤◌, ◌<◌, ◌≡◌, sym, ◌==◌, if◌then◌else◌, arith, Bool-cases, inl,
  inr,
}
use elmo.Lsm.Sizes.{pages_needed_for, calc_overflow_pages}

-- `n` pages of `pgsz` bytes are enough for `len` bytes, and one less is not.
abbrev pub HoldsExactly : ℕ → ℕ → ℕ → Type 0
HoldsExactly n pgsz len = (len ≤ pgsz * n) × (pgsz * n < len + pgsz)

round_up-HoldsExactly :
    (len pgsz : ℕ)
    → 1 ≤ pgsz
    → HoldsExactly (len / pgsz + (if len % pgsz == 0 then 0 else 1)) pgsz len
round_up-HoldsExactly len pgsz h = elim (Bool-cases (len % pgsz == 0)) [
  | inl e ↦
      let d = div-add-mod len pgsz in
      let z : len / pgsz + 0 ≡ len / pgsz = omega arith in
      rw (e, z) (ground (arith, d, e), ground (arith, d, e, h))
  | inr e ↦
      let d = div-add-mod len pgsz in
      let m = mod-lt len {m = pgsz} (omega (arith, h)) in
      let s = mul-suc pgsz (len / pgsz) in
      let z : len / pgsz + 1 ≡ suc (len / pgsz) = omega arith in
      rw (e, z, s) (ground (arith, d, m), ground (arith, d, e))
]

-- Where pages have a size and the length of the header and the value does not overflow, an
-- overflowed value gets as many pages as the header and its bytes need, and none more.
pub calc_overflow_pages_lem :
    (len header_len pgsz : ℕ)
    → 1 ≤ pgsz
    → header_len + len < 2 ^ 64
    → HoldsExactly (calc_overflow_pages len header_len pgsz) pgsz (header_len + len)
unfolding calc_overflow_pages pages_needed_for
calc_overflow_pages_lem len header_len pgsz h w =
    subst (λ x. HoldsExactly (pages_needed_for x pgsz) pgsz (header_len + len))
      (sym (mod-eq_of_lt w)) (round_up-HoldsExactly (header_len + len) pgsz h)
