-- ===== src/Varint/Digits.antt =====
-- A 64-bit number from its bytes: shifted bytes joined by `|` give back the number.
use Prim.Native.Nat.{bit_or}
use native.Mathlib.Nat.{
  div-add-mod, mod-eq_of_lt, pow-suc, mul_comm, div-div-eq-div-mul, div-mul-le_self,
}
use native.Mathlib.Numerals.{towards_suc}
use elmo.Common.{ℕ, zero, suc, ◌+◌, ◌*◌, ◌/◌, ◌%◌, ◌^◌, ◌<◌, ◌≡◌, sym, ap, ◌∙◌, arith}
use elmo.Common.Bits.{bit_or_disjoint}
use elmo.Varint.{shl, byte_at}

pow_pos : (s : ℕ) → 0 < 2 ^ s
pow_pos zero = omega arith
pow_pos (suc s) = omega (arith, pow-suc 2 s, pow_pos s)

pow_eight : (s : ℕ) → 2 ^ (s + 8) ≡ 256 * 2 ^ s
pow_eight s = simp towards_suc (omega arith)

split_byte : (x m : ℕ) → x * m ≡ x / 256 * (256 * m) + x % 256 * m
split_byte x m = omega (arith, ap (λ (t : ℕ). t * m) (div-add-mod x 256))

byte_lt : (x m : ℕ) → 0 < m → x % 256 * m < 256 * m
byte_lt x m h = grind arith

-- One more byte: `h` holds the bits of `x * 2 ^ s` from `s + 8` up.
pub bit_or_byte :
    (h x s : ℕ)
    → h ≡ x / 256 * 2 ^ (s + 8)
    → x * 2 ^ s < 2 ^ 64
    → bit_or h (shl (x % 256) s) ≡ x * 2 ^ s
bit_or_byte h x s e lt =
    rw (no_wrap, e)
      (bit_or_disjoint (s + 8) (x / 256) (x % 256 * 2 ^ s)
          (rw (pow_eight s) (byte_lt x (2 ^ s) (pow_pos s)))
        ∙ rw (pow_eight s) (sym (split_byte x (2 ^ s))))
  where
    no_wrap : shl (x % 256) s ≡ x % 256 * 2 ^ s
    no_wrap = mod-eq_of_lt (omega (arith, split_byte x (2 ^ s)))

-- The same at the digits of a number.
next_byte :
    (h v s : ℕ)
    → h ≡ v / 2 ^ (s + 8) * 2 ^ (s + 8)
    → v < 2 ^ 64
    → bit_or h (shl (byte_at v s) s) ≡ v / 2 ^ s * 2 ^ s
next_byte h v s e lt =
    bit_or_byte h (v / 2 ^ s) s
      (e
        ∙ ap (λ (t : ℕ). t * 2 ^ (s + 8))
            (rw (pow_eight s, mul_comm 256 (2 ^ s)) (sym (div-div-eq-div-mul v (2 ^ s) 256))))
      (omega (arith, div-mul-le_self v (2 ^ s)))

last_byte : (h v : ℕ) → h ≡ v / 2 ^ 8 * 2 ^ 8 → bit_or h (byte_at v 0) ≡ v
last_byte h v e = rw e (bit_or_disjoint 8 (v / 2 ^ 8) (byte_at v 0) (omega arith) ∙ omega arith)

-- The bytes below the first that `read` joins for a number of `k + 1` bytes.
abbrev pub below_2 : ℕ → ℕ → ℕ
below_2 h v = bit_or (bit_or h (shl (byte_at v 8) 8)) (byte_at v 0)

abbrev pub below_3 : ℕ → ℕ → ℕ
below_3 h v = below_2 (bit_or h (shl (byte_at v 16) 16)) v

abbrev pub below_4 : ℕ → ℕ → ℕ
below_4 h v = below_3 (bit_or h (shl (byte_at v 24) 24)) v

abbrev pub below_5 : ℕ → ℕ → ℕ
below_5 h v = below_4 (bit_or h (shl (byte_at v 32) 32)) v

abbrev pub below_6 : ℕ → ℕ → ℕ
below_6 h v = below_5 (bit_or h (shl (byte_at v 40) 40)) v

abbrev pub below_7 : ℕ → ℕ → ℕ
below_7 h v = below_6 (bit_or h (shl (byte_at v 48) 48)) v

below_2-eq : (h v : ℕ) → v < 2 ^ 64 → h ≡ v / 2 ^ 16 * 2 ^ 16 → below_2 h v ≡ v
below_2-eq h v lt e = last_byte _ v (next_byte h v 8 e lt)

below_3-eq : (h v : ℕ) → v < 2 ^ 64 → h ≡ v / 2 ^ 24 * 2 ^ 24 → below_3 h v ≡ v
below_3-eq h v lt e = below_2-eq _ v lt (next_byte h v 16 e lt)

below_4-eq : (h v : ℕ) → v < 2 ^ 64 → h ≡ v / 2 ^ 32 * 2 ^ 32 → below_4 h v ≡ v
below_4-eq h v lt e = below_3-eq _ v lt (next_byte h v 24 e lt)

below_5-eq : (h v : ℕ) → v < 2 ^ 64 → h ≡ v / 2 ^ 40 * 2 ^ 40 → below_5 h v ≡ v
below_5-eq h v lt e = below_4-eq _ v lt (next_byte h v 32 e lt)

below_6-eq : (h v : ℕ) → v < 2 ^ 64 → h ≡ v / 2 ^ 48 * 2 ^ 48 → below_6 h v ≡ v
below_6-eq h v lt e = below_5-eq _ v lt (next_byte h v 40 e lt)

below_7-eq : (h v : ℕ) → v < 2 ^ 64 → h ≡ v / 2 ^ 56 * 2 ^ 56 → below_7 h v ≡ v
below_7-eq h v lt e = below_6-eq _ v lt (next_byte h v 48 e lt)

-- What `read` joins for the numbers of three to eight bytes is the number.
pub join_3 : (v : ℕ) → v < 2 ^ 24 → below_2 (shl (byte_at v 16) 16) v ≡ v
join_3 v lt = below_2-eq _ v (omega arith) (omega arith)

pub join_4 : (v : ℕ) → v < 2 ^ 32 → below_3 (shl (byte_at v 24) 24) v ≡ v
join_4 v lt = below_3-eq _ v (omega arith) (omega arith)

pub join_5 : (v : ℕ) → v < 2 ^ 40 → below_4 (shl (byte_at v 32) 32) v ≡ v
join_5 v lt = below_4-eq _ v (omega arith) (omega arith)

pub join_6 : (v : ℕ) → v < 2 ^ 48 → below_5 (shl (byte_at v 40) 40) v ≡ v
join_6 v lt = below_5-eq _ v (omega arith) (omega arith)

pub join_7 : (v : ℕ) → v < 2 ^ 56 → below_6 (shl (byte_at v 48) 48) v ≡ v
join_7 v lt = below_6-eq _ v (omega arith) (omega arith)

pub join_8 : (v : ℕ) → v < 2 ^ 64 → below_7 (shl (byte_at v 56) 56) v ≡ v
join_8 v lt = below_7-eq _ v lt (omega arith)
