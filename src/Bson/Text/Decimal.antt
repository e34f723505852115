-- ===== src/Bson/Text/Decimal.antt =====
-- The decimal digits of an index are text without a zero byte.
use elmo.Common.{ℕ, zero, suc, ◌+◌, ◌/◌, ◌%◌, ◌≤◌, ◌==◌, ◌≡◌, refl, ap, ◌∙◌, arith, true}
use elmo.Common.{List, [], ◌∷◌, All, some, Bool-cases, inl, inr}
use elmo.Bson.Text.{digits, decimal, is_utf8, ends_utf8, after_first}
use elmo.Bson.Valid.{has_no_zero, IsName}

abbrev IsDigit : ℕ → Type 0
IsDigit x = (48 ≤ x) × (x ≤ 57)

digits_are_digits : (fuel i : ℕ) (ds : List ℕ) → All IsDigit ds → All IsDigit (digits fuel i ds)
unfolding digits
digits_are_digits zero i ds h = h
digits_are_digits (suc fuel) i ds h =
    let digit : IsDigit (48 + i % 10) = (omega arith, omega arith) in
    let rest = digits_are_digits fuel (i / 10) ((48 + i % 10) ∷ ds) (digit, h) in
    elim (Bool-cases (i / 10 == 0)) [ inl q ↦ rw q (digit, h) | inr q ↦ rw q rest ]

digits_utf8 : (ds : List ℕ) → All IsDigit ds → ends_utf8 (some []) ds ≡ true
unfolding ends_utf8 after_first
digits_utf8 [] h = refl
digits_utf8 (x ∷ ds) ((lo, hi), h) =
    let first : after_first x ≡ some [] = ground arith in
    ap (λ o. ends_utf8 o ds) first ∙ digits_utf8 ds h

digits_no_zero : (ds : List ℕ) → All IsDigit ds → has_no_zero ds ≡ true
unfolding has_no_zero
digits_no_zero [] h = refl
digits_no_zero (x ∷ ds) ((lo, hi), h) = rw (digits_no_zero ds h) (ground arith)

pub decimal-IsName : (i : ℕ) → IsName (decimal i)
unfolding decimal is_utf8
decimal-IsName i =
    let h = digits_are_digits (suc i) i [] tt in
    (digits_utf8 (digits (suc i) i []) h, digits_no_zero (digits (suc i) i []) h)
