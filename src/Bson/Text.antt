-- ===== src/Bson/Text.antt =====
-- What bson/src/lib.rs uses of the text in the standard library: `std::str::from_utf8`, and
-- `format!("{}", i)` of a `usize`.
pub mod Decimal
use elmo.Common.{
  ℕ, zero, suc, ◌+◌, ◌*◌, ◌/◌, ◌%◌, ltb, leb, ◌==◌, if◌then◌else◌, Bool, true, false, ◌&&◌,
}
use elmo.Common.{Option, none, some, List, [], ◌∷◌}

-- The ranges that the bytes after the first byte of a character lie in.
abbrev continuation : ℕ × ℕ
continuation = (128, 191)

unfoldable pub after_first : ℕ → Option (List (ℕ × ℕ))
after_first x =
    if ltb x 128
    then some []
    else if ltb x 194
    then none
    else if ltb x 224
    then some (continuation ∷ [])
    else if x == 224
    then some ((160, 191) ∷ continuation ∷ [])
    else if x == 237
    then some ((128, 159) ∷ continuation ∷ [])
    else if ltb x 240
    then some (continuation ∷ continuation ∷ [])
    else if x == 240
    then some ((144, 191) ∷ continuation ∷ continuation ∷ [])
    else if ltb x 244
    then some (continuation ∷ continuation ∷ continuation ∷ [])
    else if x == 244
    then some ((128, 143) ∷ continuation ∷ continuation ∷ [])
    else none

-- The bytes end the character of which bytes in the ranges are left, and go on with whole
-- characters.
unfoldable pub ends_utf8 : Option (List (ℕ × ℕ)) → List ℕ → Bool
ends_utf8 none bs = false
ends_utf8 (some []) [] = true
ends_utf8 (some []) (x ∷ bs) = ends_utf8 (after_first x) bs
ends_utf8 (some (r ∷ rs)) [] = false
ends_utf8 (some ((lo, hi) ∷ rs)) (x ∷ bs) = leb lo x && leb x hi && ends_utf8 (some rs) bs

unfoldable pub is_utf8 : List ℕ → Bool
is_utf8 bs = ends_utf8 (some []) bs

-- The digits of the number, before those that are there. A number has at most as many as its
-- value and one.
unfoldable pub digits : ℕ → ℕ → List ℕ → List ℕ
digits zero i ds = ds
digits (suc fuel) i ds =
    let rest = digits fuel (i / 10) ((48 + i % 10) ∷ ds) in
    if i / 10 == 0 then (48 + i % 10) ∷ ds else rest

unfoldable pub decimal : ℕ → List ℕ
decimal i = digits (suc i) i []
