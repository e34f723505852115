-- ===== src/Bson/Valid.antt =====
-- The values that bson/src/lib.rs can write and read back: strings are text, the numbers fit their
-- types, a length fits the four bytes that it is written to, and no code has a scope.
use elmo.Common.{ℕ, ◌+◌, ◌^◌, ◌<◌, ◌≡◌, ◌==◌, Bool, true, not, ◌&&◌, length}
use elmo.Common.{List, [], ◌∷◌}
use elmo.Bson.{
  Value, b_double, b_string, b_int64, b_int32, b_undefined, b_object_id, b_null, b_regex, b_js_code,
  b_js_code_with_scope, b_binary, b_min_key, b_max_key, b_date_time, b_time_stamp, b_boolean,
  b_array, b_document, Array, no_items, item, Document, no_pairs, pair,
}
use elmo.Bson.Text.{is_utf8}

unfoldable pub has_no_zero : List ℕ → Bool
has_no_zero [] = true
has_no_zero (x ∷ xs) = not (x == 0) && has_no_zero xs

abbrev pub IsText : List ℕ → Type 0
IsText s = (is_utf8 s ≡ true) × (length s + 1 < 2 ^ 32)

abbrev pub IsName : List ℕ → Type 0
IsName s = (is_utf8 s ≡ true) × (has_no_zero s ≡ true)

unfoldable mutual
  pub IsValid : Value → Type 0
  IsValid (b_double f) = f < 2 ^ 64
  IsValid (b_string s) = IsText s
  IsValid (b_int64 n) = n < 2 ^ 64
  IsValid (b_int32 n) = n < 2 ^ 32
  IsValid b_undefined = Unit
  IsValid (b_object_id a) = length a ≡ 12
  IsValid b_null = Unit
  IsValid (b_regex expr opt) = IsName expr × IsName opt
  IsValid (b_js_code s) = IsText s
  IsValid (b_js_code_with_scope s scope) = ⊥
  IsValid (b_binary subtype ba) = length ba < 2 ^ 32
  IsValid b_min_key = Unit
  IsValid b_max_key = Unit
  IsValid (b_date_time n) = n < 2 ^ 64
  IsValid (b_time_stamp n) = n < 2 ^ 64
  IsValid (b_boolean b) = Unit
  IsValid (b_array ba) = IsValidArray ba
  IsValid (b_document bd) = IsValidDocument bd

  pub IsValidArray : Array → Type 0
  IsValidArray no_items = Unit
  IsValidArray (item v items) = IsValid v × IsValidArray items

  pub IsValidDocument : Document → Type 0
  IsValidDocument no_pairs = Unit
  IsValidDocument (pair k v pairs) = IsName k × (IsValid v × IsValidDocument pairs)
