-- ===== src/Bson/Decode.antt =====
-- bson/src/lib.rs: `from_bson` and what it reads values with, on a cursor in a byte slice; and the
-- readers of misc/src/lib.rs, `bufndx`, that these call. What has been read when an error is
-- returned or the code panics is not kept.
pub mod Reads
pub mod Loops
pub mod RoundTrip
pub mod Moves
pub mod Values
pub mod Total
use elmo.Common.{ℕ, zero, suc, ◌+◌, ◌-◌, ◌==◌, Bool, not, if◌then◌else◌, Option, none, some}
use elmo.Common.{List, [], ◌∷◌, length, get_elem?, drop}
use elmo.Endian.{number_le, extract, u32_from_bytes_le}
use elmo.Bson.{
  Value, b_double, b_string, b_int64, b_int32, b_undefined, b_object_id, b_null, b_regex, b_js_code,
  b_js_code_with_scope, b_binary, b_min_key, b_max_key, b_date_time, b_time_stamp, b_boolean,
  b_array, b_document, Array, no_items, item, Document, no_pairs, pair,
}
use elmo.Bson.Text.{is_utf8}

-- What a reader ends with: a value and the new cursor, a `Utf8Error`, a panic, or the end of the
-- fuel that bounds the loops.
pub data Slurped {ℓ} (A : Type ℓ) : Type ℓ where
  slurped : A → ℕ → Slurped A
  utf8_error : Slurped A
  panicked : Slurped A
  out_of_fuel : Slurped A

infixl 5 ◌>>=◌
abbrev pub ◌>>=◌ {ℓ κ} : {A : Type ℓ} {B : Type κ} → Slurped A → (A → ℕ → Slurped B) → Slurped B
slurped a i >>= f = f a i
utf8_error >>= f = utf8_error
panicked >>= f = panicked
out_of_fuel >>= f = out_of_fuel

-- The index or the slice, which panics out of bounds, and the cursor after it.
unfoldable pub index : List ℕ → ℕ → Slurped ℕ
index ba i = elim (get_elem? ba i) [ some x ↦ slurped x (i + 1) | none ↦ panicked ]

unfoldable pub slice : List ℕ → ℕ → ℕ → Slurped (List ℕ)
slice ba i n = elim (extract n ba i) [ some a ↦ slurped a (i + n) | none ↦ panicked ]

abbrev pub slurp_8 : List ℕ → ℕ → Slurped (List ℕ)
slurp_8 ba i = slice ba i 8

abbrev pub slurp_4 : List ℕ → ℕ → Slurped (List ℕ)
slurp_4 ba i = slice ba i 4

abbrev pub slurp_u32_le : List ℕ → ℕ → Slurped ℕ
slurp_u32_le ba i = slurp_4 ba i >>= λ a i. slurped (u32_from_bytes_le a) i

abbrev pub slurp_i32_le : List ℕ → ℕ → Slurped ℕ
slurp_i32_le ba i = slurp_4 ba i >>= λ a i. slurped (number_le a) i

abbrev pub slurp_i64_le : List ℕ → ℕ → Slurped ℕ
slurp_i64_le ba i = slurp_8 ba i >>= λ a i. slurped (number_le a) i

abbrev pub slurp_f64_le : List ℕ → ℕ → Slurped ℕ
slurp_f64_le ba i = slurp_8 ba i >>= λ a i. slurped (number_le a) i

-- `try!(std::str::from_utf8(s))`, at a cursor.
abbrev pub from_utf8 : List ℕ → ℕ → Slurped (List ℕ)
from_utf8 s i = if is_utf8 s then slurped s i else utf8_error

-- The number of bytes before the first zero byte, if there is one.
unfoldable pub cstring_len : List ℕ → Option ℕ
cstring_len [] = none
cstring_len (zero ∷ bs) = some 0
cstring_len (suc x ∷ bs) = elim (cstring_len bs) [ some len ↦ some (suc len) | none ↦ none ]

unfoldable pub slurp_cstring : List ℕ → ℕ → Slurped (List ℕ)
slurp_cstring ba i = elim (cstring_len (drop i ba)) [
  | some len ↦ slice ba i len >>= λ s j. from_utf8 s (i + len + 1)
  | none ↦ panicked
]

-- A length of zero makes a range that ends before it begins.
unfoldable pub slurp_bson_string : List ℕ → ℕ → Slurped (List ℕ)
slurp_bson_string ba i = slurp_u32_le ba i >>= λ len i. elim len [
  | zero ↦ panicked
  | suc n ↦ slice ba i n >>= λ s j. from_utf8 s (i + suc n)
]

unfoldable pub slurp_objectid : List ℕ → ℕ → Slurped Value
slurp_objectid ba i = slice ba i 12 >>= λ b i. slurped (b_object_id b) i

abbrev pub slurp_deprecated_12 : List ℕ → ℕ → Slurped Value
slurp_deprecated_12 ba i = slurp_bson_string ba i >>= λ a i. slurp_objectid ba i

abbrev pub slurp_js : List ℕ → ℕ → Slurped Value
slurp_js ba i = slurp_bson_string ba i >>= λ a i. slurped (b_js_code a) i

unfoldable pub slurp_regex : List ℕ → ℕ → Slurped Value
slurp_regex ba i = slurp_cstring ba i >>= λ expr i.
    slurp_cstring ba i >>= λ options i. slurped (b_regex expr options) i

unfoldable pub slurp_binary : List ℕ → ℕ → Slurped Value
slurp_binary ba i = slurp_u32_le ba i >>= λ len i.
    index ba i >>= λ subtype i. slice ba i len >>= λ b i. slurped (b_binary subtype b) i

unfoldable pub slurp_boolean : List ℕ → ℕ → Slurped Value
slurp_boolean ba i = index ba i >>= λ x i. slurped (b_boolean (not (x == 0))) i

-- The values of the pairs.
unfoldable pub values : Document → Array
values no_pairs = no_items
values (pair k v pairs) = item v (values pairs)

-- The readers of values, given the loop of `slurp_document_pairs`.
module _ (pairs_from : List ℕ → ℕ → Slurped Document) where
  unfoldable pub slurp_document_pairs : List ℕ → ℕ → Slurped Document
  slurp_document_pairs ba i = slurp_u32_le ba i >>= λ len i. pairs_from ba i >>= λ pairs i.
      index ba i >>= λ x i. if x == 0 then slurped pairs i else panicked

  abbrev pub slurp_document : List ℕ → ℕ → Slurped Document
  slurp_document ba i = slurp_document_pairs ba i

  unfoldable pub slurp_array : List ℕ → ℕ → Slurped Array
  slurp_array ba i = slurp_document_pairs ba i >>= λ pairs i. slurped (values pairs) i

  unfoldable pub slurp_js_with_scope : List ℕ → ℕ → Slurped Value
  slurp_js_with_scope ba i = slurp_u32_le ba i >>= λ len i. slurp_bson_string ba i >>= λ a i.
      slurp_document ba i >>= λ scope i. slurped (b_js_code_with_scope a scope) i

  unfoldable pub slurp_bson_value : List ℕ → ℕ → ℕ → Slurped Value
  slurp_bson_value ba i valtype =
      if valtype == 1
      then (slurp_f64_le ba i >>= λ f i. slurped (b_double f) i)
      else if valtype == 2
      then (slurp_bson_string ba i >>= λ s i. slurped (b_string s) i)
      else if valtype == 3
      then (slurp_document ba i >>= λ bd i. slurped (b_document bd) i)
      else if valtype == 4
      then (slurp_array ba i >>= λ a i. slurped (b_array a) i)
      else if valtype == 5
      then slurp_binary ba i
      else if valtype == 6
      then slurped b_undefined i
      else if valtype == 7
      then slurp_objectid ba i
      else if valtype == 8
      then slurp_boolean ba i
      else if valtype == 9
      then (slurp_i64_le ba i >>= λ n i. slurped (b_date_time n) i)
      else if valtype == 10
      then slurped b_null i
      else if valtype == 11
      then slurp_regex ba i
      else if valtype == 12
      then slurp_deprecated_12 ba i
      else if valtype == 13
      then slurp_js ba i
      else if valtype == 15
      then slurp_js_with_scope ba i
      else if valtype == 16
      then (slurp_i32_le ba i >>= λ n i. slurped (b_int32 n) i)
      else if valtype == 17
      then (slurp_i64_le ba i >>= λ n i. slurped (b_time_stamp n) i)
      else if valtype == 18
      then (slurp_i64_le ba i >>= λ n i. slurped (b_int64 n) i)
      else if valtype == 127
      then slurped b_max_key i
      else if valtype == 255
      then slurped b_min_key i
      else panicked

  -- One round of the loop, for the type number `valtype`, with the cursor behind it.
  unfoldable pub slurp_pair : List ℕ → ℕ → ℕ → Slurped Document
  slurp_pair ba i valtype = slurp_cstring ba i >>= λ k i. slurp_bson_value ba i valtype >>= λ v i.
      pairs_from ba i >>= λ pairs i. slurped (pair k v pairs) i

-- The loop `while ba[*i] != 0`.
unfoldable pub slurp_pairs : ℕ → List ℕ → ℕ → Slurped Document
slurp_pairs zero ba i = out_of_fuel
slurp_pairs (suc fuel) ba i = index ba i >>= λ valtype j. elim valtype [
  | zero ↦ slurped no_pairs i
  | suc n ↦ slurp_pair (slurp_pairs fuel) ba j (suc n)
]

-- `Document::from_bson`
unfoldable pub from_bson : List ℕ → Slurped Document
from_bson w = slurp_document (slurp_pairs (suc (length w))) w 0
