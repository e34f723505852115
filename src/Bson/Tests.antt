-- ===== src/Bson/Tests.antt =====
-- Runs of the codec of BSON, and the theorems at concrete inputs.
use elmo.Common.{◌≢◌, ℕ, ◌+◌, ◌≡◌, ◌↔◌, refl, arith, List, [], ◌∷◌, ◌++◌, length, true, false}
use elmo.Common.{if◌then◌else◌, ◌||◌}
use elmo.Common.Outcome.{ok, panic}
use elmo.Bson.{
  b_int64, b_undefined, b_min_key, b_max_key, b_date_time, b_time_stamp, b_string, b_int32, b_null,
  b_js_code_with_scope, b_boolean, b_array, b_document, Array, no_items, item, Document, no_pairs,
  pair, get_type_number,
}
use elmo.Bson.Text.{is_utf8, decimal}
use elmo.Bson.Encode.{
  to_bson, document_to_bson, array_to_bson, document_to_bson_array, eq, bytes_equal, to_bson_array,
}
use elmo.Bson.Encode.Written.{to_bson_lem}
use elmo.Endian.{bytes_le, number_le}
use elmo.Bson.Decode.Total.{from_bson_ends}
use elmo.Bson.Decode.{
  out_of_fuel, cstring_len, index, slice, slurp_array, slurp_bson_string, slurp_cstring, values,
}
use elmo.Bson.Text.{digits, ends_utf8, after_first}
use elmo.Bson.Decode.{slurp_document_pairs, slurp_pair, slurp_bson_value}
use elmo.Bson.Decode.{slurped, utf8_error, panicked, slurp_pairs, slurp_document, from_bson}
use elmo.Bson.Format.{frame, encoding, items_encoding, pairs_encoding, has_scope, items_have_scope}
use elmo.Bson.Format.{pairs_have_scope}
use elmo.Bson.Codec.{slurp_document-to_bson}
use elmo.Bson.KeyNames.{validate_keys, validate_keys_lem, starts_with_dollar}
use elmo.Bson.Keys.{get}
use elmo.Bson.Paths.{parse_path}
use elmo.Bson.Paths.Follow.{read}
use elmo.Common.{some}
use elmo.Common.Outcome.{Error, err}
use elmo.Bson.Equality.{eq_iff, eq_lem}
use elmo.Bson.Valid.{IsValid, has_no_zero, IsValidDocument}

-- { a: [ 7, null ], b: "hé" }
abbrev sample_items : Array
sample_items = item (b_int32 7) (item b_null no_items)

abbrev sample : Document
sample =
    pair (97 ∷ []) (b_array sample_items)
      (pair (98 ∷ []) (b_string (104 ∷ 195 ∷ 169 ∷ [])) no_pairs)

abbrev sample_bytes : List ℕ
sample_bytes =
    34 ∷ 0 ∷ 0 ∷ 0 ∷ 4 ∷ 97 ∷ 0 ∷ 15 ∷ 0 ∷ 0 ∷ 0 ∷ 16 ∷ 48 ∷ 0 ∷ 7 ∷ 0 ∷ 0 ∷ 0 ∷ 10 ∷ 49 ∷ 0 ∷ 0 ∷ 2
    ∷ 98 ∷ 0 ∷ 4 ∷ 0 ∷ 0 ∷ 0 ∷ 104 ∷ 195 ∷ 169 ∷ 0 ∷ 0 ∷ []

sample_written : document_to_bson_array sample ≡ ok sample_bytes
unfolding document_to_bson_array document_to_bson to_bson bytes_le get_type_number decimal digits
sample_written = refl

sample_read : from_bson sample_bytes ≡ slurped sample 34
unfolding from_bson slurp_document_pairs slurp_pairs slurp_pair slurp_bson_value slice index
    slurp_cstring cstring_len is_utf8 ends_utf8 after_first slurp_array slurp_bson_string number_le
    values
sample_read = refl

decimal_120 : decimal 120 ≡ 49 ∷ 50 ∷ 48 ∷ []
unfolding decimal digits
decimal_120 = refl

-- A surrogate, an overlong form and a character that is cut off are no text.
not_text :
    (is_utf8 (237 ∷ 160 ∷ 128 ∷ []) ≡ false)
    × (is_utf8 (192 ∷ 128 ∷ []) ≡ false)
    × (is_utf8 (195 ∷ []) ≡ false)
unfolding is_utf8 ends_utf8 after_first
not_text = (refl, refl, refl)

-- A string that is no text, a string of length zero, a type that does not exist, no bytes at all.
bad_string : from_bson (14 ∷ 0 ∷ 0 ∷ 0 ∷ 2 ∷ 98 ∷ 0 ∷ 2 ∷ 0 ∷ 0 ∷ 0 ∷ 255 ∷ 0 ∷ 0 ∷ []) ≡ utf8_error
unfolding from_bson slurp_document_pairs slice slurp_pairs index slurp_pair slurp_cstring
    cstring_len is_utf8 ends_utf8 after_first slurp_bson_value slurp_bson_string number_le
bad_string = refl

zero_length : from_bson (14 ∷ 0 ∷ 0 ∷ 0 ∷ 2 ∷ 98 ∷ 0 ∷ 0 ∷ 0 ∷ 0 ∷ 0 ∷ 255 ∷ 0 ∷ 0 ∷ []) ≡ panicked
unfolding from_bson slurp_document_pairs slice slurp_pairs index slurp_pair slurp_cstring
    cstring_len is_utf8 ends_utf8 after_first slurp_bson_value slurp_bson_string number_le
zero_length = refl

bad_type : from_bson (14 ∷ 0 ∷ 0 ∷ 0 ∷ 14 ∷ 98 ∷ 0 ∷ 0 ∷ []) ≡ panicked
unfolding from_bson slurp_document_pairs slice slurp_pairs index slurp_pair slurp_cstring
    cstring_len is_utf8 ends_utf8 after_first slurp_bson_value
bad_type = refl

no_bytes : from_bson [] ≡ panicked
unfolding from_bson slurp_document_pairs slice
no_bytes = refl

scope_panics : to_bson (b_js_code_with_scope [] no_pairs) [] ≡ panic
unfolding to_bson
scope_panics = refl

sample_IsValid : IsValidDocument sample
unfolding IsValid is_utf8 ends_utf8 after_first has_no_zero
sample_IsValid =
    ((refl, refl), ((omega arith, (tt, tt)), ((refl, refl), ((refl, omega arith), tt))))

to_bson_example :
    (to_bson (b_boolean true) (9 ∷ [])
      ≡ (if has_scope (b_boolean true) then panic else ok ((9 ∷ []) ++ encoding (b_boolean true))))
    × (array_to_bson sample_items (9 ∷ []) ≡ (
        if items_have_scope sample_items
        then panic
        else ok ((9 ∷ []) ++ frame (items_encoding sample_items 0))))
    × (document_to_bson sample (9 ∷ []) ≡ (
        if pairs_have_scope sample then panic else ok ((9 ∷ []) ++ frame (pairs_encoding sample))))
to_bson_example = to_bson_lem (b_boolean true) sample_items sample (9 ∷ [])

slurp_document-to_bson_example :
    (document_to_bson sample (9 ∷ []) ≡ ok ((9 ∷ []) ++ frame (pairs_encoding sample)))
    × (slurp_document (slurp_pairs 40) ((9 ∷ []) ++ (frame (pairs_encoding sample) ++ (8 ∷ []))) 1
        ≡ slurped sample (1 + length (frame (pairs_encoding sample))))
    × (document_to_bson_array sample ≡ ok (frame (pairs_encoding sample)))
    × (from_bson (frame (pairs_encoding sample))
        ≡ slurped sample (length (frame (pairs_encoding sample))))
unfolding encoding bytes_le decimal digits
slurp_document-to_bson_example =
    slurp_document-to_bson sample (9 ∷ []) (8 ∷ []) 40 sample_IsValid (omega arith)

eq_iff_example :
    (eq (b_document sample) (b_document no_pairs)
      ≡ ok (bytes_equal (encoding (b_document sample)) (encoding (b_document no_pairs))))
    × ((eq (b_document sample) (b_document no_pairs) ≡ ok true)
        ↔ (b_document sample ≡ b_document no_pairs))
unfolding get_type_number IsValid
eq_iff_example = eq_iff (b_document sample) (b_document no_pairs) sample_IsValid tt refl

null_undefined : eq b_null b_undefined ≡ ok true
unfolding eq to_bson_array to_bson bytes_equal
null_undefined = refl

min_max_key : eq b_min_key b_max_key ≡ ok true
unfolding eq to_bson_array to_bson bytes_equal
min_max_key = refl

eq_example :
    ((eq (b_int64 5) (b_date_time 5) ≡ panic)
      ↔ (has_scope (b_int64 5) || has_scope (b_date_time 5) ≡ true))
    × ((eq (b_int64 5) (b_date_time 5) ≡ ok true) ↔ (
        (has_scope (b_int64 5) || has_scope (b_date_time 5) ≡ false)
        × (encoding (b_int64 5) ≡ encoding (b_date_time 5))))
    × ((eq (b_int64 5) (b_date_time 5) ≡ ok false) ↔ (
        (has_scope (b_int64 5) || has_scope (b_date_time 5) ≡ false)
        × (encoding (b_int64 5) ≢ encoding (b_date_time 5))))
eq_example = eq_lem (b_int64 5) (b_date_time 5)

from_bson_ends_example : from_bson sample_bytes ≢ out_of_fuel
from_bson_ends_example = from_bson_ends sample_bytes

-- { _id: 5 }, and a key with a dot.
keys_checked :
    (validate_keys (pair (95 ∷ 105 ∷ 100 ∷ []) (b_int32 5) no_pairs) 0 ≡ ok tt)
    × (validate_keys (pair (97 ∷ 46 ∷ []) (b_int32 5) no_pairs) 0 ≡ err Error.misc)
unfolding validate_keys elmo.Bson.KeyNames.part_keys starts_with_dollar
    elmo.Bson.KeyNames.contains_dot
keys_checked = (refl, refl)

validate_keys_example :
    (starts_with_dollar (97 ∷ []) ≡ false)
    × (read (parse_path (97 ∷ [])) (b_document sample) ≡ ok (some (b_array sample_items)))
unfolding validate_keys get elmo.Bson.KeyNames.part_keys starts_with_dollar
    elmo.Bson.KeyNames.contains_dot bytes_equal
validate_keys_example = validate_keys_lem sample (97 ∷ []) (b_array sample_items) refl refl
