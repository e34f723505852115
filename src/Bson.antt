-- ===== src/Bson.antt =====
-- bson/src/lib.rs: the values of BSON. A string is the list of its UTF-8 bytes; an `f64`, an
-- `i64` and an `i32` is its bits, read as a number below 2 ^ 64 or 2 ^ 32.
pub mod Text
pub mod Encode
pub mod Decode
pub mod Format
pub mod Valid
pub mod Codec
pub mod Equality
pub mod Keys
pub mod Nesting
pub mod Paths
pub mod KeyNames
mod Tests
use elmo.Common.{ℕ, Bool, List}

-- `Value`, `Array` (the list of its `items`) and `Document` (the list of its `pairs`).
mutual
  pub data Value : Type 0 where
    b_double : ℕ → Value
    b_string : List ℕ → Value
    b_int64 : ℕ → Value
    b_int32 : ℕ → Value
    b_undefined : Value
    b_object_id : List ℕ → Value
    b_null : Value
    b_regex : List ℕ → List ℕ → Value
    b_js_code : List ℕ → Value
    b_js_code_with_scope : List ℕ → Document → Value
    b_binary : ℕ → List ℕ → Value
    b_min_key : Value
    b_max_key : Value
    b_date_time : ℕ → Value
    b_time_stamp : ℕ → Value
    b_boolean : Bool → Value
    b_array : Array → Value
    b_document : Document → Value

  pub data Array : Type 0 where
    no_items : Array
    item : Value → Array → Array

  pub data Document : Type 0 where
    no_pairs : Document
    pair : List ℕ → Value → Document → Document

-- `Value::get_type_number`
unfoldable pub get_type_number : Value → ℕ
get_type_number (b_double f) = 1
get_type_number (b_string s) = 2
get_type_number (b_document bd) = 3
get_type_number (b_array ba) = 4
get_type_number (b_binary subtype ba) = 5
get_type_number b_undefined = 6
get_type_number (b_object_id a) = 7
get_type_number (b_boolean b) = 8
get_type_number (b_date_time n) = 9
get_type_number b_null = 10
get_type_number (b_regex expr opt) = 11
get_type_number (b_js_code s) = 13
get_type_number (b_js_code_with_scope s scope) = 15
get_type_number (b_int32 n) = 16
get_type_number (b_time_stamp n) = 17
get_type_number (b_int64 n) = 18
get_type_number b_min_key = 255
get_type_number b_max_key = 127
