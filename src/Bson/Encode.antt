-- ===== src/Bson/Encode.antt =====
-- bson/src/lib.rs: `to_bson` of `Value`, `Array` and `Document`, and equality of values.
pub mod Written
use elmo.Common.{ℕ, suc, ◌+◌, ◌-◌, ◌^◌, ◌%◌, ◌==◌, Bool, true, false, ◌&&◌, length, take, drop}
use elmo.Common.{List, [], ◌∷◌, ◌++◌, if◌then◌else◌}
use elmo.Common.Outcome.{Outcome, ok, panic, ◌>>=◌}
use elmo.Endian.{bytes_le}
use elmo.Bson.{
  Value, b_double, b_string, b_int64, b_int32, b_undefined, b_object_id, b_null, b_regex, b_js_code,
  b_js_code_with_scope, b_binary, b_min_key, b_max_key, b_date_time, b_time_stamp, b_boolean,
  b_array, b_document, Array, no_items, item, Document, no_pairs, pair, get_type_number,
}
use elmo.Bson.Text.{decimal}

-- `len as i32`, by its bits.
abbrev pub as_i32 : ℕ → ℕ
as_i32 len = len % 2 ^ 32

abbrev pub i32_to_bytes_le : ℕ → List ℕ
i32_to_bytes_le n = bytes_le 4 n

abbrev pub i64_to_bytes_le : ℕ → List ℕ
i64_to_bytes_le n = bytes_le 8 n

abbrev pub f64_to_bytes_le : ℕ → List ℕ
f64_to_bytes_le f = bytes_le 8 f

abbrev pub vec_push_c_string : List ℕ → List ℕ → List ℕ
vec_push_c_string v s = (v ++ s) ++ (0 ∷ [])

abbrev pub vec_push_bson_string : List ℕ → List ℕ → List ℕ
vec_push_bson_string v s = ((v ++ i32_to_bytes_le (as_i32 (length s + 1))) ++ s) ++ (0 ∷ [])

-- `copy_into(src, &mut w[start .. start + 4])`
abbrev pub copy_into : List ℕ → List ℕ → ℕ → List ℕ
copy_into src w start = take start w ++ (src ++ drop (start + 4) w)

-- The last lines of `to_bson` of an array or a document that begins at `start`.
abbrev pub close : ℕ → List ℕ → List ℕ
close start w =
    let w = w ++ (0 ∷ []) in
    let len = length w - start in copy_into (i32_to_bytes_le (as_i32 len)) w start

unfoldable mutual
  pub to_bson : Value → List ℕ → Outcome (List ℕ)
  to_bson (b_double f) w = ok (w ++ f64_to_bytes_le f)
  to_bson (b_int32 n) w = ok (w ++ i32_to_bytes_le n)
  to_bson (b_date_time n) w = ok (w ++ i64_to_bytes_le n)
  to_bson (b_time_stamp n) w = ok (w ++ i64_to_bytes_le n)
  to_bson (b_int64 n) w = ok (w ++ i64_to_bytes_le n)
  to_bson (b_string s) w = ok (vec_push_bson_string w s)
  to_bson (b_object_id a) w = ok (w ++ a)
  to_bson (b_boolean b) w = ok (if b then w ++ (1 ∷ []) else w ++ (0 ∷ []))
  to_bson b_null w = ok w
  to_bson b_min_key w = ok w
  to_bson b_max_key w = ok w
  to_bson (b_regex expr opt) w = ok (vec_push_c_string (vec_push_c_string w expr) opt)
  to_bson b_undefined w = ok w
  to_bson (b_js_code s) w = ok (vec_push_bson_string w s)
  to_bson (b_js_code_with_scope s scope) w = panic
  to_bson (b_binary subtype ba) w =
      ok (((w ++ i32_to_bytes_le (as_i32 (length ba))) ++ (subtype ∷ [])) ++ ba)
  to_bson (b_array ba) w =
      push_items ba 0 (w ++ i32_to_bytes_le 0) >>= λ w1. ok (close (length w) w1)
  to_bson (b_document bd) w =
      push_pairs bd (w ++ i32_to_bytes_le 0) >>= λ w1. ok (close (length w) w1)

  -- The loop of `Array::to_bson`, at the index `i`.
  pub push_items : Array → ℕ → List ℕ → Outcome (List ℕ)
  push_items no_items i w = ok w
  push_items (item vsub items) i w =
      to_bson vsub (vec_push_c_string (w ++ (get_type_number vsub ∷ [])) (decimal i)) >>= λ w1.
      push_items items (i + 1) w1

  -- The loop of `Document::to_bson`.
  pub push_pairs : Document → List ℕ → Outcome (List ℕ)
  push_pairs no_pairs w = ok w
  push_pairs (pair ksub vsub pairs) w =
      to_bson vsub (vec_push_c_string (w ++ (get_type_number vsub ∷ [])) ksub) >>= λ w1.
      push_pairs pairs w1

-- `Document::to_bson`
unfoldable pub document_to_bson : Document → List ℕ → Outcome (List ℕ)
document_to_bson bd w = push_pairs bd (w ++ i32_to_bytes_le 0) >>= λ w1. ok (close (length w) w1)

-- `Array::to_bson`
unfoldable pub array_to_bson : Array → List ℕ → Outcome (List ℕ)
array_to_bson ba w = push_items ba 0 (w ++ i32_to_bytes_le 0) >>= λ w1. ok (close (length w) w1)

-- `Value::to_bson_array` and `Document::to_bson_array`
unfoldable pub to_bson_array : Value → Outcome (List ℕ)
to_bson_array v = to_bson v []

unfoldable pub document_to_bson_array : Document → Outcome (List ℕ)
document_to_bson_array bd = document_to_bson bd []

-- `==` on byte vectors
unfoldable pub bytes_equal : List ℕ → List ℕ → Bool
bytes_equal [] [] = true
bytes_equal [] (y ∷ ys) = false
bytes_equal (x ∷ xs) [] = false
bytes_equal (x ∷ xs) (y ∷ ys) = x == y && bytes_equal xs ys

-- `Value::eq`
unfoldable pub eq : Value → Value → Outcome Bool
eq self other = to_bson_array self >>= λ a. to_bson_array other >>= λ b. ok (bytes_equal a b)
