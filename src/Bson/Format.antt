-- ===== src/Bson/Format.antt =====
-- The format that `to_bson` of bson/src/lib.rs writes: each part after the one before it, behind
-- the length that goes before it.
use elmo.Common.{ℕ, ◌+◌, ◌^◌, ◌%◌, Bool, true, false, ◌||◌, if◌then◌else◌, length}
use elmo.Common.{List, [], ◌∷◌, ◌++◌}
use elmo.Endian.{bytes_le}
use elmo.Bson.{
  Value, b_double, b_string, b_int64, b_int32, b_undefined, b_object_id, b_null, b_regex, b_js_code,
  b_js_code_with_scope, b_binary, b_min_key, b_max_key, b_date_time, b_time_stamp, b_boolean,
  b_array, b_document, Array, no_items, item, Document, no_pairs, pair, get_type_number,
}
use elmo.Bson.Text.{decimal}

abbrev pub length_bytes : ℕ → List ℕ
length_bytes n = bytes_le 4 (n % 2 ^ 32)

abbrev pub text : List ℕ → List ℕ
text s = length_bytes (length s + 1) ++ (s ++ (0 ∷ []))

abbrev pub name : List ℕ → List ℕ
name s = s ++ (0 ∷ [])

-- The pairs of an array or a document, with its length and the zero byte at its end.
abbrev pub frame : List ℕ → List ℕ
frame body = length_bytes (length body + 5) ++ (body ++ (0 ∷ []))

unfoldable mutual
  pub encoding : Value → List ℕ
  encoding (b_double f) = bytes_le 8 f
  encoding (b_string s) = text s
  encoding (b_int64 n) = bytes_le 8 n
  encoding (b_int32 n) = bytes_le 4 n
  encoding b_undefined = []
  encoding (b_object_id a) = a
  encoding b_null = []
  encoding (b_regex expr opt) = name expr ++ name opt
  encoding (b_js_code s) = text s
  encoding (b_js_code_with_scope s scope) = []
  encoding (b_binary subtype ba) = length_bytes (length ba) ++ (subtype ∷ ba)
  encoding b_min_key = []
  encoding b_max_key = []
  encoding (b_date_time n) = bytes_le 8 n
  encoding (b_time_stamp n) = bytes_le 8 n
  encoding (b_boolean b) = if b then 1 ∷ [] else 0 ∷ []
  encoding (b_array ba) = frame (items_encoding ba 0)
  encoding (b_document bd) = frame (pairs_encoding bd)

  pub items_encoding : Array → ℕ → List ℕ
  items_encoding no_items i = []
  items_encoding (item v items) i =
      get_type_number v ∷ (name (decimal i) ++ (encoding v ++ items_encoding items (i + 1)))

  pub pairs_encoding : Document → List ℕ
  pairs_encoding no_pairs = []
  pairs_encoding (pair k v pairs) =
      get_type_number v ∷ (name k ++ (encoding v ++ pairs_encoding pairs))

-- There is code with a scope in the value.
unfoldable mutual
  pub has_scope : Value → Bool
  has_scope (b_js_code_with_scope s scope) = true
  has_scope (b_array ba) = items_have_scope ba
  has_scope (b_document bd) = pairs_have_scope bd
  has_scope _ = false

  pub items_have_scope : Array → Bool
  items_have_scope no_items = false
  items_have_scope (item v items) = has_scope v || items_have_scope items

  pub pairs_have_scope : Document → Bool
  pairs_have_scope no_pairs = false
  pairs_have_scope (pair k v pairs) = has_scope v || pairs_have_scope pairs
