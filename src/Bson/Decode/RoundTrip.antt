-- ===== src/Bson/Decode/RoundTrip.antt =====
-- What `to_bson` of bson/src/lib.rs writes is read back.
use elmo.Bson.Decode.Values.{then-Reads, regex-Reads, binary-Reads, boolean-Reads, object_id-Reads}
use mathlib.Core.Path.{subst}
use elmo.Common.{ℕ, zero, suc, ◌+◌, ◌≡◌, ◌≤◌, ◌<◌, refl, ap, arith, length}
use elmo.Common.{List, [], ◌∷◌, ◌++◌, length-append}
use elmo.Endian.{number_le}
use elmo.Bson.{
  Value, b_double, b_string, b_int64, b_int32, b_undefined, b_object_id, b_null, b_regex, b_js_code,
  b_js_code_with_scope, b_binary, b_min_key, b_max_key, b_date_time, b_time_stamp, b_boolean,
  b_array, b_document, Array, no_items, item, Document, no_pairs, pair, get_type_number,
}
use elmo.Bson.Text.{decimal}
use elmo.Bson.Text.Decimal.{decimal-IsName}
use elmo.Bson.Decode.{slurped, ◌>>=◌, slice, slurp_bson_value, slurp_pairs}
use elmo.Bson.Decode.{slurp_document_pairs, slurp_array, values, slurp_bson_string}
use elmo.Bson.Decode.Reads.{At, Reads, number-Reads}
use elmo.Bson.Decode.Reads.{text-Reads}
use elmo.Bson.Decode.Loops.{frame-Reads, end-Reads, pair-Reads}
use elmo.Bson.Format.{encoding, items_encoding, pairs_encoding, name, length_bytes, frame}
use elmo.Bson.Valid.{IsValid, IsValidArray, IsValidDocument, IsName}

-- The items under their indices, from one on.
unfoldable indexed : Array → ℕ → Document
indexed no_items i = no_pairs
indexed (item v items) i = pair (decimal i) v (indexed items (i + 1))

values-indexed : (items : Array) (i : ℕ) → values (indexed items i) ≡ items
unfolding values indexed
values-indexed no_items i = refl
values-indexed (item v items) i = ap (item v) (values-indexed items (i + 1))

numbered : (v : Value) → (n : ℕ) × (get_type_number v ≡ suc n)
unfolding get_type_number
numbered (b_double f) = (0, refl)
numbered (b_string s) = (1, refl)
numbered (b_int64 n) = (17, refl)
numbered (b_int32 n) = (15, refl)
numbered b_undefined = (5, refl)
numbered (b_object_id a) = (6, refl)
numbered b_null = (9, refl)
numbered (b_regex expr opt) = (10, refl)
numbered (b_js_code s) = (12, refl)
numbered (b_js_code_with_scope s scope) = (14, refl)
numbered (b_binary subtype ba) = (4, refl)
numbered b_min_key = (254, refl)
numbered b_max_key = (126, refl)
numbered (b_date_time n) = (8, refl)
numbered (b_time_stamp n) = (16, refl)
numbered (b_boolean b) = (7, refl)
numbered (b_array ba) = (3, refl)
numbered (b_document bd) = (2, refl)

array-Reads :
    (fuel : ℕ) (ba : List ℕ) (i : ℕ) (items : Array) (ys : List ℕ)
    → Reads (slurp_document_pairs (slurp_pairs fuel) ba i) (indexed items 0) ba ys
    → Reads
        (slurp_array (slurp_pairs fuel) ba i >>= λ a i. slurped (b_array a) i)
        (b_array items)
        ba
        ys
unfolding slurp_array
array-Reads fuel ba i items ys h =
    then-Reads
      (slurp_document_pairs (slurp_pairs fuel) ba i >>= λ pairs i. slurped (values pairs) i) items
      b_array ba ys
      (subst (λ a. Reads (slurp_array (slurp_pairs fuel) ba i) a ba ys) (values-indexed items 0)
        (then-Reads (slurp_document_pairs (slurp_pairs fuel) ba i) (indexed items 0) values ba ys
          h))

framed_fuel : (body : List ℕ) (fuel : ℕ) → length (frame body) ≤ fuel → length body < fuel
framed_fuel body fuel h = omega (
  arith,
  length-append (length_bytes (length body + 5)) (body ++ (0 ∷ [])),
  length-append body (0 ∷ []),
)

-- An element, with enough fuel for each of its parts.
element-Reads :
    (fuel : ℕ) (ba : List ℕ) (i : ℕ) (k : List ℕ) (v : Value) (pairs : Document) (es ys : List ℕ)
    → IsName k
    → ((fuel j : ℕ)
        → length (encoding v) ≤ fuel
        → At ba j (encoding v ++ (es ++ ys))
        → Reads (slurp_bson_value (slurp_pairs fuel) ba j (get_type_number v)) v ba (es ++ ys))
    → ((fuel j : ℕ)
        → length es < fuel
        → At ba j (es ++ ys)
        → Reads (slurp_pairs fuel ba j) pairs ba ys)
    → length (get_type_number v ∷ (name k ++ (encoding v ++ es))) < fuel
    → At ba i ((get_type_number v ∷ (name k ++ (encoding v ++ es))) ++ ys)
    → Reads (slurp_pairs fuel ba i) (pair k v pairs) ba ys
element-Reads zero ba i k v pairs es ys hk hv hp small at = absurd (omega arith)
element-Reads (suc fuel) ba i k v pairs es ys hk hv hp small at =
    let (n, e) = numbered v in
    let len = length-append (name k) (encoding v ++ es) in
    let len2 = length-append (encoding v) es in
    pair-Reads fuel ba i n k v pairs (encoding v) es ys hk
      (λ j at'.
        subst (λ t. Reads (slurp_bson_value (slurp_pairs fuel) ba j t) v ba (es ++ ys)) e
          (hv fuel j (omega arith) at'))
      (λ j at'. hp fuel j (omega arith) at')
      (subst (λ t. At ba i ((t ∷ (name k ++ (encoding v ++ es))) ++ ys)) e at)

-- No elements, with any fuel.
none_read :
    (fuel : ℕ) (ba : List ℕ) (i : ℕ) (ys : List ℕ)
    → 0 < fuel
    → At ba i (0 ∷ ys)
    → Reads (slurp_pairs fuel ba i) no_pairs ba (0 ∷ ys)
none_read zero ba i ys h at = absurd (omega arith)
none_read (suc fuel) ba i ys h at = end-Reads fuel ba i ys at

mutual
  unfolding slurp_bson_value get_type_number encoding IsValid indexed slurp_array

  pub value-Reads :
      (v : Value) (fuel : ℕ) (ba : List ℕ) (i : ℕ) (ys : List ℕ)
      → IsValid v
      → length (encoding v) ≤ fuel
      → At ba i (encoding v ++ ys)
      → Reads (slurp_bson_value (slurp_pairs fuel) ba i (get_type_number v)) v ba ys
  value-Reads (b_double f) fuel ba i ys h small at =
      then-Reads (slice ba i 8 >>= λ a i. slurped (number_le a) i) f b_double ba ys
        (number-Reads ba i 8 f ys (omega arith) at)
  value-Reads (b_string s) fuel ba i ys h small at =
      then-Reads (slurp_bson_string ba i) s b_string ba ys (text-Reads ba i s ys h at)
  value-Reads (b_int64 n) fuel ba i ys h small at =
      then-Reads (slice ba i 8 >>= λ a i. slurped (number_le a) i) n b_int64 ba ys
        (number-Reads ba i 8 n ys (omega arith) at)
  value-Reads (b_int32 n) fuel ba i ys h small at =
      then-Reads (slice ba i 4 >>= λ a i. slurped (number_le a) i) n b_int32 ba ys
        (number-Reads ba i 4 n ys (omega arith) at)
  value-Reads b_undefined fuel ba i ys h small at = (refl, at)
  value-Reads (b_object_id a) fuel ba i ys h small at = object_id-Reads ba i a ys h at
  value-Reads b_null fuel ba i ys h small at = (refl, at)
  value-Reads (b_regex expr opt) fuel ba i ys (he, ho) small at =
      regex-Reads ba i expr opt ys he ho at
  value-Reads (b_js_code s) fuel ba i ys h small at =
      then-Reads (slurp_bson_string ba i) s b_js_code ba ys (text-Reads ba i s ys h at)
  value-Reads (b_js_code_with_scope s scope) fuel ba i ys h small at = absurd h
  value-Reads (b_binary subtype bs) fuel ba i ys h small at = binary-Reads ba i subtype bs ys h at
  value-Reads b_min_key fuel ba i ys h small at = (refl, at)
  value-Reads b_max_key fuel ba i ys h small at = (refl, at)
  value-Reads (b_date_time n) fuel ba i ys h small at =
      then-Reads (slice ba i 8 >>= λ a i. slurped (number_le a) i) n b_date_time ba ys
        (number-Reads ba i 8 n ys (omega arith) at)
  value-Reads (b_time_stamp n) fuel ba i ys h small at =
      then-Reads (slice ba i 8 >>= λ a i. slurped (number_le a) i) n b_time_stamp ba ys
        (number-Reads ba i 8 n ys (omega arith) at)
  value-Reads (b_boolean b) fuel ba i ys h small at = boolean-Reads ba i b ys at
  value-Reads (b_array items) fuel ba i ys h small at = array-Reads fuel ba i items ys (
      frame-Reads (slurp_pairs fuel) ba i (items_encoding items 0) ys (indexed items 0)
        (λ j at.
          items_read items 0 fuel ba j ys h (framed_fuel (items_encoding items 0) fuel small) at)
        at)
  value-Reads (b_document bd) fuel ba i ys h small at =
      then-Reads (slurp_document_pairs (slurp_pairs fuel) ba i) bd b_document ba ys (
        frame-Reads (slurp_pairs fuel) ba i (pairs_encoding bd) ys bd
          (λ j at. pairs_read bd fuel ba j ys h (framed_fuel (pairs_encoding bd) fuel small) at) at)

  items_read :
      (items : Array) (n fuel : ℕ) (ba : List ℕ) (i : ℕ) (ys : List ℕ)
      → IsValidArray items
      → length (items_encoding items n) < fuel
      → At ba i (items_encoding items n ++ (0 ∷ ys))
      → Reads (slurp_pairs fuel ba i) (indexed items n) ba (0 ∷ ys)
  items_read no_items n fuel ba i ys h small at = none_read fuel ba i ys (omega arith) at
  items_read (item v items) n fuel ba i ys (hv, hs) small at =
      element-Reads fuel ba i (decimal n) v (indexed items (n + 1)) (items_encoding items (n + 1))
        (0 ∷ ys) (decimal-IsName n)
        (λ fuel j small at.
          value-Reads v fuel ba j (items_encoding items (n + 1) ++ (0 ∷ ys)) hv small at)
        (λ fuel j small at. items_read items (n + 1) fuel ba j ys hs small at) small at

  pairs_read :
      (bd : Document) (fuel : ℕ) (ba : List ℕ) (i : ℕ) (ys : List ℕ)
      → IsValidDocument bd
      → length (pairs_encoding bd) < fuel
      → At ba i (pairs_encoding bd ++ (0 ∷ ys))
      → Reads (slurp_pairs fuel ba i) bd ba (0 ∷ ys)
  pairs_read no_pairs fuel ba i ys h small at = none_read fuel ba i ys (omega arith) at
  pairs_read (pair k v pairs) fuel ba i ys (hk, (hv, hs)) small at =
      element-Reads fuel ba i k v pairs (pairs_encoding pairs) (0 ∷ ys) hk
        (λ fuel j small at. value-Reads v fuel ba j (pairs_encoding pairs ++ (0 ∷ ys)) hv small at)
        (λ fuel j small at. pairs_read pairs fuel ba j ys hs small at) small at

pub document-Reads :
    (bd : Document) (fuel : ℕ) (ba : List ℕ) (i : ℕ) (ys : List ℕ)
    → IsValidDocument bd
    → length (frame (pairs_encoding bd)) ≤ fuel
    → At ba i (frame (pairs_encoding bd) ++ ys)
    → Reads (slurp_document_pairs (slurp_pairs fuel) ba i) bd ba ys
document-Reads bd fuel ba i ys h small at =
    frame-Reads (slurp_pairs fuel) ba i (pairs_encoding bd) ys bd
      (λ j at. pairs_read bd fuel ba j ys h (framed_fuel (pairs_encoding bd) fuel small) at) at
