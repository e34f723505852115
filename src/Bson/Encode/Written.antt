-- ===== src/Bson/Encode/Written.antt =====
-- What bson/src/lib.rs, `to_bson`, writes behind the bytes that are there.
use mathlib.Core.List.{append_assoc}
use elmo.Common.{ℕ, ◌+◌, ◌-◌, ◌^◌, ◌%◌, ◌≡◌, refl, sym, ap, ◌∙◌, arith, length, drop}
use elmo.Common.{Bool, true, false, ◌||◌, if◌then◌else◌, List, [], ◌∷◌, ◌++◌}
use elmo.Common.{length-append, take-append, drop-append}
use elmo.Common.Outcome.{Outcome, ok, panic, ◌>>=◌}
use elmo.Endian.{bytes_le}
use elmo.Endian.RoundTrip.{length-bytes_le}
use elmo.Bson.{
  Value, b_double, b_string, b_int64, b_int32, b_undefined, b_object_id, b_null, b_regex, b_js_code,
  b_js_code_with_scope, b_binary, b_min_key, b_max_key, b_date_time, b_time_stamp, b_boolean,
  b_array, b_document, Array, no_items, item, Document, no_pairs, pair, get_type_number,
}
use elmo.Bson.Text.{decimal}
use elmo.Bson.Encode.{to_bson, push_items, push_pairs, close, i32_to_bytes_le, copy_into}
use elmo.Bson.Encode.{vec_push_c_string, array_to_bson, document_to_bson}
use elmo.Bson.Format.{encoding, items_encoding, pairs_encoding, has_scope, items_have_scope}
use elmo.Bson.Format.{pairs_have_scope, frame, name, length_bytes}

-- Appended to the bytes, unless the write panics.
abbrev written : Bool → List ℕ → List ℕ → Outcome (List ℕ)
written scope w bs = if scope then panic else ok (w ++ bs)

assoc : (xs ys zs : List ℕ) → (xs ++ ys) ++ zs ≡ xs ++ (ys ++ zs)
assoc xs ys zs = append_assoc xs ys zs

-- Writing over four bytes.
copy_into_lem :
    (src w p tail : List ℕ)
    → length p ≡ 4
    → copy_into src (w ++ (p ++ tail)) (length w) ≡ w ++ (src ++ tail)
copy_into_lem src w p tail four =
    let behind : drop (length w + 4) (w ++ (p ++ tail)) ≡ tail =
      ap (drop (length w + 4)) (sym (assoc w p tail))
      ∙ drop-append (w ++ p) tail (length w + 4) (omega (arith, length-append w p, four)) in
    rw behind (ap (λ l. l ++ (src ++ tail)) (take-append w (p ++ tail) (length w) refl))

close_lem :
    (w body : List ℕ) → close (length w) ((w ++ i32_to_bytes_le 0) ++ body) ≡ w ++ frame body
close_lem w body =
    let p = bytes_le 4 0 in
    let tail = body ++ (0 ∷ []) in
    let whole : ((w ++ p) ++ body) ++ (0 ∷ []) ≡ w ++ (p ++ tail) =
      assoc (w ++ p) body (0 ∷ []) ∙ assoc w p tail in
    let len : length (w ++ (p ++ tail)) - length w ≡ length body + 5 = omega (
      arith,
      length-append w (p ++ tail),
      length-append p tail,
      length-bytes_le 4 0,
      length-append body (0 ∷ []),
    ) in
    rw (whole, len)
      (copy_into_lem (bytes_le 4 ((length body + 5) % 2 ^ 32)) w p tail (length-bytes_le 4 0))

-- A write, and the writes after it.
written->>= :
    (scope later : Bool) (w bs cs : List ℕ) (f : List ℕ → Outcome (List ℕ))
    → f (w ++ bs) ≡ written later (w ++ bs) cs
    → (written scope w bs >>= f) ≡ written (scope || later) w (bs ++ cs)
written->>= true later w bs cs f e = refl
written->>= false later w bs cs f e = e ∙ ap (λ l. if later then panic else ok l) (assoc w bs cs)

-- An element of an array or a document, and those after it.
element :
    (t : ℕ) (k : List ℕ) (v : Value) (later : Bool) (w es : List ℕ) (f : List ℕ → Outcome (List ℕ))
    → ((w : List ℕ) → to_bson v w ≡ written (has_scope v) w (encoding v))
    → ((w : List ℕ) → f w ≡ written later w es)
    → (to_bson v (vec_push_c_string (w ++ (t ∷ [])) k) >>= f)
      ≡ written (has_scope v || later) w (t ∷ (name k ++ (encoding v ++ es)))
element t k v later w es f hv hf =
    let head = t ∷ name k in
    let here : ((w ++ (t ∷ [])) ++ k) ++ (0 ∷ []) ≡ w ++ head =
      assoc (w ++ (t ∷ [])) k (0 ∷ []) ∙ assoc w (t ∷ []) (k ++ (0 ∷ [])) in
    rw (here, hv (w ++ head))
      (written->>= (has_scope v) later (w ++ head) (encoding v) es f
          (hf ((w ++ head) ++ encoding v))
        ∙ ap (λ l. if has_scope v || later then panic else ok l) (assoc w head (encoding v ++ es)))

-- What is pushed in the frame of an array or a document.
framed :
    (scope : Bool) (w body : List ℕ)
    → (written scope (w ++ i32_to_bytes_le 0) body >>= λ w1. ok (close (length w) w1))
      ≡ written scope w (frame body)
framed true w body = refl
framed false w body = ap ok (close_lem w body)

append_nil : (w : List ℕ) → w ≡ w ++ []
append_nil [] = refl
append_nil (x ∷ w) = ap (λ l. x ∷ l) (append_nil w)

three : (w a b c : List ℕ) → ((w ++ a) ++ b) ++ c ≡ w ++ (a ++ (b ++ c))
three w a b c = assoc (w ++ a) b c ∙ assoc w a (b ++ c)

c_strings : (w s t : List ℕ) → vec_push_c_string (vec_push_c_string w s) t ≡ w ++ (name s ++ name t)
c_strings w s t =
    assoc (vec_push_c_string w s) t (0 ∷ [])
    ∙ ap (λ l. l ++ name t) (assoc w s (0 ∷ []))
    ∙ assoc w (name s) (name t)

mutual
  unfolding to_bson encoding has_scope

  value_written : (v : Value) (w : List ℕ) → to_bson v w ≡ written (has_scope v) w (encoding v)
  value_written (b_double f) w = refl
  value_written (b_string s) w = ap ok (three w (length_bytes (length s + 1)) s (0 ∷ []))
  value_written (b_int64 n) w = refl
  value_written (b_int32 n) w = refl
  value_written b_undefined w = ap ok (append_nil w)
  value_written (b_object_id a) w = refl
  value_written b_null w = ap ok (append_nil w)
  value_written (b_regex expr opt) w = ap ok (c_strings w expr opt)
  value_written (b_js_code s) w = ap ok (three w (length_bytes (length s + 1)) s (0 ∷ []))
  value_written (b_js_code_with_scope s scope) w = refl
  value_written (b_binary subtype ba) w =
      ap ok (three w (length_bytes (length ba)) (subtype ∷ []) ba)
  value_written b_min_key w = ap ok (append_nil w)
  value_written b_max_key w = ap ok (append_nil w)
  value_written (b_date_time n) w = refl
  value_written (b_time_stamp n) w = refl
  value_written (b_boolean b) w = ground arith
  value_written (b_array ba) w =
      rw (items_written ba 0 (w ++ i32_to_bytes_le 0))
        (framed (items_have_scope ba) w (items_encoding ba 0))
  value_written (b_document bd) w =
      rw (pairs_written bd (w ++ i32_to_bytes_le 0))
        (framed (pairs_have_scope bd) w (pairs_encoding bd))

  items_written :
      (ba : Array) (i : ℕ) (w : List ℕ)
      → push_items ba i w ≡ written (items_have_scope ba) w (items_encoding ba i)
  items_written no_items i w = ap ok (append_nil w)
  items_written (item v items) i w =
      element (get_type_number v) (decimal i) v (items_have_scope items) w
        (items_encoding items (i + 1)) (λ w1. push_items items (i + 1) w1) (value_written v)
        (items_written items (i + 1))

  pairs_written :
      (bd : Document) (w : List ℕ)
      → push_pairs bd w ≡ written (pairs_have_scope bd) w (pairs_encoding bd)
  pairs_written no_pairs w = ap ok (append_nil w)
  pairs_written (pair k v pairs) w =
      element (get_type_number v) k v (pairs_have_scope pairs) w (pairs_encoding pairs)
        (λ w1. push_pairs pairs w1) (value_written v) (pairs_written pairs)

-- `to_bson` of a value, an array or a document panics if there is code with a scope in it.
-- Otherwise it appends the encoding of the format, with every length that it writes over the
-- placeholder, and leaves the bytes before as they were.
pub to_bson_lem :
    (v : Value) (ba : Array) (bd : Document) (w : List ℕ)
    → (to_bson v w ≡ (if has_scope v then panic else ok (w ++ encoding v)))
      × (array_to_bson ba w
          ≡ (if items_have_scope ba then panic else ok (w ++ frame (items_encoding ba 0))))
      × (document_to_bson bd w
          ≡ (if pairs_have_scope bd then panic else ok (w ++ frame (pairs_encoding bd))))
unfolding array_to_bson document_to_bson to_bson has_scope encoding
to_bson_lem v ba bd w =
    (value_written v w, value_written (b_array ba) w, value_written (b_document bd) w)
