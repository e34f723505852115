-- ===== src/Bson/Codec.antt =====
-- bson/src/lib.rs: `to_bson` and `from_bson` together, and equality of values by their encodings.
use elmo.Common.{ℕ, suc, ◌+◌, ◌≤◌, ◌≡◌, ◌∙◌, refl, ap, arith, false}
use elmo.Common.{if◌then◌else◌, List, [], ◌∷◌, ◌++◌, length, length-append, drop-append}
use elmo.Common.Outcome.{ok, panic}
use elmo.Bson.{
  Value, b_null, b_js_code_with_scope, b_array, b_document, Array, no_items, item, Document,
  no_pairs, pair,
}
use elmo.Bson.Encode.{document_to_bson, document_to_bson_array}
use elmo.Bson.Encode.Written.{to_bson_lem}
use elmo.Bson.Decode.{
  Slurped, slurped, utf8_error, panicked, out_of_fuel, slurp_pairs, from_bson, slurp_document,
}
use elmo.Bson.Decode.Reads.{At, Reads}
use elmo.Bson.Decode.RoundTrip.{document-Reads}
use elmo.Bson.Format.{pairs_encoding, frame, has_scope, items_have_scope, pairs_have_scope}
use elmo.Bson.Valid.{IsValid, IsValidArray, IsValidDocument}

mutual
  unfolding has_scope IsValid

  pub no_scope : (v : Value) → IsValid v → has_scope v ≡ false
  no_scope (b_js_code_with_scope s scope) h = absurd h
  no_scope (b_array ba) h = items_no_scope ba h
  no_scope (b_document bd) h = pairs_no_scope bd h
  no_scope _ h = refl

  items_no_scope : (ba : Array) → IsValidArray ba → items_have_scope ba ≡ false
  items_no_scope no_items h = refl
  items_no_scope (item v items) (hv, hs) = rw (no_scope v hv) (items_no_scope items hs)

  pairs_no_scope : (bd : Document) → IsValidDocument bd → pairs_have_scope bd ≡ false
  pairs_no_scope no_pairs h = refl
  pairs_no_scope (pair k v pairs) (hk, (hv, hs)) = rw (no_scope v hv) (pairs_no_scope pairs hs)

-- Where the cursor is when the bytes before the rest have been read.
Reads-is :
    {A : Type 0} (o : Slurped A) (v : A) (ba rest : List ℕ) (n : ℕ)
    → Reads o v ba rest
    → n + length rest ≡ length ba
    → o ≡ slurped v n
Reads-is (slurped a j) v ba rest n (e, (len, at)) h =
    let same : j ≡ n = omega arith in ap (λ z. slurped z j) e ∙ ap (slurped v) same
Reads-is utf8_error v ba rest n h k = absurd h
Reads-is panicked v ba rest n h k = absurd h
Reads-is out_of_fuel v ba rest n h k = absurd h

pub append_nil : (xs : List ℕ) → xs ≡ xs ++ []
append_nil [] = refl
append_nil (x ∷ xs) = ap (λ l. x ∷ l) (append_nil xs)

-- The same for `to_bson_array` and `from_bson`.
from_bson-to_bson_array :
    (bd : Document)
    → IsValidDocument bd
    → (document_to_bson_array bd ≡ ok (frame (pairs_encoding bd)))
      × (from_bson (frame (pairs_encoding bd)) ≡ slurped bd (length (frame (pairs_encoding bd))))
unfolding document_to_bson_array from_bson
from_bson-to_bson_array bd h =
    let e = frame (pairs_encoding bd) in
    let (value, array, document) = to_bson_lem b_null no_items bd [] in
    (
      document ∙ ap (λ b. if b then panic else ok e) (pairs_no_scope bd h),
      Reads-is (slurp_document (slurp_pairs (suc (length e))) e 0) bd e [] (length e)
          (document-Reads bd (suc (length e)) e 0 [] h (omega arith)
            (omega (arith, length-append e []), append_nil e))
          (omega arith),
    )

-- A document of valid values is written without a panic, behind the bytes that are there. Whatever
-- bytes follow, `slurp_document` at that place, with at least as much fuel as it has bytes, returns
-- the same document and moves past exactly what was written. What `to_bson_array` makes of it,
-- `from_bson` turns back into the document.
pub slurp_document-to_bson :
    (bd : Document) (w rest : List ℕ) (fuel : ℕ)
    → IsValidDocument bd
    → length (frame (pairs_encoding bd)) ≤ fuel
    → (document_to_bson bd w ≡ ok (w ++ frame (pairs_encoding bd)))
      × (slurp_document (slurp_pairs fuel) (w ++ (frame (pairs_encoding bd) ++ rest)) (length w)
          ≡ slurped bd (length w + length (frame (pairs_encoding bd))))
      × (document_to_bson_array bd ≡ ok (frame (pairs_encoding bd)))
      × (from_bson (frame (pairs_encoding bd)) ≡ slurped bd (length (frame (pairs_encoding bd))))
slurp_document-to_bson bd w rest fuel h small =
    let e = frame (pairs_encoding bd) in
    let (value, array, document) = to_bson_lem b_null no_items bd w in
    let ba = w ++ (e ++ rest) in
    let at : At ba (length w) (e ++ rest) =
      (omega (arith, length-append w (e ++ rest)), drop-append w (e ++ rest) (length w) refl) in
    (
      document ∙ ap (λ b. if b then panic else ok (w ++ e)) (pairs_no_scope bd h),
      Reads-is (slurp_document (slurp_pairs fuel) ba (length w)) bd ba rest (length w + length e)
          (document-Reads bd fuel ba (length w) rest h small at)
          (omega (arith, length-append w (e ++ rest), length-append e rest)),
      (from_bson-to_bson_array bd h).0,
      (from_bson-to_bson_array bd h).1,
    )
