-- ===== src/Bson/Keys/Tests.antt =====
-- Runs of the operations on documents, and the theorems at concrete inputs.
use elmo.Common.{◌+◌, ◌≡◌, refl, leb, [], ◌∷◌, some, none, true, false, if◌then◌else◌, ◌||◌}
use elmo.Common.Outcome.{Error, ok, err, Succeeds}
use elmo.Bson.{
  Value, b_int32, b_null, b_undefined, b_array, b_document, no_items, item, Document, no_pairs,
  pair,
}
use elmo.Bson.Encode.{bytes_equal}
use elmo.Bson.Keys.{
  get, set, remove, position, remove_pair, validate_id, is_dbref, ensure_id, id_key, is_array,
  is_undefined, has_key, len,
}
use elmo.Bson.Keys.Lookup.{IsDistinct, without}
use elmo.Bson.Keys.Distinct.{map_lem}
use elmo.Bson.Keys.Id.{validate_id_lem}
use elmo.Bson.Nesting.{
  validate_depth, array_validate_depth, pairs_nesting, items_nesting, validate_depth_lem,
}

-- { a: 7, _id: 5 }
abbrev sample : Document
sample = pair (97 ∷ []) (b_int32 7) (pair id_key (b_int32 5) no_pairs)

-- { b: [ { a: 7, _id: 5 } ] }
abbrev nested : Document
nested = pair (98 ∷ []) (b_array (item (b_document sample) no_items)) no_pairs

id_moves :
    validate_id sample
    ≡ ok (pair id_key (b_int32 5) (pair (97 ∷ []) (b_int32 7) no_pairs), b_int32 5)
unfolding validate_id position bytes_equal elmo.Bson.Keys.pair_at remove_pair
    elmo.Bson.Keys.insert_pair
id_moves = refl

undefined_id : validate_id (pair id_key b_undefined no_pairs) ≡ err Error.misc
unfolding validate_id position bytes_equal elmo.Bson.Keys.pair_at
undefined_id = refl

ensured : ensure_id (1 ∷ []) sample ≡ sample
unfolding ensure_id get bytes_equal
ensured = refl

no_dbref : is_dbref sample ≡ false
unfolding is_dbref len has_key position bytes_equal
no_dbref = refl

dbref :
    is_dbref (pair (36 ∷ 114 ∷ 101 ∷ 102 ∷ []) b_null (pair (36 ∷ 105 ∷ 100 ∷ []) b_null no_pairs))
    ≡ true
unfolding is_dbref len has_key position bytes_equal
dbref = refl

two_deep : (validate_depth nested 0 2 ≡ ok tt) × (validate_depth nested 0 1 ≡ err Error.misc)
unfolding validate_depth elmo.Bson.Nesting.part_depth
two_deep = (refl, refl)

map_example :
    (get (set sample (97 ∷ []) b_null) id_key
      ≡ (if bytes_equal (97 ∷ []) id_key then some b_null else get sample id_key))
    × IsDistinct (set sample (97 ∷ []) b_null)
    × Succeeds (remove sample (97 ∷ [])) (λ (rest, old).
      (old ≡ get sample (97 ∷ []))
      × IsDistinct rest
      × (get rest id_key ≡ (if bytes_equal (97 ∷ []) id_key then none else get sample id_key)))
unfolding IsDistinct get bytes_equal
map_example = map_lem sample (97 ∷ []) b_null id_key (refl, (refl, tt))

validate_id_example : validate_id sample ≡ elim (get sample id_key) [
  | none ↦ err Error.misc
  | some v ↦
      if is_array v || is_undefined v
      then err Error.misc
      else ok (pair id_key v (without sample id_key), v)
]
validate_id_example = validate_id_lem sample

validate_depth_example :
    (validate_depth nested 1 3
      ≡ (if leb (1 + pairs_nesting nested) 3 then ok tt else err Error.misc))
    × (array_validate_depth (item b_null no_items) 1 3
        ≡ (if leb (1 + items_nesting (item b_null no_items)) 3 then ok tt else err Error.misc))
validate_depth_example = validate_depth_lem nested (item b_null no_items) 1 3
