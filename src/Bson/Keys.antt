-- ===== src/Bson/Keys.antt =====
-- bson/src/lib.rs: `Document` as a list of pairs, and the checks on documents before they are
-- stored.
pub mod Lookup
pub mod Distinct
pub mod Id
mod Tests
use elmo.Common.{ℕ, zero, suc, ◌+◌, ◌==◌, ltb, Bool, true, false, ◌&&◌, ◌||◌, if◌then◌else◌}
use elmo.Common.{Option, some, none, List, [], ◌∷◌}
use elmo.Common.Outcome.{Outcome, Error, ok, err, panic, ◌>>=◌, ◌>>◌}
use elmo.Bson.{
  Value, b_array, b_document, b_undefined, Array, no_items, item, Document, no_pairs, pair,
}
use elmo.Bson.Encode.{bytes_equal}

unfoldable pub len : Document → ℕ
len no_pairs = 0
len (pair k v pairs) = suc (len pairs)

unfoldable pub get : Document → List ℕ → Option Value
get no_pairs k = none
get (pair ksub vsub pairs) k =
    let rest = get pairs k in if bytes_equal ksub k then some vsub else rest

abbrev pub later : Option ℕ → Option ℕ
later none = none
later (some i) = some (suc i)

-- `Document::position`, and `iter().position(|&(ref ksub, _)| ksub == k)`
unfoldable pub position : Document → List ℕ → Option ℕ
position no_pairs k = none
position (pair ksub vsub pairs) k =
    let rest = later (position pairs k) in if bytes_equal ksub k then some 0 else rest

unfoldable pub set : Document → List ℕ → Value → Document
set no_pairs k v = pair k v no_pairs
set (pair ksub vsub pairs) k v =
    let rest = pair ksub vsub (set pairs k v) in
    if bytes_equal ksub k then pair ksub v pairs else rest

-- `self.pairs[i]`, `self.pairs.remove(i)` and `self.pairs.insert(i, t)`
unfoldable pub pair_at : Document → ℕ → Outcome (List ℕ × Value)
pair_at no_pairs i = panic
pair_at (pair k v pairs) zero = ok (k, v)
pair_at (pair k v pairs) (suc i) = pair_at pairs i

unfoldable pub remove_pair : Document → ℕ → Outcome ((List ℕ × Value) × Document)
remove_pair no_pairs i = panic
remove_pair (pair k v pairs) zero = ok ((k, v), pairs)
remove_pair (pair k v pairs) (suc i) = remove_pair pairs i >>= λ (t, rest). ok (t, pair k v rest)

unfoldable pub insert_pair : Document → ℕ → List ℕ × Value → Outcome Document
insert_pair bd zero (k, v) = ok (pair k v bd)
insert_pair no_pairs (suc i) t = panic
insert_pair (pair k v pairs) (suc i) t = insert_pair pairs i t >>= λ rest. ok (pair k v rest)

-- The new document, and the value that was there.
unfoldable pub remove : Document → List ℕ → Outcome (Document × Option Value)
remove bd k = elim (position bd k) [
  | some i ↦ remove_pair bd i >>= λ ((_, v), rest). ok (rest, some v)
  | none ↦ ok (bd, none)
]

unfoldable pub must_get : Document → List ℕ → Outcome Value
must_get bd k = elim (get bd k) [ some v ↦ ok v | none ↦ err Error.misc ]

unfoldable pub must_remove : Document → List ℕ → Outcome (Document × Value)
must_remove bd k =
    remove bd k >>= λ (rest, old). elim old [ some v ↦ ok (rest, v) | none ↦ err Error.misc ]

-- "_id", "$ref", "$id" and "$db"
abbrev pub id_key : List ℕ
id_key = 95 ∷ 105 ∷ 100 ∷ []

abbrev dollar_ref : List ℕ
dollar_ref = 36 ∷ 114 ∷ 101 ∷ 102 ∷ []

abbrev dollar_id : List ℕ
dollar_id = 36 ∷ 105 ∷ 100 ∷ []

abbrev dollar_db : List ℕ
dollar_db = 36 ∷ 100 ∷ 98 ∷ []

-- With the identifier that `misc::new_bson_objectid_rand` returns.
unfoldable pub ensure_id : List ℕ → Document → Document
ensure_id rand bd = elim (get bd id_key) [
  | some _ ↦ bd
  | none ↦ set bd id_key (Value.b_object_id rand)
]

abbrev is_some : {A : Type 0} → Option A → Bool
is_some none = false
is_some (some a) = true

-- `slice_find(&self.pairs, s).is_some()`
unfoldable pub has_key : Document → List ℕ → Bool
has_key bd k = is_some (position bd k)

unfoldable pub is_dbref : Document → Bool
is_dbref bd =
    let has_ref = has_key bd dollar_ref in
    let has_id = has_key bd dollar_id in
    let has_db = has_key bd dollar_db in
    if len bd == 2 && (has_ref && has_id)
    then true
    else if len bd == 3 && (has_ref && (has_id && has_db))
    then true
    else false

abbrev pub is_array : Value → Bool
is_array (b_array _) = true
is_array _ = false

abbrev pub is_undefined : Value → Bool
is_undefined b_undefined = true
is_undefined _ = false

-- The new document, with the identifier in front, and the identifier.
unfoldable pub validate_id : Document → Outcome (Document × Value)
validate_id bd = elim (position bd id_key) [
  | some i ↦ pair_at bd i >>= λ (_, v).
      if is_array v
      then err Error.misc
      else if is_undefined v
      then err Error.misc
      else if i == 0
      then (pair_at bd 0 >>= λ (_, first). ok (bd, first))
      else (remove_pair bd i >>= λ (t, rest).
          insert_pair rest 0 t >>= λ moved. pair_at moved 0 >>= λ (_, first). ok (moved, first))
  | none ↦ err Error.misc
]
