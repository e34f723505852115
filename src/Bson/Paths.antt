-- ===== src/Bson/Paths.antt =====
-- bson/src/lib.rs: `entry`, `set_path` and `unset_path`, which follow a path with dots into a
-- document or an array; `Entry`, `EntryFound` and `EntryAbsent`.
pub mod Parts
pub mod Follow
pub mod Stored
pub mod SetRead
pub mod Frame
mod Tests
use elmo.Common.{
  ℕ, zero, suc, ◌+◌, ◌-◌, ◌*◌, ◌^◌, ◌==◌, ltb, leb, Bool, true, false, ◌&&◌, if◌then◌else◌,
}
use elmo.Common.{Option, some, none, List, [], ◌∷◌}
use elmo.Common.Outcome.{Outcome, Error, ok, err, panic, ◌>>=◌}
use elmo.Bson.{Value, b_null, b_array, b_document, Array, no_items, item, Document, no_pairs, pair}
use elmo.Bson.Keys.{position, set, pair_at, remove_pair, insert_pair}

-- A path, cut at its dots: its last name, or a name and the path behind the dot.
pub data DottedPath : Type 0 where
  last : List ℕ → DottedPath
  dive : List ℕ → DottedPath → DottedPath

abbrev pub with_byte : ℕ → DottedPath → DottedPath
with_byte x (last name) = last (x ∷ name)
with_byte x (dive name subpath) = dive (x ∷ name) subpath

-- `path.find('.')` and the slices before and behind the dot, as far as there are dots.
unfoldable pub parse_path : List ℕ → DottedPath
parse_path [] = last []
parse_path (x ∷ bs) = let rest = parse_path bs in if x == 46 then dive [] rest else with_byte x rest

-- `name.parse::<usize>()`: an optional plus sign, and at least one digit.
unfoldable pub digits_value : List ℕ → ℕ → Option ℕ
digits_value [] n = some n
digits_value (x ∷ bs) n =
    let rest = digits_value bs (10 * n + (x - 48)) in if leb 48 x && leb x 57 then rest else none

abbrev pub below_limit : Option ℕ → Option ℕ
below_limit none = none
below_limit (some n) = if ltb n (2 ^ 64) then some n else none

unfoldable pub parse_usize : List ℕ → Option ℕ
parse_usize [] = none
parse_usize (x ∷ []) = below_limit (digits_value (x ∷ []) 0)
parse_usize (x ∷ y ∷ bs) =
    if x == 43
    then below_limit (digits_value (y ∷ bs) 0)
    else below_limit (digits_value (x ∷ y ∷ bs) 0)

-- The items of an array: `len`, `items[i]`, `items.remove(i)`, `items.insert(i, v)`, `items.push(v)`.
unfoldable pub items_len : Array → ℕ
items_len no_items = 0
items_len (item v items) = suc (items_len items)

unfoldable pub item_at : Array → ℕ → Outcome Value
item_at no_items i = panic
item_at (item v items) zero = ok v
item_at (item v items) (suc i) = item_at items i

unfoldable pub remove_item : Array → ℕ → Outcome (Value × Array)
remove_item no_items i = panic
remove_item (item v items) zero = ok (v, items)
remove_item (item v items) (suc i) = remove_item items i >>= λ (old, rest). ok (old, item v rest)

unfoldable pub insert_item : Array → ℕ → Value → Outcome Array
insert_item items zero v = ok (item v items)
insert_item no_items (suc i) v = panic
insert_item (item w items) (suc i) v = insert_item items i v >>= λ rest. ok (item w rest)

unfoldable pub push : Array → Value → Array
push no_items v = item v no_items
push (item w items) v = item w (push items v)

unfoldable pub push_nulls : ℕ → Array → Array
push_nulls zero ba = ba
push_nulls (suc n) ba = push_nulls n (push ba b_null)

-- `bd.pairs.push((k, v))`
unfoldable pub push_pair : Document → List ℕ → Value → Document
push_pair no_pairs k v = pair k v no_pairs
push_pair (pair ksub vsub pairs) k v = pair ksub vsub (push_pair pairs k v)

-- `EntryFound` and `EntryAbsent`, in one type as `Entry`.
pub data Entry : Type 0 where
  found_document_parent : Document → ℕ → Entry
  found_array_parent : Array → ℕ → Entry
  absent_document_parent : Document → List ℕ → Entry
  absent_array_parent : Array → ℕ → Entry
  absent_document_ancestor : Document → DottedPath → Entry
  absent_array_ancestor : Array → DottedPath → Entry

-- An entry refers to a part of the value that it was looked up in: `put_back` is what becomes of
-- that value when the part changes.
pub record Place : Type 0 where
  entry : Entry
  put_back : Value → Value

abbrev pub place : Entry → (Value → Value) → Place
place e back = record { entry = e; put_back = back }

-- A part that is written through a reference.
unfoldable pub write_pair : Document → ℕ → Value → Document
write_pair no_pairs i v = no_pairs
write_pair (pair k w pairs) zero v = pair k v pairs
write_pair (pair k w pairs) (suc i) v = pair k w (write_pair pairs i v)

unfoldable pub write_item : Array → ℕ → Value → Array
write_item no_items i v = no_items
write_item (item w items) zero v = item v items
write_item (item w items) (suc i) v = item w (write_item items i v)

abbrev pub is_container : Value → Bool
is_container (b_document bd) = true
is_container (b_array ba) = true
is_container _ = false

abbrev pub here : Entry → Outcome Place
here e = ok (place e (λ v. v))

-- `entry` of `Value`, with those of `Document` and `Array`.
unfoldable pub entry_at : DottedPath → Value → Outcome Place
entry_at (last name) (b_document bd) = elim (position bd name) [
  | some i ↦ here (found_document_parent bd i)
  | none ↦ here (absent_document_parent bd name)
]
entry_at (dive name subpath) (b_document bd) = elim (position bd name) [
  | some i ↦ pair_at bd i >>= λ (_, v).
      if is_container v
      then (entry_at subpath v >>= λ p.
          ok (place p.entry (λ part. b_document (write_pair bd i (p.put_back part)))))
      else err Error.misc
  | none ↦ here (absent_document_ancestor bd (dive name subpath))
]
entry_at (last name) (b_array ba) = elim (parse_usize name) [
  | some i ↦
      if ltb i (items_len ba)
      then here (found_array_parent ba i)
      else here (absent_array_parent ba i)
  | none ↦ err Error.misc
]
entry_at (dive name subpath) (b_array ba) = elim (parse_usize name) [
  | some i ↦
      if ltb i (items_len ba)
      then (item_at ba i >>= λ v.
          if is_container v
          then (entry_at subpath v >>= λ p.
              ok (place p.entry (λ part. b_array (write_item ba i (p.put_back part)))))
          else err Error.misc)
      else here (absent_array_ancestor ba (dive name subpath))
  | none ↦ err Error.misc
]
entry_at _ _ = panic

-- `Entry::Found(e)`, and `e.get()`.
unfoldable pub entry_get : Entry → Outcome (Option Value)
entry_get (found_document_parent bd i) = pair_at bd i >>= λ (_, v). ok (some v)
entry_get (found_array_parent ba i) = item_at ba i >>= λ v. ok (some v)
entry_get _ = ok none

-- The part after the call and what it returns, or its error.
abbrev pub Changed : Type 0 → Type 0
Changed A = Outcome (Value × Outcome A)

abbrev pub fine : {A : Type 0} → Value → A → Changed A
fine part a = ok (part, ok a)

-- `EntryFound::replace`
unfoldable pub replace : Entry → Value → Changed Value
replace (found_document_parent bd i) v = remove_pair bd i >>= λ ((k, old), rest).
    insert_pair rest i (k, v) >>= λ bd. fine (b_document bd) old
replace (found_array_parent ba i) v =
    remove_item ba i >>= λ (old, rest). insert_item rest i v >>= λ ba. fine (b_array ba) old
replace _ v = panic

-- `EntryFound::unset`
unfoldable pub unset : Entry → Changed Value
unset (found_document_parent bd i) =
    remove_pair bd i >>= λ ((_, old), rest). fine (b_document rest) old
unset (found_array_parent ba i) = replace (found_array_parent ba i) b_null
unset _ = panic

-- A new array or document, for a name that is an index or none.
abbrev pub fresh : Option ℕ → Value
fresh (some i) = b_array no_items
fresh none = b_document no_pairs

-- `EntryAbsent::insert`, given `set_path`.
unfoldable pub insert :
    (DottedPath → Value → Value → Changed (Unit {0})) → Entry → Value → Changed (Unit {0})
insert set_sub (absent_document_parent bd k) v = fine (b_document (push_pair bd k v)) tt
insert set_sub (absent_array_parent ba i) v =
    if ltb 1500000 i
    then ok (b_array ba, err Error.misc)
    else fine (b_array (push (push_nulls (i - items_len ba) ba) v)) tt
insert set_sub (absent_document_ancestor bd (dive name subpath)) v =
    set_sub subpath v (fresh (parse_usize name)) >>= λ (sub, result).
    ok (b_document (set bd name sub), result)
insert set_sub (absent_array_ancestor ba path) v = ok (b_array ba, err Error.misc)
insert set_sub _ v = panic

-- How often the path can be followed.
unfoldable pub names : DottedPath → ℕ
names (last name) = 1
names (dive name subpath) = suc (names subpath)

unfoldable pub set_entry :
    (DottedPath → Value → Value → Changed (Unit {0})) → Entry → Value → Changed (Unit {0})
set_entry set_sub (found_document_parent bd i) v =
    replace (found_document_parent bd i) v >>= λ (part, old). fine part tt
set_entry set_sub (found_array_parent ba i) v =
    replace (found_array_parent ba i) v >>= λ (part, old). fine part tt
set_entry set_sub e v = insert set_sub e v

-- `set_path` of `Value`, `Document` and `Array`, on fuel.
unfoldable pub set_path_by : ℕ → DottedPath → Value → Value → Changed (Unit {0})
set_path_by zero path v self = panic
set_path_by (suc fuel) path v self = elim (entry_at path self) [
  | ok p ↦ set_entry (set_path_by fuel) p.entry v >>= λ (part, result). ok (p.put_back part, result)
  | err e ↦ ok (self, err e)
  | panic ↦ panic
]

unfoldable pub set_path : List ℕ → Value → Value → Changed (Unit {0})
set_path path v self = set_path_by (names (parse_path path)) (parse_path path) v self

-- The entry of `self`, with what its part is put back into.
unfoldable pub unset_entry : Value → (Value → Value) → Entry → Changed (Option Value)
unset_entry self put_back (found_document_parent bd i) =
    unset (found_document_parent bd i) >>= λ (part, old).
    ok (put_back part, old >>= λ v. ok (some v))
unset_entry self put_back (found_array_parent ba i) =
    unset (found_array_parent ba i) >>= λ (part, old). ok (put_back part, old >>= λ v. ok (some v))
unset_entry self put_back _ = fine self none

-- `unset_path` of `Value`, `Document` and `Array`
unfoldable pub unset_path : List ℕ → Value → Changed (Option Value)
unset_path path self = elim (entry_at (parse_path path) self) [
  | ok p ↦ unset_entry self p.put_back p.entry
  | err e ↦ ok (self, err e)
  | panic ↦ panic
]
