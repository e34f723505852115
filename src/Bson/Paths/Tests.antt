-- ===== src/Bson/Paths/Tests.antt =====
-- Runs of `set_path` and `unset_path`, and the theorem at a concrete input.
use elmo.Common.{ℕ, ◌≡◌, refl, List, [], ◌∷◌, some, none}
use elmo.Common.Outcome.{Error, ok, err, Succeeds}
use elmo.Bson.{
  Value, b_int32, b_null, b_array, b_document, no_items, item, Document, no_pairs, pair,
}
use elmo.Bson.Paths.{DottedPath, last, dive, parse_path, parse_usize, set_path, unset_path}
use elmo.Bson.Encode.{bytes_equal}
use elmo.Bson.Paths.Frame.{set_path-get, HasStill, first_name}
use elmo.Bson.Paths.Stored.{IsStored}
use elmo.Bson.Paths.SetRead.{set_path_lem}

abbrev a_key : List ℕ
a_key = 97 ∷ []

-- "a.2"
abbrev a_two : List ℕ
a_two = 97 ∷ 46 ∷ 50 ∷ []

-- { a: [ 7 ] }
abbrev sample : Value
sample = b_document (pair a_key (b_array (item (b_int32 7) no_items)) no_pairs)

parse_a_two : parse_path a_two ≡ dive a_key (last (50 ∷ []))
unfolding parse_path
parse_a_two = refl

parse_numbers :
    (parse_usize (43 ∷ 49 ∷ 50 ∷ []) ≡ some 12)
    × (parse_usize (43 ∷ []) ≡ none)
    × (parse_usize (49 ∷ 97 ∷ []) ≡ none)
unfolding parse_usize elmo.Bson.Paths.digits_value
parse_numbers = (refl, refl, refl)

-- An array is filled up with nulls.
set_item :
    set_path a_two (b_int32 5) sample
    ≡ ok (
      b_document (
          pair a_key
            (b_array (item (b_int32 7) (item b_null (item (b_int32 5) no_items))))
            no_pairs),
      ok tt,
    )
unfolding set_path elmo.Bson.Paths.set_path_by elmo.Bson.Paths.names parse_path
    elmo.Bson.Paths.entry_at elmo.Bson.Keys.position elmo.Bson.Encode.bytes_equal
    elmo.Bson.Keys.pair_at parse_usize elmo.Bson.Paths.digits_value elmo.Bson.Paths.items_len
    elmo.Bson.Paths.set_entry elmo.Bson.Paths.insert elmo.Bson.Paths.write_pair elmo.Bson.Paths.push
    elmo.Bson.Paths.push_nulls
set_item = refl

-- A document is made for a name that is not there.
set_in_empty :
    set_path a_two (b_int32 5) (b_document no_pairs)
    ≡ ok
        (b_document (pair a_key (b_document (pair (50 ∷ []) (b_int32 5) no_pairs)) no_pairs), ok tt)
unfolding set_path elmo.Bson.Paths.set_path_by elmo.Bson.Paths.names parse_path
    elmo.Bson.Paths.entry_at elmo.Bson.Keys.position elmo.Bson.Paths.set_entry
    elmo.Bson.Paths.insert parse_usize elmo.Bson.Paths.digits_value elmo.Bson.Keys.set
    elmo.Bson.Paths.push_pair
set_in_empty = refl

-- "5.a": an array is made for a name that is a number, the next name is no index of it, and the
-- empty array stays.
set_below_number :
    set_path (53 ∷ 46 ∷ 97 ∷ []) (b_int32 5) (b_document no_pairs)
    ≡ ok (b_document (pair (53 ∷ []) (b_array no_items) no_pairs), err Error.misc)
unfolding set_path elmo.Bson.Paths.set_path_by elmo.Bson.Paths.names parse_path
    elmo.Bson.Paths.entry_at elmo.Bson.Keys.position elmo.Bson.Paths.set_entry
    elmo.Bson.Paths.insert parse_usize elmo.Bson.Paths.digits_value elmo.Bson.Keys.set
set_below_number = refl

unset_item :
    unset_path (97 ∷ 46 ∷ 48 ∷ []) sample
    ≡ ok (b_document (pair a_key (b_array (item b_null no_items)) no_pairs), ok (some (b_int32 7)))
unfolding unset_path elmo.Bson.Paths.entry_at parse_path elmo.Bson.Keys.position
    elmo.Bson.Encode.bytes_equal elmo.Bson.Keys.pair_at parse_usize elmo.Bson.Paths.digits_value
    elmo.Bson.Paths.items_len elmo.Bson.Paths.unset_entry elmo.Bson.Paths.unset
    elmo.Bson.Paths.replace elmo.Bson.Paths.remove_item elmo.Bson.Paths.insert_item
    elmo.Bson.Paths.write_pair
unset_item = refl

unset_key :
    unset_path a_key sample
    ≡ ok (b_document no_pairs, ok (some (b_array (item (b_int32 7) no_items))))
unfolding unset_path elmo.Bson.Paths.entry_at parse_path elmo.Bson.Keys.position
    elmo.Bson.Encode.bytes_equal elmo.Bson.Paths.unset_entry elmo.Bson.Paths.unset
    elmo.Bson.Keys.remove_pair
unset_key = refl

unset_absent : unset_path (98 ∷ []) sample ≡ ok (sample, ok none)
unfolding unset_path elmo.Bson.Paths.entry_at parse_path elmo.Bson.Keys.position
    elmo.Bson.Encode.bytes_equal elmo.Bson.Paths.unset_entry
unset_absent = refl

set_path_example :
    Succeeds (set_path a_two (b_int32 5) sample) (IsStored (parse_path a_two) (b_int32 5))
set_path_example = set_path_lem a_two (b_int32 5) sample refl

set_path-get_example :
    Succeeds
      (set_path a_two
        (b_int32 5)
        (b_document (pair a_key (b_array no_items) (pair (98 ∷ []) b_null no_pairs))))
      (λ (self, _).
        HasStill (pair a_key (b_array no_items) (pair (98 ∷ []) b_null no_pairs)) (98 ∷ []) self)
unfolding parse_path first_name bytes_equal
set_path-get_example =
    set_path-get a_two (b_int32 5) (pair a_key (b_array no_items) (pair (98 ∷ []) b_null no_pairs))
      (98 ∷ []) refl
