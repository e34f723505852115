-- ===== src/Lsm/MultiCursor/Tests.antt =====
-- A cursor over two lists, and the theorems on it.
use elmo.Common.{ℕ, ◌≡◌, refl, ap, arith, Bool, false, List, [], ◌∷◌, Option, none, some}
use elmo.Common.Outcome.{Outcome, ok, err, cursor_not_valid, Succeeds}
use elmo.Lsm.Bcmp.{compare_bytes}
use elmo.Lsm.KeyRef.{KeyRef, into_boxed_slice}
use elmo.Lsm.Cursor.{Cursor, ValueRef, tombstone, greater_or_equal}
use elmo.Lsm.Cursor.Forward.{
  Entry, IsSorted, is_tombstone, is_some_entry, from_key, result_at, Forward,
}
use elmo.Lsm.Cursor.Run.{run, rest_of, forward_of}
use elmo.Lsm.LivingCursor.{living}
use elmo.Lsm.MultiCursor.Sort.{Slot, sort_slots}
use elmo.Lsm.MultiCursor.Sort.Sift.{any_slot}
use elmo.Lsm.MultiCursor.Sort.Sorted.{IsAscending, sort_slots_lem}
use elmo.Lsm.MultiCursor.Merged.{merged}
use elmo.Lsm.MultiCursor.Shown.{Source, ShowsAll}
use elmo.Lsm.MultiCursor.{multi, new, seek}
use elmo.Lsm.MultiCursor.Loops.{run-multi, multi_seek_run, multi-living}

abbrev entry : List ℕ → ValueRef → Entry
entry k v = record { bytes = k; stored = v }

abbrev number : ℕ → ValueRef
number n = ValueRef.slice (n ∷ [])

-- The newer entries hide two of the older ones, and delete one of these.
abbrev newer : List Entry
newer = entry (1 ∷ []) (number 7) ∷ entry (2 ∷ []) tombstone ∷ []

abbrev older : List Entry
older = entry (1 ∷ []) (number 9) ∷ entry (2 ∷ []) (number 8) ∷ entry (3 ∷ []) (number 5) ∷ []

newer-IsSorted : IsSorted newer
unfolding compare_bytes
newer-IsSorted = ((refl, tt), (tt, tt))

older-IsSorted : IsSorted older
unfolding compare_bytes
older-IsSorted = ((refl, (refl, tt)), ((refl, tt), (tt, tt)))

-- A cursor is all its entries, and those that it has still to give.
abbrev ListCursor : Type 0
ListCursor = List Entry × List Entry

abbrev head_key : List Entry → Outcome KeyRef
head_key [] = err cursor_not_valid
head_key (e ∷ es) = ok (KeyRef.slice e.bytes)

abbrev head_value : List Entry → Outcome ValueRef
head_value [] = err cursor_not_valid
head_value (e ∷ es) = ok e.stored

abbrev head_is_tombstone : List Entry → Outcome Bool
head_is_tombstone [] = err cursor_not_valid
head_is_tombstone (e ∷ es) = ok (is_tombstone e.stored)

abbrev tail : List Entry → List Entry → Outcome ListCursor
tail all [] = err cursor_not_valid
tail all (e ∷ es) = ok (all, es)

abbrev list_cursor : Cursor ListCursor
list_cursor = record {
  first = λ c. ok (c.0, c.0);
  next = λ c. tail c.0 c.1;
  is_valid = λ c. is_some_entry c.1;
  key = λ c. head_key c.1;
  value = λ c. head_value c.1;
  value_is_tombstone = λ c. head_is_tombstone c.1;
  seek = λ c k sop.
      let es = from_key (into_boxed_slice k) c.0 in
      ok ((c.0, es), result_at (into_boxed_slice k) es);
  last = λ c. err cursor_not_valid;
  prev = λ c. err cursor_not_valid;
}

list_forward : (all : List Entry) → Forward list_cursor all
list_forward all = record {
  Shows = λ c es. (c.0 ≡ all) × (c.1 ≡ es);
  is_valid-Shows = λ c es s. ap is_some_entry s.1;
  key-Shows = λ c e es s. (let z = s.1 in rw z refl);
  value-Shows = λ c e es s. ap head_value s.1;
  value_is_tombstone-Shows = λ c e es s. ap head_is_tombstone s.1;
  next-Shows = λ c e es s. (let z = s.1 in rw z (s.0, refl));
  first-Shows = λ c es s. (s.0, s.0);
  seek-Shows = λ c es k s. (
    (s.0, ap (from_key (into_boxed_slice k)) s.0),
    ap (λ a. result_at (into_boxed_slice k) (from_key (into_boxed_slice k) a)) s.0,
  );
}

abbrev sources : List (Source list_cursor)
sources =
    record { entries = newer; forward = list_forward newer; sorted = newer-IsSorted }
    ∷ record { entries = older; forward = list_forward older; sorted = older-IsSorted }
    ∷ []

abbrev cursors : List ListCursor
cursors = (newer, []) ∷ (older, []) ∷ []

cursors-ShowsAll : ShowsAll list_cursor sources cursors ([] ∷ [] ∷ [])
unfolding list_forward
cursors-ShowsAll = ((refl, refl), tt, ((refl, refl), tt, tt))

-- The merged entries, and those that are alive.
run-multi_example :
    run (forward_of (multi list_cursor)) 9 (new cursors)
    ≡ ok (entry (1 ∷ []) (number 7) ∷ entry (2 ∷ []) tombstone ∷ entry (3 ∷ []) (number 5) ∷ [])
unfolding compare_bytes
run-multi_example =
    run-multi list_cursor sources cursors ([] ∷ [] ∷ []) 9 (omega arith) cursors-ShowsAll

multi-living_example :
    run (forward_of (living (multi list_cursor) 9)) 9 (record { chain = new cursors; skipped = 0 })
    ≡ ok (entry (1 ∷ []) (number 7) ∷ entry (3 ∷ []) (number 5) ∷ [])
unfolding compare_bytes
multi-living_example =
    multi-living list_cursor sources cursors ([] ∷ [] ∷ []) 9 (omega arith) cursors-ShowsAll

multi_seek_run_example :
    Succeeds (seek list_cursor (new cursors) (KeyRef.slice (2 ∷ [])) greater_or_equal) λ r.
      (rest_of (forward_of (multi list_cursor)) 9 r.0
        ≡ ok (from_key (2 ∷ []) (merged (newer ∷ older ∷ []))))
      × (r.1 ≡ result_at (2 ∷ []) (from_key (2 ∷ []) (merged (newer ∷ older ∷ []))))
unfolding compare_bytes
multi_seek_run_example =
    multi_seek_run list_cursor sources cursors ([] ∷ [] ∷ []) 9 (KeyRef.slice (2 ∷ []))
      (omega arith) cursors-ShowsAll

-- Three cursors, of which the last is not valid.
abbrev three_keys : List (Option KeyRef)
three_keys = some (KeyRef.slice (4 ∷ [])) ∷ some (KeyRef.slice (3 ∷ [])) ∷ none ∷ []

abbrev three_slots : List Slot
three_slots = (2, none) ∷ (0, none) ∷ (1, none) ∷ []

sort_slots_example :
    Succeeds
      (sort_slots false three_keys three_slots)
      λ r. IsAscending three_keys r × ((P : ℕ → Bool) → any_slot P r ≡ any_slot P three_slots)
sort_slots_example = sort_slots_lem three_keys three_slots refl (ground arith)
