-- ===== src/Lsm/LivingCursor/Tests.antt =====
-- A cursor over a list, and the theorems on cursors at concrete inputs.
use elmo.Common.{ℕ, ◌≡◌, refl, arith, Bool, List, [], ◌∷◌}
use elmo.Common.Outcome.{Outcome, ok, err, cursor_not_valid, Succeeds}
use elmo.Lsm.Bcmp.{compare_bytes}
use elmo.Lsm.KeyRef.{KeyRef, into_boxed_slice, prefixed}
use elmo.Lsm.Cursor.{Cursor, ValueRef, tombstone, greater_or_equal}
use elmo.Lsm.Cursor.Forward.{
  Entry, IsSorted, is_tombstone, is_some_entry, from_key, result_at, Forward,
}
use elmo.Lsm.Cursor.Run.{run, rest_of, forward_of}
use elmo.Lsm.LivingCursor.{LivingCursor, living, seek}
use elmo.Lsm.LivingCursor.Walk.{alive}
use elmo.Lsm.LivingCursor.Loops.{run-living, living_seek_run, range_living, prefix_living}
use elmo.Lsm.RangeCursor.{RangeCursor, range_cursor, OpGt, OpLt}
use elmo.Lsm.RangeCursor.Walk.{in_range}
use elmo.Lsm.PrefixCursor.{PrefixCursor, prefix_cursor}
use elmo.Lsm.PrefixCursor.Walk.{with_prefix}

abbrev entry : List ℕ → ValueRef → Entry
entry k v = record { bytes = k; stored = v }

abbrev all : List Entry
all =
    entry (1 ∷ []) (ValueRef.slice (7 ∷ []))
    ∷ entry (1 ∷ 2 ∷ []) tombstone
    ∷ entry (1 ∷ 3 ∷ []) (ValueRef.slice (8 ∷ []))
    ∷ entry (2 ∷ []) (ValueRef.slice [])
    ∷ []

all-IsSorted : IsSorted all
unfolding compare_bytes
all-IsSorted = ((refl, (refl, (refl, tt))), ((refl, (refl, tt)), ((refl, tt), (tt, tt))))

-- The cursor is the list of what it has still to give. It only goes forward.
abbrev head_key : List Entry → Outcome KeyRef
head_key [] = err cursor_not_valid
head_key (e ∷ es) = ok (KeyRef.slice e.bytes)

abbrev head_value : List Entry → Outcome ValueRef
head_value [] = err cursor_not_valid
head_value (e ∷ es) = ok e.stored

abbrev head_is_tombstone : List Entry → Outcome Bool
head_is_tombstone [] = err cursor_not_valid
head_is_tombstone (e ∷ es) = ok (is_tombstone e.stored)

abbrev tail : List Entry → Outcome (List Entry)
tail [] = err cursor_not_valid
tail (e ∷ es) = ok es

abbrev list_cursor : Cursor (List Entry)
list_cursor = record {
  first = λ c. ok all;
  next = tail;
  is_valid = is_some_entry;
  key = head_key;
  value = head_value;
  value_is_tombstone = head_is_tombstone;
  seek = λ c k sop.
      let es = from_key (into_boxed_slice k) all in ok (es, result_at (into_boxed_slice k) es);
  last = λ c. err cursor_not_valid;
  prev = λ c. err cursor_not_valid;
}

abbrev list_forward : Forward list_cursor all
list_forward = record {
  Shows = λ c es. c ≡ es;
  is_valid-Shows = λ c es s. rw s refl;
  key-Shows = λ c e es s. rw s refl;
  value-Shows = λ c e es s. rw s refl;
  value_is_tombstone-Shows = λ c e es s. rw s refl;
  next-Shows = λ c e es s. rw s refl;
  first-Shows = λ c es s. refl;
  seek-Shows = λ c es k s. (refl, refl);
}

abbrev fresh : LivingCursor (List Entry)
fresh = record { chain = []; skipped = 0 }

run-living_example : run (forward_of (living list_cursor 5)) 5 fresh ≡ ok (alive all)
run-living_example = run-living list_cursor all list_forward 5 (omega arith) all-IsSorted fresh refl

living_seek_run_example :
    Succeeds (seek list_cursor 5 fresh (prefixed (1 ∷ []) (2 ∷ [])) greater_or_equal) λ r.
      (rest_of (forward_of (living list_cursor 5)) 5 r.0 ≡ ok (from_key (1 ∷ 2 ∷ []) (alive all)))
      × (r.1 ≡ result_at (1 ∷ 2 ∷ []) (from_key (1 ∷ 2 ∷ []) (alive all)))
living_seek_run_example =
    living_seek_run list_cursor all list_forward 5 (omega arith) all-IsSorted fresh
      (prefixed (1 ∷ []) (2 ∷ [])) refl

abbrev ranged : RangeCursor (LivingCursor (List Entry))
ranged = record {
  chain = fresh;
  min = record { k = 1 ∷ []; cmp = OpGt.gt };
  max = record { k = 2 ∷ []; cmp = OpLt.lt };
}

range_living_example :
    run (range_cursor (living list_cursor 5)) 5 ranged
    ≡ ok (in_range ranged.min ranged.max (alive all))
range_living_example =
    range_living list_cursor all list_forward 5 (omega arith) all-IsSorted ranged refl

abbrev with_1 : PrefixCursor (LivingCursor (List Entry))
with_1 = record { chain = fresh; prefix = 1 ∷ [] }

prefix_living_example :
    run (prefix_cursor (living list_cursor 5)) 5 with_1 ≡ ok (with_prefix (1 ∷ []) (alive all))
prefix_living_example =
    prefix_living list_cursor all list_forward 5 (omega arith) all-IsSorted with_1 refl

in_range-all :
    in_range ranged.min ranged.max (alive all) ≡ entry (1 ∷ 3 ∷ []) (ValueRef.slice (8 ∷ [])) ∷ []
unfolding compare_bytes
in_range-all = refl
