-- ===== src/Lsm/MultiCursor/Refine.antt =====
-- A `MultiCursor` over cursors with entries of their own is a cursor over the merged entries.
pub mod Places
pub mod Steps
pub mod Seeks
use mathlib.Core.Path.{subst}
use elmo.Common.{
  ℕ, ◌+◌, ◌<◌, ◌≡◌, inl, inr, refl, sym, ap, ◌∙◌, ◌==◌, ==_iff, Ordering, arith, length, set,
}
use elmo.Common.{
  All, Bool, true, false, Bool-cases, if◌then◌else◌, Option, none, some, List, [], ◌∷◌, ◌++◌, map,
}
use elmo.Common.Outcome.{
  Outcome, ok, err, panic, ◌>>=◌, ◌>>◌, guard, Succeeds, Succeeds->>=, Succeeds-imp,
}
use elmo.Lsm.Bcmp.Order.{compare_bytes_refl, compare_bytes-eq}
use elmo.Lsm.KeyRef.{KeyRef, into_boxed_slice}
use elmo.Lsm.Cursor.{Cursor, greater_or_equal, SeekResult, sr_invalid, from_cursor}
use elmo.Lsm.Cursor.Forward.{
  Entry, IsSorted, Forward, is_some_entry, is_tombstone, from_key, result_at, found,
}
use elmo.Lsm.MultiCursor.Sort.{Slot, get, modify_at, is_some_tag}
use elmo.Lsm.MultiCursor.Sort.Sift.{any_slot}
use elmo.Lsm.MultiCursor.Merged.{merged, past_key, IsFrom}
use elmo.Lsm.MultiCursor.Merged.Step.{merged-first_at}
use elmo.Lsm.MultiCursor.Merged.Seek.{from_key-merged, from_key-IsFrom, from_key-IsSorted}
use elmo.Lsm.MultiCursor.Shown.{
  Source, nth, key_of, nth-length, nth-beyond, nth-set, length-set, nth-set_same, set-set, nth_lem,
  nth-map, length-map, ShowsAll, ShowsAll-IsSorted, ShowsAll-length, all_entries,
  all_entries-IsSorted, call_lem, modify_at_lem,
}
use elmo.Lsm.MultiCursor.FindMin.{HasSlots, HasSlots-at, AtMin, Found, to_min_lem}
use elmo.Lsm.MultiCursor.Least.{AtMin-cases}
use elmo.Lsm.MultiCursor.Next.{next_equals_lem, Past}
use elmo.Lsm.MultiCursor.Sought.{beyond, for_all_lem, first-Seeks, SeekEnds, seek_loop_lem}
use elmo.Lsm.MultiCursor.Others.{others_lem}
use elmo.Lsm.LivingCursor.Walk.{from_cursor_lem}
use elmo.Lsm.MultiCursor.{
  result_of, result_for, MultiCursor, forward, wandering, with_cur, multi, first, next, seek, key,
  value, value_is_tombstone, is_valid, to_min, step_others, next_equals, for_all, seek_loop,
}
use elmo.Lsm.MultiCursor.Refine.Places.{
  MultiShows, Stands, nowhere, at_min, at_key, Cur, shown-Cur, cur_call, from_Found, same_length,
  first_lem,
}
use elmo.Lsm.MultiCursor.Refine.Steps.{next_lem}
use elmo.Lsm.MultiCursor.Refine.Seeks.{Sought, seek_lem}

Succeeds-ok : {A : Type 0} (o : Outcome A) (a : A) → Succeeds o (λ b. b ≡ a) → o ≡ ok a
Succeeds-ok (ok b) a h = ap ok h
Succeeds-ok (err e) a h = absurd h
Succeeds-ok panic a h = absurd h

module _ {C : Type 0} (csr : Cursor C) (fs : List (Source csr)) where
  is_valid_lem :
      (m : MultiCursor C) (es : List Entry)
      → MultiShows csr fs m es
      → is_valid csr m ≡ is_some_entry es
  unfolding is_valid
  is_valid_lem m [] s = let c = shown-Cur csr fs m [] s in rw c refl
  is_valid_lem m (e ∷ es) s =
      let c = shown-Cur csr fs m (e ∷ es) s in
      rw c.2 (
        valid_of (get m.subcursors c.0) (
          call_lem csr (λ x. ok (csr.is_valid x)) (λ b. b ≡ true) fs m.subcursors s.0 c.0 e c.1 s.1
            c.3 (λ f x w. f.forward.is_valid-Shows x (e ∷ c.1) w)))
    where
      valid_of :
          (o : Outcome C)
          → Succeeds (o >>= λ c. ok (csr.is_valid c)) (λ b. b ≡ true)
          → elim o [ ok c ↦ csr.is_valid c | err e ↦ false | panic ↦ false ] ≡ true
      valid_of (ok c) h = h
      valid_of (err e) h = absurd h
      valid_of panic h = absurd h

  -- The calls of a `MultiCursor` keep the promises of `IForwardCursor`, `IValue` and the seek that
  -- goes forward, over the merged entries of its cursors: they are in order, each key is there once,
  -- with the entry of the first cursor that has it, and `next`, `first` and `seek` go to where they
  -- say, whatever calls of these were made before.
  pub multi_forward : Forward (multi csr) (merged (all_entries csr fs))
  unfolding is_valid key value value_is_tombstone
  multi_forward = record {
    Shows = MultiShows csr fs;
    is_valid-Shows = is_valid_lem;
    key-Shows =
        λ m e es s. cur_call csr fs csr.key _ m e es s (λ f c t w. f.forward.key-Shows c e t w);
    value-Shows = λ m e es s. Succeeds-ok (value csr m) e.stored (
        cur_call csr fs csr.value (λ v. v ≡ e.stored) m e es s
          (λ f c t w. (let z = f.forward.value-Shows c e t w in rw z refl)));
    value_is_tombstone-Shows = λ m e es s.
        Succeeds-ok (value_is_tombstone csr m) (is_tombstone e.stored) (
          cur_call csr fs csr.value_is_tombstone (λ v. v ≡ is_tombstone e.stored) m e es s
            (λ f c t w. (let z = f.forward.value_is_tombstone-Shows c e t w in rw z refl)));
    next-Shows = next_lem csr fs;
    first-Shows = first_lem csr fs;
    seek-Shows = λ m es k s. seek_lem csr fs m es k s;
  }

  -- A `MultiCursor` that stands nowhere yet.
  pub multi_start :
      (m : MultiCursor C) (ess : List (List Entry))
      → ShowsAll csr fs m.subcursors ess
      → HasSlots m.sorted (length ess)
      → m.cur ≡ none
      → multi_forward.Shows m []
  unfolding multi_forward
  multi_start m ess s h c = (ess, s, h, nowhere c refl)
