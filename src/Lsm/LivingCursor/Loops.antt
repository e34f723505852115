-- ===== src/Lsm/LivingCursor/Loops.antt =====
-- Loops over a `LivingCursor`, and over the cursors that stand on one.
use elmo.Common.{ℕ, ◌≤◌, ◌<◌, ◌≡◌, arith, All, length, Ordering, Bool-cases, inl, inr}
use elmo.Common.{List, [], ◌∷◌}
use elmo.Common.Outcome.{ok, Succeeds, Succeeds-imp}
use elmo.Lsm.Bcmp.{compare_bytes}
use elmo.Lsm.KeyRef.{KeyRef, into_boxed_slice}
use elmo.Lsm.Cursor.{Cursor, greater_or_equal}
use elmo.Lsm.Cursor.Forward.{
  Entry, IsSorted, is_tombstone, from_key, result_at, Forward, length-from_key,
}
use elmo.Lsm.Cursor.Run.{run, rest_of, forward_of, run_lem, rest_of_lem}
use elmo.Lsm.LivingCursor.{LivingCursor, living, seek}
use elmo.Lsm.LivingCursor.Walk.{alive, living_forward, living_start}
use elmo.Lsm.RangeCursor.{RangeCursor, range_cursor}
use elmo.Lsm.RangeCursor.Walk.{in_range, range_run}
use elmo.Lsm.PrefixCursor.{PrefixCursor, prefix_cursor}
use elmo.Lsm.PrefixCursor.Walk.{with_prefix, prefix_run}

length-alive : (es : List Entry) → length (alive es) ≤ length es
length-alive [] = omega arith
length-alive (e ∷ es) = ground (arith, length-alive es)

alive-All {ℓ} : (P : Entry → Type ℓ) (es : List Entry) → All P es → All P (alive es)
alive-All P [] h = tt
alive-All P (e ∷ es) h = elim (Bool-cases (is_tombstone e.stored)) [
  | inl d ↦ rw d (alive-All P es h.1)
  | inr d ↦ rw d (h.0, alive-All P es h.1)
]

alive-IsSorted : (es : List Entry) → IsSorted es → IsSorted (alive es)
alive-IsSorted [] s = tt
alive-IsSorted (e ∷ es) s = elim (Bool-cases (is_tombstone e.stored)) [
  | inl d ↦ rw d (alive-IsSorted es s.1)
  | inr d ↦
      rw d
        (alive-All (λ g. compare_bytes e.bytes g.bytes ≡ Ordering.lt) es s.0, alive-IsSorted es s.1)
]

-- `csr` is a cursor over the ordered entries `all`, and `fuel` is enough for them.
module _ {C : Type 0} (csr : Cursor C) (all : List Entry) (f : Forward csr all) (fuel : ℕ)
    (h : length all < fuel) (sorted : IsSorted all) where
  -- A loop over a `LivingCursor` whose chain stands nowhere yet gets exactly the entries that are
  -- no tombstones, in order, and no call fails.
  pub run-living :
      (l : LivingCursor C)
      → f.Shows l.chain []
      → run (forward_of (living csr fuel)) fuel l ≡ ok (alive all)
  run-living l s =
      run_lem (living csr fuel) (alive all) (living_forward csr all f fuel h sorted) fuel l []
        (omega (arith, h, length-alive all)) (living_start csr all f fuel h sorted l s)

  -- After `seek` for a key with `SeekOp::GreaterOrEqual` a loop gets exactly the entries that are no
  -- tombstones and not below that key, and the result says whether there is one, and whether the
  -- first has that very key.
  pub living_seek_run :
      (l : LivingCursor C) (k : KeyRef)
      → f.Shows l.chain []
      → Succeeds (seek csr fuel l k greater_or_equal) λ r.
        (rest_of (forward_of (living csr fuel)) fuel r.0
          ≡ ok (from_key (into_boxed_slice k) (alive all)))
        × (r.1 ≡ result_at (into_boxed_slice k) (from_key (into_boxed_slice k) (alive all)))
  unfolding living
  living_seek_run l k s =
      let g = living_forward csr all f fuel h sorted in
      let es = from_key (into_boxed_slice k) (alive all) in
      Succeeds-imp (λ r. g.Shows r.0 es × (r.1 ≡ result_at (into_boxed_slice k) es)) _
        (seek csr fuel l k greater_or_equal)
        (g.seek-Shows l [] k (living_start csr all f fuel h sorted l s))
        (λ r t. (
          rest_of_lem (living csr fuel) (alive all) g fuel r.0 es
              (omega (arith, h, length-alive all, length-from_key (into_boxed_slice k) (alive all)))
              t.0,
          t.1,
        ))

  -- A loop over a `RangeCursor` on such a `LivingCursor` gets exactly the entries that are no
  -- tombstones and whose keys are within both bounds, in order, and no call fails.
  pub range_living :
      (r : RangeCursor (LivingCursor C))
      → f.Shows r.chain.chain []
      → run (range_cursor (living csr fuel)) fuel r ≡ ok (in_range r.min r.max (alive all))
  range_living r s =
      range_run (living csr fuel) (alive all) (living_forward csr all f fuel h sorted) fuel r []
        (omega (arith, h, length-alive all)) (alive-IsSorted all sorted)
        (living_start csr all f fuel h sorted r.chain s)

  -- A loop over a `PrefixCursor` on such a `LivingCursor` gets exactly the entries that are no
  -- tombstones and whose keys start with the prefix, in order, and no call fails.
  pub prefix_living :
      (r : PrefixCursor (LivingCursor C))
      → f.Shows r.chain.chain []
      → run (prefix_cursor (living csr fuel)) fuel r ≡ ok (with_prefix r.prefix (alive all))
  prefix_living r s =
      prefix_run (living csr fuel) (alive all) (living_forward csr all f fuel h sorted) fuel r []
        (omega (arith, h, length-alive all)) (alive-IsSorted all sorted)
        (living_start csr all f fuel h sorted r.chain s)
