-- ===== src/Lsm/MultiCursor/Loops.antt =====
-- Loops over a `MultiCursor`, and over a `LivingCursor` that stands on one.
use elmo.Common.{ℕ, suc, ◌+◌, ◌<◌, ◌≡◌, refl, ap, ◌∙◌, ◌==◌, arith, length}
use elmo.Common.{Bool, false, ◌||◌, List, [], ◌∷◌}
use elmo.Common.Outcome.{ok, Succeeds, Succeeds-imp}
use mathlib.Core.Path.{subst}
use elmo.Lsm.KeyRef.{KeyRef, into_boxed_slice}
use elmo.Lsm.Cursor.{Cursor, greater_or_equal}
use elmo.Lsm.Cursor.Forward.{Entry, from_key, result_at, length-from_key}
use elmo.Lsm.Cursor.Run.{run, rest_of, forward_of, run_lem, rest_of_lem}
use elmo.Lsm.LivingCursor.{living}
use elmo.Lsm.LivingCursor.Walk.{alive}
use elmo.Lsm.LivingCursor.Loops.{run-living}
use elmo.Lsm.MultiCursor.Sort.Sift.{any_slot}
use elmo.Lsm.MultiCursor.Sort.Sorted.{IsDistinct}
use elmo.Lsm.MultiCursor.Merged.{merged, merged-IsSorted}
use elmo.Lsm.MultiCursor.Shown.{Source, ShowsAll, ShowsAll-length, all_entries}
use elmo.Lsm.MultiCursor.FindMin.{any_below, HasSlots}
use elmo.Lsm.MultiCursor.Refine.{multi_forward, multi_start}
use elmo.Lsm.MultiCursor.{multi, new, slots_from, seek}

any_slots_from :
    {C : Type 0} (P : ℕ → Bool) (cs : List C) (i : ℕ)
    → (any_below P i || any_slot P (slots_from i cs)) ≡ any_below P (i + length cs)
any_slots_from P [] i = let e : i + 0 ≡ i = omega arith in rw e (ground arith)
any_slots_from P (c ∷ cs) i =
    let r = any_slots_from P cs (suc i) in
    let e : suc i + length cs ≡ i + suc (length cs) = omega arith in
    let a = ap (any_below P) e in ground (arith, r, a)

slots_from-later :
    {C : Type 0} (cs : List C) (n i : ℕ) → n < i → any_slot (λ q. n == q) (slots_from i cs) ≡ false
slots_from-later [] n i h = refl
slots_from-later (c ∷ cs) n i h =
    let r = slots_from-later cs n (suc i) (omega (arith, h)) in ground (arith, h, r)

slots_from-IsDistinct : {C : Type 0} (cs : List C) (i : ℕ) → IsDistinct (slots_from i cs)
slots_from-IsDistinct [] i = tt
slots_from-IsDistinct (c ∷ cs) i =
    (slots_from-later cs i (suc i) (omega arith), slots_from-IsDistinct cs (suc i))

zero_add : (n : ℕ) → 0 + n ≡ n
zero_add n = omega arith

slots_from-HasSlots : {C : Type 0} (cs : List C) → HasSlots (slots_from 0 cs) (length cs)
slots_from-HasSlots cs = (
  (λ P. any_slots_from P cs 0 ∙ ap (any_below P) (zero_add (length cs))),
  slots_from-IsDistinct cs 0,
)

module _ {C : Type 0} (csr : Cursor C) (fs : List (Source csr)) where
  pub new_lem :
      (cs : List C) (ess : List (List Entry))
      → ShowsAll csr fs cs ess
      → (multi_forward csr fs).Shows (new cs) []
  unfolding new
  new_lem cs ess s =
      multi_start csr fs (new cs) ess s
        (subst (HasSlots (slots_from 0 cs)) (ShowsAll-length csr fs cs ess s).0
          (slots_from-HasSlots cs))
        refl

  -- A loop over a new `MultiCursor` on cursors with ordered entries of their own gets the merged
  -- entries: each cursor's entries written into an ordered list, those of the first cursor last. No
  -- call fails.
  pub run-multi :
      (cs : List C) (ess : List (List Entry)) (fuel : ℕ)
      → length (merged (all_entries csr fs)) < fuel
      → ShowsAll csr fs cs ess
      → run (forward_of (multi csr)) fuel (new cs) ≡ ok (merged (all_entries csr fs))
  run-multi cs ess fuel h s =
      run_lem (multi csr) (merged (all_entries csr fs)) (multi_forward csr fs) fuel (new cs) [] h
        (new_lem cs ess s)

  -- After `seek` for a key with `SeekOp::GreaterOrEqual` a loop over a new `MultiCursor` gets the
  -- merged entries whose keys are not below that key, and the result says whether there is one, and
  -- whether the first has that very key.
  pub multi_seek_run :
      (cs : List C) (ess : List (List Entry)) (fuel : ℕ) (k : KeyRef)
      → length (merged (all_entries csr fs)) < fuel
      → ShowsAll csr fs cs ess
      → Succeeds (seek csr (new cs) k greater_or_equal) λ r.
        (rest_of (forward_of (multi csr)) fuel r.0
          ≡ ok (from_key (into_boxed_slice k) (merged (all_entries csr fs))))
        × (r.1
            ≡ result_at
                (into_boxed_slice k)
                (from_key (into_boxed_slice k) (merged (all_entries csr fs))))
  multi_seek_run cs ess fuel k h s =
      let all = merged (all_entries csr fs) in
      let g = multi_forward csr fs in
      let es = from_key (into_boxed_slice k) all in
      Succeeds-imp _ _ (seek csr (new cs) k greater_or_equal)
        (g.seek-Shows (new cs) [] k (new_lem cs ess s))
        (λ r t. (
          rest_of_lem (multi csr) all g fuel r.0 es
              (omega (arith, h, length-from_key (into_boxed_slice k) all)) t.0,
          t.1,
        ))

  -- A loop over a `LivingCursor` on a new `MultiCursor` gets the merged entries without the
  -- tombstones, so an entry that a tombstone of an earlier cursor hides does not come back. No call
  -- fails.
  pub multi-living :
      (cs : List C) (ess : List (List Entry)) (fuel : ℕ)
      → length (merged (all_entries csr fs)) < fuel
      → ShowsAll csr fs cs ess
      → run (forward_of (living (multi csr) fuel)) fuel (record { chain = new cs; skipped = 0 })
        ≡ ok (alive (merged (all_entries csr fs)))
  multi-living cs ess fuel h s =
      run-living (multi csr) (merged (all_entries csr fs)) (multi_forward csr fs) fuel h
        (merged-IsSorted (all_entries csr fs)) (record { chain = new cs; skipped = 0 })
        (new_lem cs ess s)
