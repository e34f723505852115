-- ===== src/Lsm/RangeCursor/Walk.antt =====
-- What a loop over a `RangeCursor` gets.
use mathlib.Core.Path.{subst}
use elmo.Common.{
  ℕ, zero, suc, ◌≤◌, ◌<◌, ◌≡◌, ◌≢◌, refl, ap, ◌∙◌, arith, All, length, Ordering, Bool-cases, inl,
  inr,
}
use elmo.Common.{Bool, true, false, ◌&&◌, List, [], ◌∷◌, if◌then◌else◌}
use elmo.Common.Outcome.{Outcome, ok, err, panic, ◌>>=◌, Succeeds, Succeeds-eq, Succeeds->>=}
use elmo.Lsm.Bcmp.{compare_bytes}
use elmo.Lsm.Bcmp.Order.{compare_bytes_trans, compare_bytes-eq}
use elmo.Lsm.KeyRef.{KeyRef, into_boxed_slice}
use elmo.Lsm.KeyRef.Compare.{compare_with_lem}
use elmo.Lsm.Cursor.{Cursor, greater_or_equal}
use elmo.Lsm.Cursor.Forward.{Entry, IsSorted, from_key, found, result_at, Forward}
use elmo.Lsm.Cursor.Run.{run, rest_of, rest_of-step}
use elmo.Lsm.LivingCursor.{unwrap}
use elmo.Lsm.RangeCursor.{
  Min, Max, OpGt, gt, gte, OpLt, lt, lte, above, below, RangeCursor, range_cursor,
}
use elmo.Lsm.RangeCursor.{
  is_valid, key, value, next, first, min_is_in_bounds, max_is_in_bounds, step_over,
}

abbrev pub over_min : Min → Entry → Bool
over_min m e = above m.cmp (compare_bytes e.bytes m.k)

abbrev pub under_max : Max → Entry → Bool
under_max m e = below m.cmp (compare_bytes e.bytes m.k)

-- The entries whose keys are within both bounds.
abbrev pub in_range : Min → Max → List Entry → List Entry
in_range lo hi [] = []
in_range lo hi (e ∷ es) =
    let rest = in_range lo hi es in if over_min lo e && under_max hi e then e ∷ rest else rest

-- Where `first` ends.
abbrev start : Min → List Entry → List Entry
start lo [] = []
start lo (e ∷ es) =
    let rest = start lo es in
    elim (compare_bytes e.bytes lo.k) [
      | Ordering.lt ↦ rest
      | Ordering.gt ↦ e ∷ es
      | Ordering.eq ↦ elim lo.cmp [ gt ↦ es | gte ↦ e ∷ es ]
    ]

in_range-start :
    (lo : Min) (hi : Max) (es : List Entry) → in_range lo hi (start lo es) ≡ in_range lo hi es
in_range-start lo hi [] = refl
in_range-start lo hi (e ∷ es) = ground (arith, in_range-start lo hi es)

-- What stands behind a key that is not below `k` is greater than `k`.
after-gt :
    (a b k : List ℕ)
    → compare_bytes a k ≢ Ordering.lt
    → compare_bytes a b ≡ Ordering.lt
    → compare_bytes b k ≡ Ordering.gt
after-gt a b k h l = go (compare_bytes b k) refl
  where
    go : (c : Ordering) → compare_bytes b k ≡ c → c ≡ Ordering.gt
    go Ordering.lt e = absurd (h (compare_bytes_trans a b k l e))
    go Ordering.eq e =
        absurd (h (subst (λ x. compare_bytes a x ≡ Ordering.lt) (compare_bytes-eq b k e) l))
    go Ordering.gt e = refl

after-over :
    (lo : Min) (e : Entry) (es : List Entry)
    → compare_bytes e.bytes lo.k ≢ Ordering.lt
    → All (λ g. compare_bytes e.bytes g.bytes ≡ Ordering.lt) es
    → All (λ g. over_min lo g ≡ true) es
after-over lo e [] h a = tt
after-over lo e (g ∷ es) h a =
    (ground (arith, after-gt e.bytes g.bytes lo.k h a.0), after-over lo e es h a.1)

start-over :
    (lo : Min) (es : List Entry) → IsSorted es → All (λ g. over_min lo g ≡ true) (start lo es)
start-over lo [] s = tt
start-over lo (e ∷ es) s = go (start-over lo es s.1) (compare_bytes e.bytes lo.k) refl lo.cmp refl
  where
    go :
        All (λ g. over_min lo g ≡ true) (start lo es)
        → (c : Ordering) → compare_bytes e.bytes lo.k ≡ c
        → (op : OpGt) → lo.cmp ≡ op
        → All
            (λ g. over_min lo g ≡ true)
            (elim c [
              | Ordering.lt ↦ start lo es
              | Ordering.gt ↦ e ∷ es
              | Ordering.eq ↦ elim op [ gt ↦ es | gte ↦ e ∷ es ]
            ])
    go i Ordering.lt h op q = i
    go i Ordering.gt h op q = (rw h (ground (arith)), after-over lo e es (λ k. cc) s.0)
    go i Ordering.eq h gt q = after-over lo e es (λ k. cc) s.0
    go i Ordering.eq h gte q = (rw (h, q) refl, after-over lo e es (λ k. cc) s.0)

length-start : (lo : Min) (es : List Entry) → length (start lo es) ≤ length es
length-start lo [] = omega arith
length-start lo (e ∷ es) = ground (arith, length-start lo es)

start-IsSorted : (lo : Min) (es : List Entry) → IsSorted es → IsSorted (start lo es)
start-IsSorted lo [] s = tt
start-IsSorted lo (e ∷ es) s = ground (arith, start-IsSorted lo es, s)

not_lt : (op : OpLt) (c : Ordering) → below op c ≡ false → c ≢ Ordering.lt
not_lt lt Ordering.lt h k = cc
not_lt lte Ordering.lt h k = cc
not_lt op Ordering.eq h k = cc
not_lt op Ordering.gt h k = cc

-- Behind an entry over the maximum all are.
after-max :
    (lo : Min) (hi : Max) (e : Entry) (es : List Entry)
    → under_max hi e ≡ false
    → All (λ g. compare_bytes e.bytes g.bytes ≡ Ordering.lt) es
    → in_range lo hi es ≡ []
after-max lo hi e [] h a = refl
after-max lo hi e (g ∷ es) h a =
    let r = after-max lo hi e es h a.1 in
    let n = after-gt e.bytes g.bytes hi.k (not_lt hi.cmp (compare_bytes e.bytes hi.k) h) a.0 in
    ground (arith, r, n)

module _ {C : Type 0} (csr : Cursor C) (all : List Entry) (f : Forward csr all) where
  range-is_valid :
      (r : RangeCursor C) (e : Entry) (es : List Entry)
      → f.Shows r.chain (e ∷ es)
      → over_min r.min e ≡ true
      → is_valid csr r ≡ ok (under_max r.max e)
  unfolding is_valid min_is_in_bounds max_is_in_bounds
  range-is_valid r e es s h =
      rw (is_valid, f.is_valid-Shows r.chain (e ∷ es) s)
        (go (csr.key r.chain) (f.key-Shows r.chain e es s))
    where
      go :
          (o : Outcome KeyRef)
          → Succeeds o (λ k. into_boxed_slice k ≡ e.bytes)
          → (unwrap o >>= λ k. min_is_in_bounds r.min k >>= λ a. elim a [
            | false ↦ ok false
            | true ↦ max_is_in_bounds r.max k
          ])
            ≡ ok (under_max r.max e)
      go (ok k) q =
          let e1 : min_is_in_bounds r.min k ≡ ok true =
            rw (compare_with_lem k r.min.k, q, h) refl in
          let e2 : max_is_in_bounds r.max k ≡ ok (under_max r.max e) =
            rw (compare_with_lem k r.max.k, q) refl in
          rw (e1, e2) refl
      go (err x) q = absurd q
      go panic q = absurd q

  range-rest_of :
      (fuel : ℕ) (r : RangeCursor C) (es : List Entry)
      → length es < fuel
      → f.Shows r.chain es
      → IsSorted es
      → All (λ g. over_min r.min g ≡ true) es
      → rest_of (range_cursor csr) fuel r ≡ ok (in_range r.min r.max es)
  unfolding rest_of is_valid next key value range_cursor
  range-rest_of zero r es h s so o = absurd (omega arith)
  range-rest_of (suc fuel) r [] h s so o =
      rw (rest_of, is_valid, f.is_valid-Shows r.chain [] s) refl
  range-rest_of (suc fuel) r (e ∷ es) h s so o =
      let v = range-is_valid r e es s o.0 in
      elim (Bool-cases (under_max r.max e)) [
        | inr u ↦
            let stop = after-max r.min r.max e es u so.0 in
            let ends : in_range r.min r.max (e ∷ es) ≡ [] = ground (arith, stop) in
            let v' : is_valid csr r ≡ ok false = v ∙ ap ok u in rw (rest_of, v', ends) refl
        | inl u ↦
            let v' : is_valid csr r ≡ ok true = v ∙ ap ok u in
            let keeps : in_range r.min r.max (e ∷ es) ≡ e ∷ in_range r.min r.max es =
              ground (arith, o.0) in
            let step =
              rest_of-step csr all f (range_cursor csr) fuel r r.chain e es
                (in_range r.min r.max es) s v' (rw (key, v') refl) (rw (value, v') refl)
                (rw (next, v')
                  (Succeeds->>= (λ c. f.Shows c es) _ (csr.next r.chain) _
                    (f.next-Shows r.chain e es s)
                    (λ c s'.
                      range-rest_of fuel (record r { chain = c }) es (omega arith) s' so.1 o.1))) in
            rw keeps step
      ]

  -- Over an entry with the key of `lo`, if that is out.
  abbrev over_equal : Min → List Entry → List Entry
  over_equal lo [] = []
  over_equal lo (e ∷ es) = elim (compare_bytes e.bytes lo.k) [
    | Ordering.lt ↦ e ∷ es
    | Ordering.gt ↦ e ∷ es
    | Ordering.eq ↦ elim lo.cmp [ gt ↦ es | gte ↦ e ∷ es ]
  ]

  over_equal-from_key :
      (lo : Min) (es : List Entry) → over_equal lo (from_key lo.k es) ≡ start lo es
  over_equal-from_key lo [] = refl
  over_equal-from_key lo (e ∷ es) = ground (arith, over_equal-from_key lo es)

  step_over_lem :
      (c : C) (lo : Min) (es : List Entry)
      → f.Shows c es
      → Succeeds (step_over csr (result_at lo.k es) lo.cmp c) (λ c'. f.Shows c' (over_equal lo es))
  step_over_lem c lo [] s = s
  step_over_lem c lo (e ∷ es) s = go (compare_bytes e.bytes lo.k) lo.cmp
    where
      go :
          (o : Ordering) (op : OpGt)
          → Succeeds (step_over csr (found o) op c) (λ c'. f.Shows c' (elim o [
            | Ordering.lt ↦ e ∷ es
            | Ordering.gt ↦ e ∷ es
            | Ordering.eq ↦ elim op [ gt ↦ es | gte ↦ e ∷ es ]
          ]))
      go Ordering.lt op = s
      go Ordering.gt op = s
      go Ordering.eq gt = f.next-Shows c e es s
      go Ordering.eq gte = s

  first_lem :
      (r : RangeCursor C) (es : List Entry)
      → f.Shows r.chain es
      → Succeeds
          (first csr r)
          (λ r'. f.Shows r'.chain (start r.min all) × (r' ≡ record r { chain = r'.chain }))
  unfolding first
  first_lem r es s =
      Succeeds->>=
        (λ q. f.Shows q.0 (from_key r.min.k all) × (q.1 ≡ result_at r.min.k (from_key r.min.k all)))
        _ (csr.seek r.chain (KeyRef.slice r.min.k) greater_or_equal) _
        (f.seek-Shows r.chain es (KeyRef.slice r.min.k) s)
        (λ q t.
          Succeeds->>= (λ c'. f.Shows c' (start r.min all)) _ (step_over csr q.1 r.min.cmp q.0) _
            (rw (t.1, ← over_equal-from_key r.min all)
              (step_over_lem q.0 r.min (from_key r.min.k all) t.0))
            (λ c' s'. (s', refl)))

  -- Over a chain of ordered entries, a loop over a `RangeCursor` gets exactly the entries whose
  -- keys are within both bounds, in order, and no call fails.
  pub range_run :
      (fuel : ℕ) (r : RangeCursor C) (es : List Entry)
      → length all < fuel
      → IsSorted all
      → f.Shows r.chain es
      → run (range_cursor csr) fuel r ≡ ok (in_range r.min r.max all)
  unfolding range_cursor
  range_run fuel r es h so s =
      Succeeds-eq (λ r'. f.Shows r'.chain (start r.min all) × (r' ≡ record r { chain = r'.chain }))
        (first csr r) (rest_of (range_cursor csr) fuel) (in_range r.min r.max all)
        (first_lem r es s)
        (λ r' t.
          ap (rest_of (range_cursor csr) fuel) t.1
          ∙ range-rest_of fuel (record r { chain = r'.chain }) (start r.min all)
              (omega (arith, h, length-start r.min all)) t.0 (start-IsSorted r.min all so)
              (start-over r.min all so)
          ∙ ap ok (in_range-start r.min r.max all))
