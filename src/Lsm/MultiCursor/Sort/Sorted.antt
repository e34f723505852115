-- ===== src/Lsm/MultiCursor/Sort/Sorted.antt =====
-- What `sort` leaves.
use mathlib.Core.Path.{subst}
use elmo.Common.{ℕ, ◌≡◌, inl, inr, refl, sym, ap, ◌∙◌, ◌==◌, ==_iff, leb, Ordering, arith, length}
use elmo.Common.{Bool, true, false, not, ◌||◌, Bool-cases, Option, none, some, List, [], ◌∷◌, map}
use elmo.Common.Outcome.{ok, Succeeds, Succeeds->>=, Succeeds-imp}
use elmo.Lsm.Bcmp.Order.{compare_bytes_refl}
use elmo.Lsm.KeyRef.{KeyRef}
use elmo.Lsm.MultiCursor.Sort.{
  Slot, get, sift, sift_all, fix_first, reverse_onto, sort_slots, is_some_tag,
}
use elmo.Lsm.MultiCursor.Sort.Order.{Key, bytes_of_key, key_at, comes_before, is_no_key}
use elmo.Lsm.MultiCursor.Sort.Sift.{any_slot, get-key_at, tag_ok, any_late, IsSifted, sift_lem}

any_slot-or :
    (P Q : ℕ → Bool) (ss : List Slot)
    → any_slot (λ q. P q || Q q) ss ≡ (any_slot P ss || any_slot Q ss)
any_slot-or P Q [] = refl
any_slot-or P Q (s ∷ ss) = ground (arith, any_slot-or P Q ss)

pub other :
    (n m : ℕ) (ss : List Slot)
    → any_slot (λ q. m == q) ss ≡ false
    → any_slot (λ q. n == q) ss ≡ true
    → (n == m) ≡ false
other n m ss h k = elim (Bool-cases (n == m)) [
  | inl e ↦ let f = subst (λ x. any_slot (λ q. x == q) ss ≡ false) (sym ((==_iff n m).0 e)) h in cc
  | inr e ↦ e
]

-- No cursor has two slots.
abbrev pub IsDistinct : List Slot → Type 0
IsDistinct [] = Unit
IsDistinct (s ∷ ss) = (any_slot (λ q. s.0 == q) ss ≡ false) × IsDistinct ss

comes_before-irreflexive : (k : Key) (n : ℕ) → comes_before k n k n ≡ false
comes_before-irreflexive none n = ground arith
comes_before-irreflexive (some k) n = let e = compare_bytes_refl k in ground (arith, e)

module _ (ka : List (Option KeyRef)) where
  -- The slots that come after those of `left` ascend, and their tags are true.
  abbrev pub AscendFrom : List Slot → List Slot → Type 0
  AscendFrom left [] = Unit
  AscendFrom left (s ∷ ss) =
      (any_late ka s.0 left ≡ false) × (tag_ok ka left s ≡ true) × AscendFrom (s ∷ left) ss

  -- The slots ascend, and the first has a tag exactly if its cursor is valid.
  abbrev pub IsAscending : List Slot → Type 0
  IsAscending [] = Unit
  IsAscending (s ∷ ss) =
      (is_some_tag s.1 ≡ not (is_no_key (key_at ka s.0))) × AscendFrom ((s.0, none) ∷ []) ss

  reverse_onto-AscendFrom :
      (before after : List Slot)
      → IsSifted ka before
      → AscendFrom before after
      → AscendFrom [] (reverse_onto before after)
  reverse_onto-AscendFrom [] after h a = a
  reverse_onto-AscendFrom (s ∷ before) after h a =
      reverse_onto-AscendFrom before (s ∷ after) h.2 (h.0, h.1, a)

  any_late-any :
      (n : ℕ) (left : List Slot) → any_late ka n left ≡ false → any_slot (λ q. n == q) left ≡ false
  any_late-any n [] h = refl
  any_late-any n (s ∷ left) h = elim (Bool-cases (n == s.0)) [
    | inl e ↦
        let z =
          subst (λ m. comes_before (key_at ka m) m (key_at ka n) n ≡ false) ((==_iff n s.0).0 e)
            (comes_before-irreflexive (key_at ka n) n) in
        ground (arith, z, h)
    | inr e ↦ ground (arith, e, any_late-any n left, h)
  ]

  AscendFrom-apart :
      (n : ℕ) (left ss : List Slot)
      → AscendFrom left ss
      → any_slot (λ q. n == q) left ≡ true
      → any_slot (λ q. n == q) ss ≡ false
  AscendFrom-apart n left [] a h = refl
  AscendFrom-apart n left (s ∷ ss) a h = elim (Bool-cases (n == s.0)) [
    | inl e ↦
        let f =
          subst (λ m. any_slot (λ q. m == q) left ≡ false) (sym ((==_iff n s.0).0 e))
            (any_late-any s.0 left a.0) in
        cc
    | inr e ↦ ground (arith, e, AscendFrom-apart n (s ∷ left) ss a.2, h)
  ]

  AscendFrom-IsDistinct : (left ss : List Slot) → AscendFrom left ss → IsDistinct ss
  AscendFrom-IsDistinct left [] a = tt
  AscendFrom-IsDistinct left (s ∷ ss) a = (
    AscendFrom-apart s.0 (s ∷ left) ss a.2 (ground arith),
    AscendFrom-IsDistinct (s ∷ left) ss a.2,
  )

  pub IsAscending-IsDistinct : (ss : List Slot) → IsAscending ss → IsDistinct ss
  IsAscending-IsDistinct [] a = tt
  IsAscending-IsDistinct (s ∷ ss) a = (
    AscendFrom-apart s.0 ((s.0, none) ∷ []) ss a.1 (ground arith),
    AscendFrom-IsDistinct ((s.0, none) ∷ []) ss a.1,
  )

  any_slot-reverse_onto :
      (P : ℕ → Bool) (before after : List Slot)
      → any_slot P (reverse_onto before after) ≡ (any_slot P before || any_slot P after)
  any_slot-reverse_onto P [] after = refl
  any_slot-reverse_onto P (s ∷ before) after =
      let i = any_slot-reverse_onto P before (s ∷ after) in ground (arith, i)

  -- The slots `xs` have no tags yet, and all are of different cursors.
  sift_all_lem :
      (before xs : List Slot)
      → any_slot (λ q. leb (length ka) q) (xs) ≡ false
      → any_slot (λ q. leb (length ka) q) (before) ≡ false
      → IsDistinct xs
      → ((n : ℕ) → any_slot (λ q. n == q) xs ≡ true → any_slot (λ q. n == q) before ≡ false)
      → IsSifted ka before
      → Succeeds (sift_all false ka before (map (λ s. (s.0, none)) xs)) λ r.
        IsSifted ka r × ((P : ℕ → Bool) → any_slot P r ≡ (any_slot P before || any_slot P xs))
  unfolding sift_all
  sift_all_lem before [] l k d a h = (h, λ P. ground arith)
  sift_all_lem before (x ∷ xs) l k d a h =
      Succeeds->>= _ _ (sift false ka (x.0, none) before) _
        (sift_lem ka x.0 before (ground (arith, l))
          (ground (arith, a x.0, k, any_slot-or (λ q. x.0 == q) (λ q. leb (length ka) q) before)) h)
        (λ r q.
          Succeeds-imp _ _ (sift_all false ka r (map (λ s. (s.0, none)) xs))
            (sift_all_lem r xs (ground (arith, l))
              (let e = q.1 (λ n. leb (length ka) n) in ground (arith, e, k, l)) d.1
              (λ n i. (let e = q.1 (λ m. n == m) in ground (arith, e, i, a n, other n x.0 xs d.0)))
              q.0)
            (λ r' t. (t.0, λ P. (let e = q.1 P in let e' = t.1 P in ground (arith, e, e')))))

  tag_ok-first : (s : Slot) → tag_ok ka [] s ≡ true → s ≡ (s.0, none)
  tag_ok-first (n, none) h = refl
  tag_ok-first (n, some t) h = cc

  fix_first_lem :
      (ss : List Slot)
      → any_slot (λ q. leb (length ka) q) ss ≡ false
      → AscendFrom [] ss
      → Succeeds
          (fix_first false ka ss)
          λ r. IsAscending r × ((P : ℕ → Bool) → any_slot P r ≡ any_slot P ss)
  fix_first_lem [] l a = (tt, λ P. refl)
  fix_first_lem (s ∷ ss) l a =
      Succeeds->>= (λ k. bytes_of_key k ≡ key_at ka s.0) _ (get ka s.0) _
        (get-key_at ka s.0 (ground (arith, l))) (λ k e. fixed k e)
    where
      none_tag : s.1 ≡ none
      none_tag = ap (λ x. x.1) (tag_ok-first s a.1)

      asc : AscendFrom ((s.0, none) ∷ []) ss
      asc = subst (λ x. AscendFrom (x ∷ []) ss) (tag_ok-first s a.1) a.2

      fixed :
          (k : Option KeyRef)
          → bytes_of_key k ≡ key_at ka s.0
          → Succeeds
              (elim k [ none ↦ ok (s ∷ ss) | some k ↦ ok ((s.0, some Ordering.eq) ∷ ss) ])
              λ r. IsAscending r × ((P : ℕ → Bool) → any_slot P r ≡ any_slot P (s ∷ ss))
      fixed none e = ((ground (arith, none_tag, sym e), asc), λ P. refl)
      fixed (some k) e = ((ground (arith, sym e), asc), λ P. refl)

  -- Where all slots are of cursors that there are and no cursor has two, the sort by ascending keys
  -- does not fail. The cursors come in ascending order, those with the same key by their numbers and
  -- those that are not valid last, and each keeps its one slot. The first has a tag exactly if its
  -- cursor is valid. Of the others one that is valid has a tag, and the tag is true of some cursor
  -- before it: `Equal` that it has the same key, `Greater` that its own key is greater.
  pub sort_slots_lem :
      (ss : List Slot)
      → any_slot (λ q. leb (length ka) q) ss ≡ false
      → IsDistinct ss
      → Succeeds
          (sort_slots false ka ss)
          λ r. IsAscending r × ((P : ℕ → Bool) → any_slot P r ≡ any_slot P ss)
  unfolding sort_slots
  sort_slots_lem ss l d =
      Succeeds->>= _ _ (sift_all false ka [] (map (λ s. (s.0, none)) ss)) _
        (sift_all_lem [] ss l refl d (λ n h. refl) tt)
        (λ before q.
          let each = λ (P : ℕ → Bool).
            any_slot-reverse_onto P before [] ∙ (let e = q.1 P in ground (arith, e)) in
          Succeeds-imp _ _ (fix_first false ka (reverse_onto before []))
            (fix_first_lem (reverse_onto before []) (each (λ n. leb (length ka) n) ∙ l)
              (reverse_onto-AscendFrom before [] q.0 tt))
            (λ r t. (t.0, λ P. t.1 P ∙ each P)))

  any_late-at :
      (n m : ℕ) (left : List Slot)
      → any_late ka m left ≡ false
      → any_slot (λ q. n == q) left ≡ true
      → comes_before (key_at ka n) n (key_at ka m) m ≡ true
  any_late-at n m [] h k = cc
  any_late-at n m (s ∷ left) h k = elim (Bool-cases (n == s.0)) [
    | inl e ↦
        subst (λ x. comes_before (key_at ka x) x (key_at ka m) m ≡ true) (sym ((==_iff n s.0).0 e))
          (ground (arith, h))
    | inr e ↦ any_late-at n m left (ground (arith, h)) (ground (arith, k, e))
  ]

  -- A cursor of `left` comes before one of those after them.
  pub AscendFrom-later :
      (n m : ℕ) (left ss : List Slot)
      → AscendFrom left ss
      → any_slot (λ q. n == q) left ≡ true
      → any_slot (λ q. m == q) ss ≡ true
      → comes_before (key_at ka n) n (key_at ka m) m ≡ true
  AscendFrom-later n m left [] a h k = cc
  AscendFrom-later n m left (s ∷ ss) a h k = elim (Bool-cases (m == s.0)) [
    | inl e ↦
        subst (λ x. comes_before (key_at ka n) n (key_at ka x) x ≡ true) (sym ((==_iff m s.0).0 e))
          (any_late-at n s.0 left a.0 h)
    | inr e ↦ AscendFrom-later n m (s ∷ left) ss a.2 (ground (arith, h)) (ground (arith, k, e))
  ]
