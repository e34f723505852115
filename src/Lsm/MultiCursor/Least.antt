-- ===== src/Lsm/MultiCursor/Least.antt =====
-- Which entry the merged entries begin with, seen from the slots.
use mathlib.Core.Path.{subst}
use elmo.Common.{
  ℕ, zero, suc, ◌<◌, ◌≡◌, ◌⊎◌, inl, inr, refl, sym, ap, ◌∙◌, ◌==◌, ==_iff, ltb, leb, Ordering,
  arith, length,
}
use elmo.Common.{
  All, true, false, not, ◌&&◌, ◌||◌, Bool-cases, if◌then◌else◌, Option, none, some, List, [], ◌∷◌,
  ◌++◌, map,
}
use elmo.Lsm.Bcmp.Order.{compare_bytes_refl, compare_bytes_lem}
use elmo.Lsm.KeyRef.{KeyRef}
use elmo.Lsm.Cursor.Forward.{Entry, IsSorted}
use elmo.Lsm.MultiCursor.Sort.{Slot, is_some_tag}
use elmo.Lsm.MultiCursor.Sort.Order.{key_at, comes_before, is_no_key}
use elmo.Lsm.MultiCursor.Sort.Sorted.{AscendFrom, AscendFrom-later}
use elmo.Lsm.MultiCursor.Merged.{insert_all, merged, past_key, first_at, IsFrom}
use elmo.Lsm.MultiCursor.Merged.Step.{merged-first_at}
use elmo.Lsm.MultiCursor.Shown.{nth, key_of, is_key, nth-beyond, nth-All}
use elmo.Lsm.MultiCursor.FindMin.{HasSlots, HasSlots-at, any_below, AtMin}

-- A list is empty or begins with an entry.
pub entries-cases : (es : List Entry) → (es ≡ []) ⊎ ((e : Entry) × (t : List Entry) × (es ≡ e ∷ t))
entries-cases [] = inl refl
entries-cases (e ∷ t) = inr (e, t, refl)

merged-empty : (ess : List (List Entry)) → All (λ es. es ≡ []) ess → merged ess ≡ []
merged-empty [] h = refl
merged-empty (es ∷ ess) h = ap (λ l. insert_all l (merged ess)) h.0 ∙ merged-empty ess h.1

first_at-nth :
    (ess : List (List Entry)) (n : ℕ) (e : Entry) (t : List Entry)
    → nth ess n ≡ e ∷ t
    → ((m : ℕ) → m < n → is_key e.bytes (key_of (nth ess m)) ≡ false)
    → first_at e.bytes ess ≡ e ∷ []
first_at-nth [] n e t h k = cc
first_at-nth (es ∷ ess) zero e t h k =
    subst (λ l. first_at e.bytes (l ∷ ess) ≡ e ∷ []) (sym h)
      (let r = compare_bytes_refl e.bytes in rw r refl)
first_at-nth ([] ∷ ess) (suc n) e t h k =
    first_at-nth ess n e t h (λ m l. k (suc m) (omega (arith, l)))
first_at-nth ((x ∷ xs) ∷ ess) (suc n) e t h k =
    let o = k 0 (omega arith) in
    rw o (first_at-nth ess n e t h (λ m l. k (suc m) (omega (arith, l))))

-- A cursor that comes after one with the key `k` is not below `k`, and has that key only if its
-- number is greater.
comes_before-IsFrom :
    (k : List ℕ) (n m : ℕ) (es : List Entry)
    → comes_before (some k) n (key_of es) m ≡ true
    → IsFrom k es × ((is_key k (key_of es) && leb m n) ≡ false)
comes_before-IsFrom k n m [] h = (tt, refl)
comes_before-IsFrom k n m (e ∷ es) h =
    let c = (compare_bytes_lem k e.bytes).0 in ground (arith, c, h)

IsFrom-refl : (e : Entry) (t es : List Entry) → es ≡ e ∷ t → IsFrom e.bytes es
IsFrom-refl e t es h =
    subst (IsFrom e.bytes) (sym h) (let r = compare_bytes_refl e.bytes in rw r refl)

-- The first slot is that of cursor `n`.
module _ (ess : List (List Entry)) (n : ℕ) (tag : Option Ordering) (ss : List Slot)
    (h : HasSlots ((n, tag) ∷ ss) (length ess)) (ka : List (Option KeyRef))
    (keys : (n : ℕ) → key_at ka n ≡ key_of (nth ess n))
    (a : AscendFrom ka ((n, none) ∷ []) ss) where
  pub later :
      (m : ℕ)
      → (m == n) ≡ false
      → m < length ess
      → comes_before (key_of (nth ess n)) n (key_of (nth ess m)) m ≡ true
  later m d l =
      let i = HasSlots-at ((n, tag) ∷ ss) (length ess) m h in
      let b = AscendFrom-later ka n m ((n, none) ∷ []) ss a (ground arith) (ground (arith, i, d)) in
      subst (λ k. comes_before k n (key_of (nth ess m)) m ≡ true) (keys n)
        (subst (λ k. comes_before (key_at ka n) n k m ≡ true) (keys m) b)

  all_empty : nth ess n ≡ [] → (m : ℕ) → nth ess m ≡ []
  all_empty e m = elim (Bool-cases (m == n)) [
    | inl q ↦ ap (nth ess) ((==_iff m n).0 q) ∙ e
    | inr q ↦ elim (Bool-cases (ltb m (length ess))) [
      | inr l ↦ nth-beyond ess m (ground (arith, l))
      | inl l ↦ no_key (nth ess m) (
          subst (λ x. comes_before (key_of x) n (key_of (nth ess m)) m ≡ true) e
            (later m q (ground (arith, l))))
    ]
  ]
    where
      no_key : (es : List Entry) → comes_before none n (key_of es) m ≡ true → es ≡ []
      no_key [] b = refl
      no_key (x ∷ xs) b = cc

  least :
      (e : Entry) (t : List Entry)
      → nth ess n ≡ e ∷ t
      → (m : ℕ) → IsFrom e.bytes (nth ess m) × (m < n → is_key e.bytes (key_of (nth ess m)) ≡ false)
  least e t q m = elim (Bool-cases (m == n)) [
    | inl d ↦ (
      IsFrom-refl e t (nth ess m) (ap (nth ess) ((==_iff m n).0 d) ∙ q),
      λ l. absurd (ground (arith, d, l)),
    )
    | inr d ↦ elim (Bool-cases (ltb m (length ess))) [
      | inr l ↦
          let z = nth-beyond ess m (ground (arith, l)) in
          (
            subst (IsFrom e.bytes) (sym z) tt,
            λ l'. subst (λ x. is_key e.bytes (key_of x) ≡ false) (sym z) refl,
          )
      | inl l ↦
          let b =
            subst (λ x. comes_before (key_of x) n (key_of (nth ess m)) m ≡ true) q
              (later m d (ground (arith, l))) in
          let c = comes_before-IsFrom e.bytes n m (nth ess m) b in
          (c.0, λ l'. ground (arith, c.1, l'))
    ]
  ]

  pub merged-least :
      (e : Entry) (t : List Entry)
      → All IsSorted ess
      → nth ess n ≡ e ∷ t
      → merged ess ≡ e ∷ merged (map (past_key e.bytes) ess)
  merged-least e t s q =
      merged-first_at e.bytes ess s (nth-All (IsFrom e.bytes) ess (λ m. (least e t q m).0))
      ∙ ap (λ l. l ++ merged (map (past_key e.bytes) ess))
          (first_at-nth ess n e t q (λ m. (least e t q m).1))

  pub merged-none : nth ess n ≡ [] → merged ess ≡ []
  merged-none e = merged-empty ess (nth-All (λ es. es ≡ []) ess (all_empty e))

-- `find_min` finds no cursor exactly if there are no entries left, and otherwise the first of those
-- with the least key.
pub AtMin-cases :
    (ess : List (List Entry)) (sorted : List Slot) (cur : Option ℕ)
    → HasSlots sorted (length ess)
    → All IsSorted ess
    → AtMin ess sorted cur
    → ((cur ≡ none) × (merged ess ≡ []))
      ⊎ ((n : ℕ) × (e : Entry) × (t : List Entry) × (cur ≡ some n)
          × (nth ess n ≡ e ∷ t)
          × (merged ess ≡ e ∷ merged (map (past_key e.bytes) ess)))
AtMin-cases [] [] cur h s a = inl (a.3, refl)
AtMin-cases (es ∷ ess) [] cur h s a = absurd (no_slot (h.0 (λ q. true)))
  where
    no_slot : ¬ (false ≡ (any_below (λ q. true) (length ess) || true))
    no_slot z = ground (arith, z)
AtMin-cases ess ((n, tag) ∷ ss) cur h s a = elim (entries-cases (nth ess n)) [
  | inl q ↦ inl (cur_of q, merged-none ess n tag ss h a.0 a.1 a.2.1 q)
  | inr (e, t, q) ↦ inr (n, e, t, cur_of q, q, merged-least ess n tag ss h a.0 a.1 a.2.1 e t s q)
]
  where
    tagged : is_some_tag tag ≡ not (is_no_key (key_of (nth ess n)))
    tagged = a.2.0 ∙ ap (λ k. not (is_no_key k)) (a.1 n)

    cur_of :
        {es : List Entry}
        → nth ess n ≡ es
        → cur ≡ (if not (is_no_key (key_of es)) then some n else none)
    cur_of q =
        a.3 ∙ ap (λ b. if b then some n else none) (tagged ∙ ap (λ l. not (is_no_key (key_of l))) q)
