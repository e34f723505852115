-- ===== src/Lsm/MultiCursor/Next.antt =====
-- `next`: the cursors that stand at the current key go past it.
use mathlib.Core.Path.{subst}
use elmo.Common.{
  ℕ, ◌<◌, ◌≡◌, inl, inr, refl, sym, ap, ◌∙◌, ◌==◌, ==_iff, Ordering, arith, length, set,
}
use elmo.Common.{
  Bool, true, false, not, ◌||◌, Bool-cases, if◌then◌else◌, Option, none, some, List, [], ◌∷◌,
}
use elmo.Common.Map.{is_none}
use elmo.Common.Outcome.{Succeeds, Succeeds->>=, Succeeds-imp}
use elmo.Lsm.Bcmp.{compare_bytes}
use elmo.Lsm.Bcmp.Order.{compare_bytes_lem, compare_bytes-eq}
use elmo.Lsm.KeyRef.{KeyRef}
use elmo.Lsm.Cursor.{Cursor}
use elmo.Lsm.Cursor.Forward.{Entry}
use elmo.Lsm.MultiCursor.Sort.{Slot, modify_at}
use elmo.Lsm.MultiCursor.Sort.Order.{Key, key_at, comes_before, is_no_key, tag_fits}
use elmo.Lsm.MultiCursor.Sort.Sift.{any_slot, tag_ok}
use elmo.Lsm.MultiCursor.Sort.Sorted.{other, IsDistinct, AscendFrom, AscendFrom-later}
use elmo.Lsm.MultiCursor.Merged.{past_key}
use elmo.Lsm.MultiCursor.Shown.{
  Source, nth, key_of, is_key, nth-length, nth-set, length-set, past_key_other, past_key_same,
  ShowsAll, modify_at_lem,
}
use elmo.Lsm.MultiCursor.{next_equals}

-- All slots of `left` have the key `k`.
abbrev pub AllAt : List (Option KeyRef) → List ℕ → List Slot → Type 0
AllAt ka k left = any_slot (λ q. not (is_key k (key_at ka q))) left ≡ false

key_eq : (k l : List ℕ) → is_key k (some l) ≡ true → l ≡ k
key_eq k l h = compare_bytes-eq l k (ground (arith, h))

same_key :
    (k : List ℕ) (l r : Key)
    → is_key k l ≡ true
    → tag_fits (some Ordering.eq) l r ≡ true
    → is_key k r ≡ true
same_key k none r h t = cc
same_key k (some l) none h t = cc
same_key k (some l) (some r) h t =
    let z = ap (compare_bytes r) (key_eq k l h) in ground (arith, z, t)

greater_key :
    (k : List ℕ) (l r : Key)
    → is_key k l ≡ true
    → tag_fits (some Ordering.gt) l r ≡ true
    → is_key k r ≡ false
greater_key k none r h t = cc
greater_key k (some l) none h t = cc
greater_key k (some l) (some r) h t =
    let z = ap (compare_bytes r) (key_eq k l h) in ground (arith, z, t)

module _ (ka : List (Option KeyRef)) (k : List ℕ) where
  -- What holds of one slot of `left` that `P` is true of.
  any_at :
      (P : ℕ → Bool) (b : Bool) (left : List Slot)
      → ((q : ℕ) → is_key k (key_at ka q) ≡ true → P q ≡ true → b ≡ true)
      → AllAt ka k left
      → any_slot P left ≡ true
      → b ≡ true
  any_at P b [] f h a = cc
  any_at P b (s ∷ left) f h a = elim (Bool-cases (P s.0)) [
    | inl p ↦ f s.0 (ground (arith, h)) p
    | inr p ↦ any_at P b left f (ground (arith, h)) (ground (arith, a, p))
  ]

  -- A tag `Equal` is that of a cursor with the key, and a slot without one is not.
  tagged_equal :
      (left : List Slot) (n : ℕ)
      → AllAt ka k left
      → tag_ok ka left (n, some Ordering.eq) ≡ true
      → is_key k (key_at ka n) ≡ true
  tagged_equal left n h t =
      any_at (λ q. tag_fits (some Ordering.eq) (key_at ka q) (key_at ka n)) (is_key k (key_at ka n))
        left (λ q a b. same_key k (key_at ka q) (key_at ka n) a b) h t

  tagged_greater :
      (left : List Slot) (n : ℕ)
      → AllAt ka k left
      → tag_ok ka left (n, some Ordering.gt) ≡ true
      → is_key k (key_at ka n) ≡ false
  tagged_greater left n h t = ground (
    arith,
    any_at (λ q. tag_fits (some Ordering.gt) (key_at ka q) (key_at ka n))
        (not (is_key k (key_at ka n))) left
        (λ q a b. (let g = greater_key k (key_at ka q) (key_at ka n) a b in ground (arith, g))) h t,
  )

-- Behind a cursor with the key and one with another, none has the key.
above_key :
    (k : List ℕ) (kq kn km : Key) (q n m : ℕ)
    → is_key k kq ≡ true
    → comes_before kq q kn n ≡ true
    → is_key k kn ≡ false
    → comes_before kn n km m ≡ true
    → is_key k km ≡ false
above_key k none kn km q n m h a b c = cc
above_key k (some x) none none q n m h a b c = refl
above_key k (some x) none (some z) q n m h a b c = cc
above_key k (some x) (some y) none q n m h a b c = refl
above_key k (some x) (some y) (some z) q n m h a b c = elim (Bool-cases (is_key k (some z))) [
  | inr d ↦ d
  | inl d ↦
      let e = ap (λ j. compare_bytes j y) (key_eq k x h) in
      let f = ap (compare_bytes y) (key_eq k z d) in
      let g = (compare_bytes_lem k y).0 in absurd (ground (arith, a, b, c, e, f, g))
]

-- What `next_equals` leaves: the cursors of `ss` are past the key, the others stand where they were.
abbrev pub Past :
    {C : Type 0} (csr : Cursor C)
    → List (Source csr)
    → List ℕ
    → List Slot
    → List (List Entry)
    → List C
    → Type 0
Past csr fs k ss ess cs' =
    (ess' : List (List Entry)) × ShowsAll csr fs cs' ess'
    × (length ess' ≡ length ess)
    × ((m : ℕ)
        → nth ess' m ≡ (if any_slot (λ q. m == q) ss then past_key k (nth ess m) else nth ess m))

module _ {C : Type 0} (csr : Cursor C) (fs : List (Source csr)) (ka : List (Option KeyRef))
    (k : List ℕ) where
  -- Where the loop stops, all slots from there on are above the key, or without one.
  stop_lem :
      (n : ℕ) (tag : Option Ordering) (left ss : List Slot) (cs : List C) (ess : List (List Entry))
      → is_key k (key_at ka n) ≡ false
      → AscendFrom ka left ((n, tag) ∷ ss)
      → AllAt ka k left
      → is_none left ≡ false
      → ((m : ℕ) → any_slot (λ q. m == q) ((n, tag) ∷ ss) ≡ true → key_at ka m ≡ key_of (nth ess m))
      → ShowsAll csr fs cs ess
      → Past csr fs k ((n, tag) ∷ ss) ess cs
  stop_lem n tag left ss cs ess b a l e keys s = (
    ess,
    s,
    refl,
    λ m. elim (Bool-cases (any_slot (λ q. m == q) ((n, tag) ∷ ss))) [
      | inr i ↦ rw i refl
      | inl i ↦
          let c = subst (λ x. is_key k x ≡ false) (keys m i) (above m i left a l e) in
          rw i (sym (past_key_other k (nth ess m) c))
    ],
  )
    where
      above :
          (m : ℕ)
          → any_slot (λ q. m == q) ((n, tag) ∷ ss) ≡ true
          → (left : List Slot) → AscendFrom ka left ((n, tag) ∷ ss)
          → AllAt ka k left
          → is_none left ≡ false
          → is_key k (key_at ka m) ≡ false
      above m i [] a l e = cc
      above m i (q ∷ left) a l e = elim (Bool-cases (m == n)) [
        | inl d ↦ subst (λ x. is_key k (key_at ka x) ≡ false) (sym ((==_iff m n).0 d)) b
        | inr d ↦
            above_key k (key_at ka q.0) (key_at ka n) (key_at ka m) q.0 n m (ground (arith, l))
              (AscendFrom-later ka q.0 n (q ∷ left) ((n, tag) ∷ ss) a (ground arith) (ground arith))
              b
              (AscendFrom-later ka n m ((n, tag) ∷ q ∷ left) ss a.2 (ground arith)
                (ground (arith, i, d)))
      ]

  pub next_equals_lem :
      (left ss : List Slot) (cs : List C) (ess : List (List Entry))
      → AscendFrom ka left ss
      → IsDistinct ss
      → AllAt ka k left
      → is_none left ≡ false
      → ((m : ℕ) → any_slot (λ q. m == q) ss ≡ true → key_at ka m ≡ key_of (nth ess m))
      → ShowsAll csr fs cs ess
      → Succeeds (next_equals csr cs ss) (Past csr fs k ss ess)
  unfolding next_equals
  next_equals_lem left [] cs ess a d l e keys s = (ess, s, refl, λ m. refl)
  next_equals_lem left ((n, none) ∷ ss) cs ess a d l e keys s =
      stop_lem n none left ss cs ess (no_tag (key_at ka n) (ground (arith, a.1, e))) a l e keys s
    where
      no_tag : (x : Key) → is_no_key x ≡ true → is_key k x ≡ false
      no_tag none h = refl
      no_tag (some x) h = cc
  next_equals_lem left ((n, some Ordering.lt) ∷ ss) cs ess a d l e keys s =
      let z =
        any_at ka k (λ q. tag_fits (some Ordering.lt) (key_at ka q) (key_at ka n)) false left
          (λ q a b. b) l a.1 in
      cc
  next_equals_lem left ((n, some Ordering.gt) ∷ ss) cs ess a d l e keys s =
      stop_lem n (some Ordering.gt) left ss cs ess (tagged_greater ka k left n l a.1) a l e keys s
  next_equals_lem left ((n, some Ordering.eq) ∷ ss) cs ess a d l e keys s =
      let b = tagged_equal ka k left n l a.1 in
      let c =
        past_key_same k (nth ess n) (subst (λ x. is_key k x ≡ true) (keys n (ground arith)) b) in
      let t = past_key k (nth ess n) in
      Succeeds->>= (λ cs'. ShowsAll csr fs cs' (set ess n t)) _ (modify_at csr.next cs n) _
        (modify_at_lem csr fs cs ess n c.0 t s c.1)
        (λ cs' s'.
          Succeeds-imp (Past csr fs k ss (set ess n t)) _ (next_equals csr cs' ss)
            (next_equals_lem ((n, some Ordering.eq) ∷ left) ss cs' (set ess n t) a.2 d.1
              (ground (arith, l, b)) refl (λ m i. other_key m i) s')
            (λ cs'' r. (r.0, r.1, r.2 ∙ length-set ess n t, λ m. r.3 m ∙ each m)))
    where
      len : n < length ess
      len =
          let b = tagged_equal ka k left n l a.1 in
          let c =
            past_key_same k (nth ess n)
              (subst (λ x. is_key k x ≡ true) (keys n (ground arith)) b) in
          nth-length ess n c.0 (past_key k (nth ess n)) c.1

      other_key :
          (m : ℕ)
          → any_slot (λ q. m == q) ss ≡ true
          → key_at ka m ≡ key_of (nth (set ess n (past_key k (nth ess n))) m)
      other_key m i =
          let o = other m n ss d.0 i in
          let f = nth-set ess n m (past_key k (nth ess n)) len in
          keys m (ground (arith, i))
          ∙ ap key_of (sym (f ∙ (let o' : (n == m) ≡ false = ground (arith, o) in rw o' refl)))

      each :
          (m : ℕ)
          → (if any_slot (λ q. m == q) ss
              then past_key k (nth (set ess n (past_key k (nth ess n))) m)
              else nth (set ess n (past_key k (nth ess n))) m)
            ≡ (if (m == n) || any_slot (λ q. m == q) ss then past_key k (nth ess m) else nth ess m)
      each m = elim (Bool-cases (m == n)) [
        | inl q ↦
            let e = (==_iff m n).0 q in
            let out : any_slot (λ x. m == x) ss ≡ false =
              subst (λ y. any_slot (λ x. y == x) ss ≡ false) (sym e) d.0 in
            let f = nth-set ess n m (past_key k (nth ess n)) len in
            let q' : (n == m) ≡ true = ground (arith, q) in
            let g : past_key k (nth ess n) ≡ past_key k (nth ess m) =
              ap (λ x. past_key k (nth ess x)) (sym e) in
            rw (out, q) (f ∙ rw q' g)
        | inr q ↦
            let f = nth-set ess n m (past_key k (nth ess n)) len in
            let q' : (n == m) ≡ false = ground (arith, q) in
            let g : nth (set ess n (past_key k (nth ess n))) m ≡ nth ess m = f ∙ rw q' refl in
            rw (q, g) refl
      ]
