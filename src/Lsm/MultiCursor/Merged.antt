-- ===== src/Lsm/MultiCursor/Merged.antt =====
-- The entries of several cursors as one ordered list, in which those of the first hide the others'.
pub mod Step
pub mod Seek
use mathlib.Core.Path.{subst}
use elmo.Common.{ℕ, ◌≡◌, ◌⊎◌, inl, inr, refl, sym, ap, ◌∙◌, Ordering, arith, All}
use elmo.Common.{
  Bool, true, false, not, ◌&&◌, ◌||◌, Bool-cases, if◌then◌else◌, List, [], ◌∷◌, ◌++◌, map,
}
use elmo.Lsm.Bcmp.{compare_bytes}
use elmo.Lsm.Bcmp.Order.{
  compare_bytes-eq, compare_bytes_trans, compare_bytes_refl, compare_bytes_lem, swap,
}
use elmo.Lsm.Cursor.Forward.{Entry, IsSorted, is_less, from_key}
use elmo.Lsm.MultiCursor.Sort.Order.{Ordering-cases}

-- An entry is written into an ordered list: one with its key goes.
abbrev pub insert_entry : Entry → List Entry → List Entry
insert_entry e [] = e ∷ []
insert_entry e (y ∷ ys) =
    let rest = insert_entry e ys in
    elim (compare_bytes e.bytes y.bytes) [
      | Ordering.lt ↦ e ∷ y ∷ ys
      | Ordering.eq ↦ e ∷ ys
      | Ordering.gt ↦ y ∷ rest
    ]

abbrev pub insert_all : List Entry → List Entry → List Entry
insert_all [] ys = ys
insert_all (x ∷ xs) ys = insert_entry x (insert_all xs ys)

abbrev pub merged : List (List Entry) → List Entry
merged [] = []
merged (es ∷ ess) = insert_all es (merged ess)

abbrev pub is_equal : Ordering → Bool
is_equal Ordering.lt = false
is_equal Ordering.eq = true
is_equal Ordering.gt = false

-- The first entry is left out if its key is `k`.
abbrev pub past_key : List ℕ → List Entry → List Entry
past_key k [] = []
past_key k (e ∷ es) = if is_equal (compare_bytes e.bytes k) then es else e ∷ es

-- The first of the lists' first entries that has the key `k`.
abbrev pub first_at : List ℕ → List (List Entry) → List Entry
first_at k [] = []
first_at k ([] ∷ ess) = first_at k ess
first_at k ((e ∷ es) ∷ ess) =
    let rest = first_at k ess in if is_equal (compare_bytes e.bytes k) then e ∷ [] else rest

-- The first key is not below `k`.
abbrev pub IsFrom : List ℕ → List Entry → Type 0
IsFrom k [] = Unit
IsFrom k (e ∷ es) = is_less (compare_bytes e.bytes k) ≡ false

-- All keys are above `k`.
abbrev pub IsAbove : List ℕ → List Entry → Type 0
IsAbove k es = All (λ g. compare_bytes k g.bytes ≡ Ordering.lt) es

pub flip : (x y : List ℕ) (o : Ordering) → compare_bytes x y ≡ o → compare_bytes y x ≡ swap o
flip x y o h = (compare_bytes_lem x y).0 ∙ ap swap h

pub IsAbove-trans :
    (j k : List ℕ) (es : List Entry) → compare_bytes j k ≡ Ordering.lt → IsAbove k es → IsAbove j es
IsAbove-trans j k [] h a = tt
IsAbove-trans j k (e ∷ es) h a = (compare_bytes_trans j k e.bytes h a.0, IsAbove-trans j k es h a.1)

pub insert_entry-All {ℓ} :
    (P : Entry → Type ℓ) (e : Entry) (ys : List Entry) → P e → All P ys → All P (insert_entry e ys)
insert_entry-All P e [] p a = (p, a)
insert_entry-All P e (y ∷ ys) p a = elim (Ordering-cases (compare_bytes e.bytes y.bytes)) [
  | inl l ↦ rw (All, IsSorted, insert_entry, l) (p, a)
  | inr (inl l) ↦ rw (All, IsSorted, insert_entry, l) (p, a.1)
  | inr (inr l) ↦ rw (All, IsSorted, insert_entry, l) (a.0, insert_entry-All P e ys p a.1)
]

pub insert_all-All {ℓ} :
    (P : Entry → Type ℓ) (xs ys : List Entry) → All P xs → All P ys → All P (insert_all xs ys)
insert_all-All P [] ys p a = a
insert_all-All P (x ∷ xs) ys p a =
    insert_entry-All P x (insert_all xs ys) p.0 (insert_all-All P xs ys p.1 a)

insert_entry-IsSorted : (e : Entry) (ys : List Entry) → IsSorted ys → IsSorted (insert_entry e ys)
insert_entry-IsSorted e [] s = (tt, tt)
insert_entry-IsSorted e (y ∷ ys) s = elim (Ordering-cases (compare_bytes e.bytes y.bytes)) [
  | inl l ↦ rw (All, IsSorted, insert_entry, l) ((l, IsAbove-trans e.bytes y.bytes ys l s.0), s)
  | inr (inl l) ↦
      rw (All, IsSorted, insert_entry, l)
        (subst (λ k. IsAbove k ys) (sym (compare_bytes-eq e.bytes y.bytes l)) s.0, s.1)
  | inr (inr l) ↦
      rw (All, IsSorted, insert_entry, l)
        (
          insert_entry-All _ e ys (flip e.bytes y.bytes Ordering.gt l) s.0,
          insert_entry-IsSorted e ys s.1,
        )
]

insert_all-IsSorted : (xs ys : List Entry) → IsSorted ys → IsSorted (insert_all xs ys)
insert_all-IsSorted [] ys s = s
insert_all-IsSorted (x ∷ xs) ys s =
    insert_entry-IsSorted x (insert_all xs ys) (insert_all-IsSorted xs ys s)

-- The keys of the merged entries ascend.
pub merged-IsSorted : (ess : List (List Entry)) → IsSorted (merged ess)
merged-IsSorted [] = tt
merged-IsSorted (es ∷ ess) = insert_all-IsSorted es (merged ess) (merged-IsSorted ess)

pub insert_entry-first :
    (e : Entry) (ys : List Entry) → IsAbove e.bytes ys → insert_entry e ys ≡ e ∷ ys
insert_entry-first e [] a = refl
insert_entry-first e (y ∷ ys) a = let l = a.0 in rw (insert_entry, l) refl

-- Entries above the first one are inserted behind it.
pub insert_all-behind :
    (y : Entry) (xs ys : List Entry)
    → IsAbove y.bytes xs
    → insert_all xs (y ∷ ys) ≡ y ∷ insert_all xs ys
insert_all-behind y [] ys a = refl
insert_all-behind y (x ∷ xs) ys a =
    let f = flip y.bytes x.bytes Ordering.lt a.0 in
    let i = insert_all-behind y xs ys a.1 in rw i (rw (insert_entry, f) refl)

lt-not : ¬ (true ≡ false)
lt-not e = cc

pub past_key-IsAbove :
    (k : List ℕ) (es : List Entry) → IsSorted es → IsFrom k es → IsAbove k (past_key k es)
past_key-IsAbove k [] s f = tt
past_key-IsAbove k (e ∷ es) s f = elim (Ordering-cases (compare_bytes e.bytes k)) [
  | inl l ↦ absurd (lt-not (sym (ap is_less l) ∙ f))
  | inr (inl l) ↦ rw l (subst (λ j. IsAbove j es) (compare_bytes-eq e.bytes k l) s.0)
  | inr (inr l) ↦ let g = flip e.bytes k Ordering.gt l in rw l (g, IsAbove-trans k e.bytes es g s.0)
]

pub past_key-IsSorted : (k : List ℕ) (es : List Entry) → IsSorted es → IsSorted (past_key k es)
past_key-IsSorted k [] s = s
past_key-IsSorted k (e ∷ es) s = elim (Bool-cases (is_equal (compare_bytes e.bytes k))) [
  | inl l ↦ rw l s.1
  | inr l ↦ rw l s
]

pub first_at-cases :
    (k : List ℕ) (ess : List (List Entry))
    → (first_at k ess ≡ [])
      ⊎ ((y : Entry) × (first_at k ess ≡ y ∷ []) × (compare_bytes y.bytes k ≡ Ordering.eq))
first_at-cases k [] = inl refl
first_at-cases k ([] ∷ ess) = first_at-cases k ess
first_at-cases k ((e ∷ es) ∷ ess) = elim (Ordering-cases (compare_bytes e.bytes k)) [
  | inl l ↦ rw l (first_at-cases k ess)
  | inr (inl l) ↦ inr (e, rw l refl, l)
  | inr (inr l) ↦ rw l (first_at-cases k ess)
]
