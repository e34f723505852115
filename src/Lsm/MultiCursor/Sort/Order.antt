-- ===== src/Lsm/MultiCursor/Sort/Order.antt =====
-- The order in which `sort` puts the numbers of the cursors, and what the tags say.
use mathlib.Core.Path.{subst}
use elmo.Common.{ℕ, zero, suc, ◌≡◌, ◌⊎◌, inl, inr, refl, sym, ap, ◌∙◌, ◌==◌, ltb, Ordering, arith}
use elmo.Common.{Bool, true, false, Option, none, some, List, [], ◌∷◌}
use elmo.Common.Outcome.{Succeeds}
use elmo.Lsm.Bcmp.{compare_bytes}
use elmo.Lsm.Bcmp.Order.{compare_bytes-eq, compare_bytes_trans, compare_bytes_lem, swap}
use elmo.Lsm.KeyRef.{KeyRef, into_boxed_slice}
use elmo.Lsm.KeyRef.Compare.{cmp_lem}
use elmo.Lsm.MultiCursor.Sort.{Move, stay, pass, move_of}

-- The bytes of a key, where there is one.
abbrev pub Key : Type 0
Key = Option (List ℕ)

abbrev pub bytes_of_key : Option KeyRef → Key
bytes_of_key none = none
bytes_of_key (some k) = some (into_boxed_slice k)

abbrev pub key_at : List (Option KeyRef) → ℕ → Key
key_at [] n = none
key_at (k ∷ ks) zero = bytes_of_key k
key_at (k ∷ ks) (suc n) = key_at ks n

-- Cursor `na` comes before cursor `nb`: its key is less, or the same and its number less.
abbrev pub comes_before : Key → ℕ → Key → ℕ → Bool
comes_before (some a) na (some b) nb = elim (compare_bytes a b) [
  | Ordering.lt ↦ true
  | Ordering.eq ↦ ltb na nb
  | Ordering.gt ↦ false
]
comes_before (some a) na none nb = true
comes_before none na (some b) nb = false
comes_before none na none nb = ltb na nb

pub Ordering-cases : (o : Ordering) → (o ≡ Ordering.lt) ⊎ ((o ≡ Ordering.eq) ⊎ (o ≡ Ordering.gt))
Ordering-cases Ordering.lt = inl refl
Ordering-cases Ordering.eq = inr (inl refl)
Ordering-cases Ordering.gt = inr (inr refl)

pub comes_before_trans :
    (a b c : Key) (na nb nc : ℕ)
    → comes_before a na b nb ≡ true
    → comes_before b nb c nc ≡ true
    → comes_before a na c nc ≡ true
comes_before_trans (some a) (some b) (some c) na nb nc h k =
    elim (Ordering-cases (compare_bytes a b)) [
      | inl l ↦ elim (Ordering-cases (compare_bytes b c)) [
        | inl m ↦ let t = compare_bytes_trans a b c l m in ground (arith, t)
        | inr (inl m) ↦
            let t = subst (λ x. compare_bytes a x ≡ Ordering.lt) (compare_bytes-eq b c m) l in
            ground (arith, t)
        | inr (inr m) ↦ cc
      ]
      | inr (inl l) ↦
          let e = compare_bytes-eq a b l in
          let t = subst (λ x. compare_bytes x c ≡ compare_bytes b c) (sym e) refl in
          ground (arith, t, l, h, k)
      | inr (inr l) ↦ cc
    ]
comes_before_trans (some a) b none na nb nc h k = refl
comes_before_trans (some a) none (some c) na nb nc h k = cc
comes_before_trans none (some b) c na nb nc h k = cc
comes_before_trans none none (some c) na nb nc h k = cc
comes_before_trans none none none na nb nc h k = ground (arith, h, k)

abbrev pub is_no_key : Key → Bool
is_no_key none = true
is_no_key (some k) = false

-- What a tag says of a key and of one that stands before it.
abbrev pub tag_fits : Option Ordering → Key → Key → Bool
tag_fits none l r = is_no_key r
tag_fits (some Ordering.eq) (some l) (some r) = elim (compare_bytes r l) [
  | Ordering.eq ↦ true
  | _ ↦ false
]
tag_fits (some Ordering.gt) (some l) (some r) = elim (compare_bytes r l) [
  | Ordering.gt ↦ true
  | _ ↦ false
]
tag_fits (some Ordering.lt) l r = false
tag_fits (some o) none r = false
tag_fits (some o) (some l) none = false

-- What the loop knows of the cursors number `nj` and, before it, `nprev`.
abbrev pub Fits : Move → Key → ℕ → Key → ℕ → Type 0
Fits (stay tag) kj nj kprev nprev =
    (comes_before kprev nprev kj nj ≡ true) × (tag_fits tag kprev kj ≡ true)
Fits (pass tag) kj nj kprev nprev =
    (comes_before kj nj kprev nprev ≡ true) × (tag_fits tag kj kprev ≡ true)

pub move_of-Fits :
    (kj kprev : Option KeyRef) (nj nprev : ℕ)
    → (nj == nprev) ≡ false
    → Succeeds
        (move_of false kj kprev nj nprev)
        (λ m. Fits m (bytes_of_key kj) nj (bytes_of_key kprev) nprev)
move_of-Fits (some kj) (some kprev) nj nprev h =
    let e = cmp_lem kj kprev in
    let s = (compare_bytes_lem (into_boxed_slice kj) (into_boxed_slice kprev)).0 in
    elim (Ordering-cases (compare_bytes (into_boxed_slice kj) (into_boxed_slice kprev))) [
      | inl l ↦ let r = s ∙ ap swap l in rw (e, l) (ground (arith, l, r))
      | inr (inl l) ↦ let r = s ∙ ap swap l in rw (e, l) (ground (arith, l, r, h))
      | inr (inr l) ↦ let r = s ∙ ap swap l in rw (e, l) (ground (arith, l, r))
    ]
move_of-Fits (some kj) none nj nprev h = (refl, refl)
move_of-Fits none (some kprev) nj nprev h = (refl, refl)
move_of-Fits none none nj nprev h = ground arith
