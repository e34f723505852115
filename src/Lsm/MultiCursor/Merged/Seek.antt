-- ===== src/Lsm/MultiCursor/Merged/Seek.antt =====
-- The merged entries from a key on.
use elmo.Common.{ℕ, ◌≡◌, inl, inr, refl, ap, ◌∙◌, Ordering, arith, All}
use elmo.Common.{true, false, Bool-cases, if◌then◌else◌, List, [], ◌∷◌, map}
use elmo.Lsm.Bcmp.{compare_bytes}
use elmo.Lsm.Cursor.Forward.{Entry, IsSorted, is_less, from_key}
use elmo.Lsm.MultiCursor.Sort.Order.{Ordering-cases}
use elmo.Lsm.Bcmp.Order.{compare_bytes-eq, compare_bytes_trans}
use elmo.Lsm.MultiCursor.Merged.{insert_entry, insert_all, merged, IsFrom, IsAbove, flip}

is_less_trans :
    (x y k : List ℕ)
    → compare_bytes x y ≡ Ordering.lt
    → is_less (compare_bytes y k) ≡ true
    → is_less (compare_bytes x k) ≡ true
is_less_trans x y k h l = elim (Ordering-cases (compare_bytes y k)) [
  | inl q ↦ let t = compare_bytes_trans x y k h q in rw t refl
  | inr (inl q) ↦ cc
  | inr (inr q) ↦ cc
]

from_key-insert_entry :
    (k : List ℕ) (e : Entry) (ys : List Entry)
    → from_key k (insert_entry e ys) ≡ (
        if is_less (compare_bytes e.bytes k) then from_key k ys else insert_entry e (from_key k ys))
from_key-insert_entry k e [] = refl
from_key-insert_entry k e (y ∷ ys) = elim (Ordering-cases (compare_bytes e.bytes y.bytes)) [
  | inl l ↦
      let c : insert_entry e (y ∷ ys) ≡ e ∷ y ∷ ys = rw (insert_entry, l) refl in
      rw c (ground (arith, c, is_less_trans e.bytes y.bytes k l))
  | inr (inl l) ↦
      let c : insert_entry e (y ∷ ys) ≡ e ∷ ys = rw (insert_entry, l) refl in
      let q = ap (λ j. is_less (compare_bytes j k)) (compare_bytes-eq e.bytes y.bytes l) in
      rw c (ground (arith, c, q))
  | inr (inr l) ↦
      let c : insert_entry e (y ∷ ys) ≡ y ∷ insert_entry e ys = rw (insert_entry, l) refl in
      let t = is_less_trans y.bytes e.bytes k (flip e.bytes y.bytes Ordering.gt l) in
      rw c (ground (arith, c, t, from_key-insert_entry k e ys))
]

pub from_key-IsFrom : (k : List ℕ) (es : List Entry) → IsFrom k (from_key k es)
from_key-IsFrom k [] = tt
from_key-IsFrom k (e ∷ es) = ground (arith, from_key-IsFrom k es)

pub from_key-IsSorted : (k : List ℕ) (es : List Entry) → IsSorted es → IsSorted (from_key k es)
from_key-IsSorted k [] s = tt
from_key-IsSorted k (e ∷ es) s = ground (arith, from_key-IsSorted k es s.1, s)

-- Above a key that is not below `k`, none is.
from_key_stop :
    (k j : List ℕ) (es : List Entry)
    → is_less (compare_bytes j k) ≡ false
    → IsAbove j es
    → from_key k es ≡ es
from_key_stop k j [] h a = refl
from_key_stop k j (e ∷ es) h a = let t = is_less_trans j e.bytes k a.0 in ground (arith, t, h)

from_key-insert_all :
    (k : List ℕ) (xs ys : List Entry)
    → IsSorted xs
    → from_key k (insert_all xs ys) ≡ insert_all (from_key k xs) (from_key k ys)
from_key-insert_all k [] ys s = refl
from_key-insert_all k (x ∷ xs) ys s =
    let i = from_key-insert_all k xs ys s.1 in
    let j = from_key-insert_entry k x (insert_all xs ys) in
    elim (Bool-cases (is_less (compare_bytes x.bytes k))) [
      | inl l ↦ j ∙ rw l i
      | inr l ↦
          j
          ∙ rw l (
              ap (insert_entry x)
                (i ∙ ap (λ zs. insert_all zs (from_key k ys)) (from_key_stop k x.bytes xs l s.0)))
    ]

-- The merged entries from a key on are those of the lists from that key on.
pub from_key-merged :
    (k : List ℕ) (ess : List (List Entry))
    → All IsSorted ess
    → from_key k (merged ess) ≡ merged (map (from_key k) ess)
from_key-merged k [] s = refl
from_key-merged k (es ∷ ess) s =
    from_key-insert_all k es (merged ess) s.0
    ∙ ap (insert_all (from_key k es)) (from_key-merged k ess s.1)
