-- ===== src/Lsm/Cursor/Forward.antt =====
-- What a cursor over an ordered list of entries promises of the calls that go forward.
use elmo.Common.{
  ℕ, ◌≤◌, length, arith, ◌≡◌, Ordering, Bool, true, false, List, [], ◌∷◌, All, if◌then◌else◌,
}
use elmo.Common.Outcome.{ok, Succeeds}
use elmo.Lsm.Bcmp.{compare_bytes}
use elmo.Lsm.KeyRef.{KeyRef, into_boxed_slice}
use elmo.Lsm.Cursor.{
  Cursor, ValueRef, tombstone, greater_or_equal, SeekResult, sr_invalid, sr_unequal, sr_equal,
}

pub record Entry : Type 0 where
  pub bytes : List ℕ
  pub stored : ValueRef

-- The keys ascend.
abbrev pub IsSorted : List Entry → Type 0
IsSorted [] = Unit
IsSorted (e ∷ es) = All (λ f. compare_bytes e.bytes f.bytes ≡ Ordering.lt) es × IsSorted es

abbrev pub is_tombstone : ValueRef → Bool
is_tombstone tombstone = true
is_tombstone (ValueRef.slice a) = false
is_tombstone (ValueRef.overflowed page) = false

abbrev pub is_less : Ordering → Bool
is_less Ordering.lt = true
is_less Ordering.eq = false
is_less Ordering.gt = false

-- The entries from the first on whose key is not below `k`.
abbrev pub from_key : List ℕ → List Entry → List Entry
from_key k [] = []
from_key k (e ∷ es) =
    let rest = from_key k es in if is_less (compare_bytes e.bytes k) then rest else e ∷ es

pub length-from_key : (k : List ℕ) (es : List Entry) → length (from_key k es) ≤ length es
length-from_key k [] = omega arith
length-from_key k (e ∷ es) = ground (arith, length-from_key k es)

abbrev pub found : Ordering → SeekResult
found Ordering.eq = sr_equal
found Ordering.lt = sr_unequal
found Ordering.gt = sr_unequal

-- What a seek for `k` says that ends where the entries `es` begin.
abbrev pub result_at : List ℕ → List Entry → SeekResult
result_at k [] = sr_invalid
result_at k (e ∷ es) = found (compare_bytes e.bytes k)

abbrev pub is_some_entry : List Entry → Bool
is_some_entry [] = false
is_some_entry (e ∷ es) = true

-- A cursor over the entries `all`. `Shows c es` says that from `c` on the cursor has the entries
-- `es` still to give, the first of them where it stands.
pub record Forward {C : Type 0} (csr : Cursor C) (all : List Entry) : Type 1 where
  pub Shows : C → List Entry → Type 0
  pub is_valid-Shows : (c : C) (es : List Entry) → Shows c es → csr.is_valid c ≡ is_some_entry es
  pub key-Shows :
      (c : C) (e : Entry) (es : List Entry)
      → Shows c (e ∷ es)
      → Succeeds (csr.key c) (λ k. into_boxed_slice k ≡ e.bytes)
  pub value-Shows :
      (c : C) (e : Entry) (es : List Entry) → Shows c (e ∷ es) → csr.value c ≡ ok e.stored
  pub value_is_tombstone-Shows :
      (c : C) (e : Entry) (es : List Entry)
      → Shows c (e ∷ es)
      → csr.value_is_tombstone c ≡ ok (is_tombstone e.stored)
  pub next-Shows :
      (c : C) (e : Entry) (es : List Entry)
      → Shows c (e ∷ es)
      → Succeeds (csr.next c) (λ c'. Shows c' es)
  pub first-Shows :
      (c : C) (es : List Entry) → Shows c es → Succeeds (csr.first c) (λ c'. Shows c' all)
  pub seek-Shows :
      (c : C) (es : List Entry) (k : KeyRef)
      → Shows c es
      → Succeeds (csr.seek c k greater_or_equal) λ r.
        Shows r.0 (from_key (into_boxed_slice k) all)
        × (r.1 ≡ result_at (into_boxed_slice k) (from_key (into_boxed_slice k) all))
