-- ===== src/Lsm/RangeCursor.antt =====
-- lsm/src/lib.rs, `Min`, `Max` and `RangeCursor`: the entries of a cursor between two keys.
pub mod Walk
use elmo.Common.{ℕ, Ordering, Bool, true, false, ◌&&◌, List}
use elmo.Common.Outcome.{Outcome, ok, err, panic, cursor_not_valid, ◌>>=◌}
use elmo.Lsm.KeyRef.{KeyRef, compare_with}
use elmo.Lsm.KeyRef
use elmo.Lsm.Cursor.{
  Cursor, ValueRef, SeekResult, sr_equal, sr_unequal, sr_invalid, greater_or_equal,
}
use elmo.Lsm.Cursor.Run.{ForwardCursor}
use elmo.Lsm.LivingCursor.{unwrap}

pub data OpLt : Type 0 where
  lt : OpLt
  lte : OpLt

pub data OpGt : Type 0 where
  gt : OpGt
  gte : OpGt

pub record Min : Type 0 where
  pub k : List ℕ
  pub cmp : OpGt

pub record Max : Type 0 where
  pub k : List ℕ
  pub cmp : OpLt

abbrev pub above : OpGt → Ordering → Bool
above gt Ordering.gt = true
above gt Ordering.lt = false
above gt Ordering.eq = false
above gte Ordering.gt = true
above gte Ordering.lt = false
above gte Ordering.eq = true

abbrev pub below : OpLt → Ordering → Bool
below lt Ordering.gt = false
below lt Ordering.lt = true
below lt Ordering.eq = false
below lte Ordering.gt = false
below lte Ordering.lt = true
below lte Ordering.eq = true

unfoldable pub min_is_in_bounds : Min → KeyRef → Outcome Bool
min_is_in_bounds m k = compare_with k m.k >>= λ c. ok (above m.cmp c)

unfoldable pub max_is_in_bounds : Max → KeyRef → Outcome Bool
max_is_in_bounds m k = compare_with k m.k >>= λ c. ok (below m.cmp c)

pub record RangeCursor (C : Type 0) : Type 0 where
  pub chain : C
  pub min : Min
  pub max : Max

-- `csr` has the calls of the chain, a `LivingCursor`.
module _ {C : Type 0} (csr : Cursor C) where
  unfoldable pub is_valid : RangeCursor C → Outcome Bool
  is_valid r = elim (csr.is_valid r.chain) [
    | false ↦ ok false
    | true ↦ (do
      k ← unwrap (csr.key r.chain)
      a ← min_is_in_bounds r.min k
      elim a [ false ↦ ok false | true ↦ max_is_in_bounds r.max k ])
  ]

  -- `if self.is_valid() { ... } else { Err(Error::CursorNotValid) }`
  abbrev pub if_valid {ℓ} : {A : Type ℓ} → RangeCursor C → Outcome A → Outcome A
  if_valid r call = is_valid r >>= λ v. elim v [ false ↦ err cursor_not_valid | true ↦ call ]

  unfoldable pub key : RangeCursor C → Outcome KeyRef
  key r = if_valid r (csr.key r.chain)

  unfoldable pub value : RangeCursor C → Outcome ValueRef
  value r = if_valid r (csr.value r.chain)

  unfoldable pub next : RangeCursor C → Outcome (RangeCursor C)
  next r = if_valid r (csr.next r.chain >>= λ c. ok (record r { chain = c }))

  -- `match (sr, self.min.cmp)`
  abbrev pub step_over : SeekResult → OpGt → C → Outcome C
  step_over sr_equal gt c = csr.next c
  step_over sr_equal gte c = ok c
  step_over sr_unequal op c = ok c
  step_over sr_invalid op c = ok c

  unfoldable pub first : RangeCursor C → Outcome (RangeCursor C)
  first r = do
    (c, sr) ← csr.seek r.chain (KeyRef.slice r.min.k) greater_or_equal
    c' ← step_over sr r.min.cmp c
    ok (record r { chain = c' })

  abbrev pub range_cursor : ForwardCursor (RangeCursor C)
  unfolding is_valid key value next first
  range_cursor = record {
    first = first;
    next = next;
    is_valid = is_valid;
    key = key;
    value = value;
  }
