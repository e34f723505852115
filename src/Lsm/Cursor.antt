-- ===== src/Lsm/Cursor.antt =====
-- lsm/src/lib.rs, the traits of cursors, `SeekOp` and `SeekResult`. A cursor that a call leaves
-- changed is the call's result; the one that a call leaves when it fails is not modelled.
pub mod Forward
pub mod Run
use elmo.Common.{ℕ, ◌==◌, Ordering, Bool, true, false, List}
use elmo.Common.Outcome.{Outcome, ok, err, panic, ◌>>=◌}
use elmo.Lsm.KeyRef.{KeyRef, cmp}

-- `overflowed` has the first page of a value outside of the leaf, the page cache is left out.
pub data ValueRef : Type 0 where
  slice : List ℕ → ValueRef
  overflowed : ℕ → ValueRef
  tombstone : ValueRef

pub data SeekOp : Type 0 where
  equal : SeekOp
  less_or_equal : SeekOp
  greater_or_equal : SeekOp

pub data SeekResult : Type 0 where
  sr_invalid : SeekResult
  sr_unequal : SeekResult
  sr_equal : SeekResult

-- `IForwardCursor`, `IValue` and `ISeekableCursor`.
pub record Cursor (C : Type 0) : Type 0 where
  pub first : C → Outcome C
  pub next : C → Outcome C
  pub is_valid : C → Bool
  pub key : C → Outcome KeyRef
  pub value : C → Outcome ValueRef
  pub value_is_tombstone : C → Outcome Bool
  pub seek : C → KeyRef → SeekOp → Outcome (C × SeekResult)
  pub last : C → Outcome C
  pub prev : C → Outcome C

abbrev pub sr_is_valid : SeekResult → Bool
sr_is_valid sr_invalid = false
sr_is_valid sr_unequal = true
sr_is_valid sr_equal = true

abbrev pub sr_is_valid_and_equal : SeekResult → Bool
sr_is_valid_and_equal sr_invalid = false
sr_is_valid_and_equal sr_unequal = false
sr_is_valid_and_equal sr_equal = true

unfoldable pub from_cursor : {C : Type 0} → Cursor C → C → KeyRef → Outcome SeekResult
from_cursor csr c k = elim (csr.is_valid c) [
  | false ↦ ok sr_invalid
  | true ↦ (do
    kc ← csr.key c
    o ← cmp kc k
    elim o [ Ordering.eq ↦ ok sr_equal | _ ↦ ok sr_unequal ])
]
