-- ===== src/Lsm/LivingCursor.antt =====
-- lsm/src/lib.rs, `LivingCursor`: a cursor that passes over the tombstones of another. That is a
-- `MultiCursor` in the source, of which only the traits are used. The field `id`, which only a message of `drop`
-- prints, is left out, and so is `verify`, which only the `expensive_check` configuration calls.
pub mod Walk
pub mod Loops
mod Tests
use elmo.Common.{ℕ, zero, suc, ◌+◌, Bool, true, false, ◌&&◌, not, List, if◌then◌else◌}
use elmo.Common.Outcome.{Outcome, ok, err, panic, misc, ◌>>=◌}
use elmo.Lsm.KeyRef.{KeyRef}
use elmo.Lsm.Cursor.{Cursor, ValueRef, tombstone, SeekOp, equal, greater_or_equal, less_or_equal}
use elmo.Lsm.Cursor.{SeekResult, sr_is_valid, from_cursor}

pub record LivingCursor (C : Type 0) : Type 0 where
  pub chain : C
  pub skipped : ℕ

-- `r.is_ok() && !r.unwrap()`. A panic of the call that gives `r` is false here.
abbrev pub ok_and_not : Outcome Bool → Bool
ok_and_not (ok b) = not b
ok_and_not (err e) = false
ok_and_not panic = false

-- A `LiveValueRef` is a `ValueRef` that is no tombstone.
abbrev pub live_value : ValueRef → Outcome ValueRef
live_value tombstone = err misc
live_value (ValueRef.slice a) = ok (ValueRef.slice a)
live_value (ValueRef.overflowed page) = ok (ValueRef.overflowed page)

-- `r.unwrap()`
abbrev pub unwrap {ℓ} : {A : Type ℓ} → Outcome A → Outcome A
unwrap (ok a) = ok a
unwrap (err e) = panic
unwrap panic = panic

-- `fuel` bounds the rounds of the loops over tombstones: a loop that needs more is a panic here.
module _ {C : Type 0} (csr : Cursor C) where
  -- The loops of `skip_tombstones_forward` and `_backward`, where `step` is `next` or `prev`.
  unfoldable pub skip_tombstones : (C → Outcome C) → ℕ → LivingCursor C → Outcome (LivingCursor C)
  skip_tombstones step zero l = panic
  skip_tombstones step (suc fuel) l = elim (csr.is_valid l.chain) [
    | false ↦ ok l
    | true ↦ (do
      t ← csr.value_is_tombstone l.chain
      elim t [
        | false ↦ ok l
        | true ↦ (do
          c ← step l.chain
          skip_tombstones step fuel (record l { chain = c; skipped = l.skipped + 1 }))
      ])
  ]

  abbrev pub skip_tombstones_forward : ℕ → LivingCursor C → Outcome (LivingCursor C)
  skip_tombstones_forward fuel l = skip_tombstones csr.next fuel l

  abbrev pub skip_tombstones_backward : ℕ → LivingCursor C → Outcome (LivingCursor C)
  skip_tombstones_backward fuel l = skip_tombstones csr.prev fuel l

  unfoldable pub first : ℕ → LivingCursor C → Outcome (LivingCursor C)
  first fuel l = csr.first l.chain >>= λ c. skip_tombstones_forward fuel (record l { chain = c })

  unfoldable pub next : ℕ → LivingCursor C → Outcome (LivingCursor C)
  next fuel l = csr.next l.chain >>= λ c. skip_tombstones_forward fuel (record l { chain = c })

  unfoldable pub last : ℕ → LivingCursor C → Outcome (LivingCursor C)
  last fuel l = csr.last l.chain >>= λ c. skip_tombstones_backward fuel (record l { chain = c })

  unfoldable pub prev : ℕ → LivingCursor C → Outcome (LivingCursor C)
  prev fuel l = csr.prev l.chain >>= λ c. skip_tombstones_backward fuel (record l { chain = c })

  unfoldable pub is_valid : LivingCursor C → Bool
  is_valid l = csr.is_valid l.chain && ok_and_not (csr.value_is_tombstone l.chain)

  unfoldable pub value : LivingCursor C → Outcome ValueRef
  value l = csr.value l.chain >>= live_value

  -- `sr.is_valid() && self.chain.value_is_tombstone().unwrap()`
  abbrev pub stands_on_tombstone : C → SeekResult → Outcome Bool
  stands_on_tombstone c sr = elim (sr_is_valid sr) [
    | false ↦ ok false
    | true ↦ unwrap (csr.value_is_tombstone c)
  ]

  -- The rest of `seek`, once the chain stands at `c`.
  abbrev pub after_seek :
      (LivingCursor C → Outcome (LivingCursor C))
      → LivingCursor C
      → SeekResult
      → KeyRef
      → Outcome (LivingCursor C × SeekResult)
  after_seek skip l sr k = do
    dead ← stands_on_tombstone l.chain sr
    elim dead [
      | false ↦ ok (l, sr)
      | true ↦ (do l' ← skip l; sr' ← from_cursor csr l'.chain k; ok (l', sr'))
    ]

  unfoldable pub seek : ℕ → LivingCursor C → KeyRef → SeekOp → Outcome (LivingCursor C × SeekResult)
  seek fuel l k sop = do
    (c, sr) ← csr.seek l.chain k sop
    let l' = record l { chain = c }
    elim sop [
      | greater_or_equal ↦ after_seek (skip_tombstones_forward fuel) l' sr k
      | less_or_equal ↦ after_seek (skip_tombstones_backward fuel) l' sr k
      | equal ↦ ok (l', sr)
    ]

  -- The traits of a `LivingCursor`. It has no `value_is_tombstone`: here that is the chain's.
  abbrev pub living : ℕ → Cursor (LivingCursor C)
  unfolding first next last prev is_valid value seek
  living fuel = record {
    first = first fuel;
    next = next fuel;
    is_valid = is_valid;
    key = λ l. csr.key l.chain;
    value = value;
    value_is_tombstone = λ l. csr.value_is_tombstone l.chain;
    seek = seek fuel;
    last = last fuel;
    prev = prev fuel;
  }
