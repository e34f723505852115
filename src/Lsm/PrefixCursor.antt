-- ===== src/Lsm/PrefixCursor.antt =====
-- lsm/src/lib.rs, `PrefixCursor`: the entries of a cursor whose keys start with a prefix.
pub mod Walk
use elmo.Common.{ℕ, Bool, true, false, List}
use elmo.Common.Outcome.{Outcome, ok, err, panic, cursor_not_valid, ◌>>=◌}
use elmo.Lsm.KeyRef.{KeyRef, starts_with}
use elmo.Lsm.KeyRef
use elmo.Lsm.Cursor.{Cursor, ValueRef, greater_or_equal}
use elmo.Lsm.Cursor.Run.{ForwardCursor}
use elmo.Lsm.LivingCursor.{unwrap}

pub record PrefixCursor (C : Type 0) : Type 0 where
  pub chain : C
  pub prefix : List ℕ

-- `csr` has the calls of the chain, a `LivingCursor`.
module _ {C : Type 0} (csr : Cursor C) where
  unfoldable pub is_valid : PrefixCursor C → Outcome Bool
  is_valid r = elim (csr.is_valid r.chain) [
    | false ↦ ok false
    | true ↦ unwrap (csr.key r.chain) >>= λ k. starts_with k r.prefix
  ]

  -- `if self.is_valid() { ... } else { Err(Error::CursorNotValid) }`
  abbrev pub if_valid {ℓ} : {A : Type ℓ} → PrefixCursor C → Outcome A → Outcome A
  if_valid r call = is_valid r >>= λ v. elim v [ false ↦ err cursor_not_valid | true ↦ call ]

  unfoldable pub key : PrefixCursor C → Outcome KeyRef
  key r = if_valid r (csr.key r.chain)

  unfoldable pub value : PrefixCursor C → Outcome ValueRef
  value r = if_valid r (csr.value r.chain)

  unfoldable pub next : PrefixCursor C → Outcome (PrefixCursor C)
  next r = if_valid r (csr.next r.chain >>= λ c. ok (record r { chain = c }))

  unfoldable pub first : PrefixCursor C → Outcome (PrefixCursor C)
  first r = do
    (c, sr) ← csr.seek r.chain (KeyRef.slice r.prefix) greater_or_equal
    ok (record r { chain = c })

  abbrev pub prefix_cursor : ForwardCursor (PrefixCursor C)
  unfolding is_valid key value next first
  prefix_cursor = record {
    first = first;
    next = next;
    is_valid = is_valid;
    key = key;
    value = value;
  }
