-- ===== src/Lsm/MultiCursor.antt =====
-- lsm/src/lib.rs, `MultiCursor`: one cursor over several, of which the first with a key hides the
-- others with it. The `PageCursor`s are any cursors, `csr` their calls.
pub mod Sort
pub mod Merged
pub mod Shown
pub mod FindMin
pub mod Least
pub mod Next
pub mod Sought
pub mod Others
pub mod Refine
pub mod Loops
mod Tests
use elmo.Common.{ℕ, zero, suc, ◌+◌, ◌==◌, compare, Ordering, Bool, true, false, not, ◌&&◌, ◌||◌}
use elmo.Common.{Option, none, some, List, [], ◌∷◌, ◌++◌, take, drop, if◌then◌else◌}
use elmo.Common.Map.{is_none}
use elmo.Common.Outcome.{Outcome, ok, err, panic, cursor_not_valid, ◌>>=◌, ◌>>◌, guard}
use elmo.Lsm.KeyRef.{KeyRef, cmp, into_boxed_slice}
use elmo.Lsm.Cursor.{Cursor, ValueRef, SeekOp, equal, greater_or_equal, less_or_equal}
use elmo.Lsm.Cursor.{SeekResult, sr_invalid, sr_is_valid_and_equal, from_cursor}
use elmo.Lsm.MultiCursor.Sort.{Slot, get, modify_at, sort_slots, is_some_tag}

pub data Direction : Type 0 where
  forward : Direction
  backward : Direction
  wandering : Direction

pub record MultiCursor (C : Type 0) : Type 0 where
  pub subcursors : List C
  pub sorted : List Slot
  pub cur : Option ℕ
  pub dir : Direction

abbrev pub slots_from : {C : Type 0} → ℕ → List C → List Slot
slots_from i [] = []
slots_from i (c ∷ cs) = (i, none) ∷ slots_from (suc i) cs

unfoldable pub new : {C : Type 0} → List C → MultiCursor C
new subs = record { subcursors = subs; sorted = slots_from 0 subs; cur = none; dir = wandering }

-- `self.dir == Direction::Forward`
abbrev pub is_forward : Direction → Bool
is_forward forward = true
is_forward backward = false
is_forward wandering = false

abbrev pub is_backward : Direction → Bool
is_backward forward = false
is_backward backward = true
is_backward wandering = false

-- What `match self.cur` does, where `f` is the case of `Some`.
abbrev pub with_cur {ℓ} : {A : Type ℓ} → Option ℕ → (ℕ → Outcome A) → Outcome A
with_cur none f = err cursor_not_valid
with_cur (some icur) f = f icur

module _ {C : Type 0} (csr : Cursor C) where
  -- `ka`: the keys of the cursors that are valid.
  unfoldable pub keys_of : List C → Outcome (List (Option KeyRef))
  keys_of [] = ok []
  keys_of (c ∷ cs) = do
    k ← if csr.is_valid c then (csr.key c >>= λ k. ok (some k)) else ok none
    ks ← keys_of cs
    ok (k ∷ ks)

  unfoldable pub sort : MultiCursor C → Bool → Outcome (MultiCursor C)
  sort m want_max = if is_none m.subcursors then ok m else (do
    ka ← keys_of m.subcursors
    sorted ← sort_slots want_max ka m.sorted
    ok (record m { sorted = sorted }))

  abbrev pub sorted_first : List Slot → Outcome (Option ℕ)
  sorted_first [] = panic
  sorted_first (s ∷ ss) = ok (if is_some_tag s.1 then some s.0 else none)

  abbrev pub find : MultiCursor C → Bool → Outcome (MultiCursor C × Option ℕ)
  find m want_max =
      if is_none m.subcursors
      then ok (m, none)
      else (do m' ← sort m want_max; first ← sorted_first m'.sorted; ok (m', first))

  unfoldable pub find_min : MultiCursor C → Outcome (MultiCursor C × Option ℕ)
  find_min m = find (record m { dir = forward }) false

  unfoldable pub find_max : MultiCursor C → Outcome (MultiCursor C × Option ℕ)
  find_max m = find (record m { dir = backward }) true

  -- `self.cur = try!(self.find_min())`
  abbrev pub to_min : MultiCursor C → Outcome (MultiCursor C)
  to_min m = find_min m >>= λ r. ok (record r.0 { cur = r.1 })

  abbrev pub to_max : MultiCursor C → Outcome (MultiCursor C)
  to_max m = find_max m >>= λ r. ok (record r.0 { cur = r.1 })

  -- The loop of `seek`: the cursors, and the number of the first that stands at `k`. Those after it
  -- stay where they are.
  unfoldable pub seek_loop :
      List C → ℕ → KeyRef → SeekOp → Outcome (List C × Option (ℕ × SeekResult))
  seek_loop [] j k sop = ok ([], none)
  seek_loop (c ∷ cs) j k sop =
      let rest = seek_loop cs (j + 1) k sop in
      csr.seek c k sop >>= λ r.
      if sr_is_valid_and_equal r.1
      then ok (r.0 ∷ cs, some (j, r.1))
      else (rest >>= λ s. ok (r.0 ∷ s.0, s.1))

  abbrev pub result_for : MultiCursor C → KeyRef → Option ℕ → Outcome (MultiCursor C × SeekResult)
  result_for m k none = ok (m, sr_invalid)
  result_for m k (some i) = get m.subcursors i >>= λ c. from_cursor csr c k >>= λ sr. ok (m, sr)

  -- What `seek` gives where no cursor stands at `k`, once `find_min` or `find_max` is done.
  abbrev pub result_of : MultiCursor C → KeyRef → Outcome (MultiCursor C × SeekResult)
  result_of m k = result_for m k m.cur

  abbrev pub seek_unequal : MultiCursor C → KeyRef → SeekOp → Outcome (MultiCursor C × SeekResult)
  seek_unequal m k greater_or_equal = to_min m >>= λ m'. result_of m' k
  seek_unequal m k less_or_equal = to_max m >>= λ m'. result_of m' k
  seek_unequal m k equal = ok (m, sr_invalid)

  unfoldable pub seek : MultiCursor C → KeyRef → SeekOp → Outcome (MultiCursor C × SeekResult)
  seek m k sop = do
    (subs, found) ← seek_loop m.subcursors 0 k sop
    let m' = record m { subcursors = subs; cur = none; dir = wandering }
    elim found [ some (j, sr) ↦ ok (record m' { cur = some j }, sr) | none ↦ seek_unequal m' k sop ]

  unfoldable pub value : MultiCursor C → Outcome ValueRef
  value m = with_cur m.cur λ icur. get m.subcursors icur >>= λ c. csr.value c

  unfoldable pub value_is_tombstone : MultiCursor C → Outcome Bool
  value_is_tombstone m =
      with_cur m.cur λ icur. get m.subcursors icur >>= λ c. csr.value_is_tombstone c

  unfoldable pub key : MultiCursor C → Outcome KeyRef
  key m = with_cur m.cur λ icur. get m.subcursors icur >>= λ c. csr.key c

  -- An index out of bounds, which would be a panic, counts as not valid.
  unfoldable pub is_valid : MultiCursor C → Bool
  is_valid m = elim m.cur [
    | none ↦ false
    | some i ↦ elim (get m.subcursors i) [ ok c ↦ csr.is_valid c | err e ↦ false | panic ↦ false ]
  ]

  -- `for csr in subs { try!(f(csr)) }`
  abbrev pub for_all : (C → Outcome C) → List C → Outcome (List C)
  for_all f [] = ok []
  for_all f (c ∷ cs) = do c' ← f c; cs' ← for_all f cs; ok (c' ∷ cs')

  unfoldable pub first : MultiCursor C → Outcome (MultiCursor C)
  first m = do subs ← for_all csr.first m.subcursors; to_min (record m { subcursors = subs })

  unfoldable pub last : MultiCursor C → Outcome (MultiCursor C)
  last m = do subs ← for_all csr.last m.subcursors; to_max (record m { subcursors = subs })

  -- `next`, the loop of the case that `dir` is `Forward`.
  unfoldable pub next_equals : List C → List Slot → Outcome (List C)
  next_equals cs [] = ok cs
  next_equals cs ((n, some Ordering.eq) ∷ ss) =
      modify_at csr.next cs n >>= λ cs'. next_equals cs' ss
  next_equals cs ((n, some Ordering.gt) ∷ ss) = ok cs
  next_equals cs ((n, some Ordering.lt) ∷ ss) = ok cs
  next_equals cs ((n, none) ∷ ss) = ok cs

  -- `let sr = try!(csr.seek(&ki, SeekOp::GreaterOrEqual)); if sr.is_valid_and_equal() { .. }`
  abbrev pub seek_past : KeyRef → C → Outcome C
  seek_past ki c = csr.seek c ki greater_or_equal >>= λ r.
      if sr_is_valid_and_equal r.1 then csr.next r.0 else ok r.0

  -- The step of `half` that may follow another.
  abbrev pub second_step : KeyRef → C → Outcome C
  second_step ki c =
      if csr.is_valid c
      then (do
        k ← csr.key c
        o ← cmp k ki
        elim o [ Ordering.lt ↦ panic | Ordering.gt ↦ ok c | Ordering.eq ↦ csr.next c ])
      else ok c

  abbrev pub half_backward : KeyRef → C → Outcome C
  half_backward ki c =
      if csr.is_valid c
      then (do
        k ← csr.key c
        o ← cmp k ki
        elim o [
          | Ordering.lt ↦ csr.next c >>= λ c'. second_step ki c'
          | Ordering.gt ↦ panic
          | Ordering.eq ↦ csr.next c
        ])
      else seek_past ki c

  unfoldable pub half : Direction → KeyRef → List C → Outcome (List C)
  half forward ki subs = panic
  half backward ki subs = for_all (half_backward ki) subs
  half wandering ki subs = for_all (seek_past ki) subs

  -- The other cursors go past the key of the current one.
  abbrev pub step_others : MultiCursor C → ℕ → Outcome (List C)
  step_others m icur =
      if is_forward m.dir
      then elim m.sorted [
        | [] ↦ panic
        | s ∷ ss ↦ guard (icur == s.0) >> next_equals m.subcursors ss
      ]
      else (do
        icsr ← get m.subcursors icur
        ki ← csr.key icsr
        before ← half m.dir ki (take icur m.subcursors)
        after ← half m.dir ki (drop (icur + 1) m.subcursors)
        ok (before ++ (icsr ∷ after)))

  unfoldable pub next : MultiCursor C → Outcome (MultiCursor C)
  next m = with_cur m.cur λ icur. do
    others ← step_others m icur
    subs ← modify_at csr.next others icur
    to_min (record m { subcursors = subs })

  -- `if csr.is_valid() { .. if eq { try!(csr.prev()) } }`
  abbrev pub prev_if_equal : KeyRef → C → Outcome C
  prev_if_equal k c =
      if csr.is_valid c
      then (do kc ← csr.key c; o ← cmp kc k; elim o [ Ordering.eq ↦ csr.prev c | _ ↦ ok c ])
      else ok c

  abbrev pub prev_loop : Direction → ℕ → KeyRef → List C → ℕ → Outcome (List C)
  prev_loop dir icur k [] j = ok []
  prev_loop dir icur k (c ∷ cs) j = do
    c' ←
        if not (is_backward dir) && not (icur == j)
        then (csr.seek c k less_or_equal >>= λ r. ok r.0)
        else ok c
    c'' ← prev_if_equal k c'
    cs' ← prev_loop dir icur k cs (j + 1)
    ok (c'' ∷ cs')

  unfoldable pub prev : MultiCursor C → Outcome (MultiCursor C)
  prev m = with_cur m.cur λ icur. do
    c ← get m.subcursors icur
    kc ← csr.key c
    let k = KeyRef.slice (into_boxed_slice kc)
    subs ← prev_loop m.dir icur k m.subcursors 0
    to_max (record m { subcursors = subs })

  -- The traits of a `MultiCursor`.
  abbrev pub multi : Cursor (MultiCursor C)
  multi = record {
    first = first;
    next = next;
    is_valid = is_valid;
    key = key;
    value = value;
    value_is_tombstone = value_is_tombstone;
    seek = seek;
    last = last;
    prev = prev;
  }
