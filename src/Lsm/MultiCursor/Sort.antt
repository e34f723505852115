-- ===== src/Lsm/MultiCursor/Sort.antt =====
-- lsm/src/lib.rs, `MultiCursor::sort`: the numbers of the cursors by their keys. The elements of
-- `sorted` before the one that is sifted stand in a list of their own, the nearest first.
pub mod Order
pub mod Sift
pub mod Sorted
use elmo.Common.{ℕ, zero, suc, compare, Ordering, Bool, true, false, if◌then◌else◌}
use elmo.Common.{Option, none, some, List, [], ◌∷◌, map}
use elmo.Common.Outcome.{Outcome, ok, err, panic, ◌>>=◌}
use elmo.Lsm.KeyRef.{KeyRef, cmp}

-- `(usize, Option<Ordering>)`
abbrev pub Slot : Type 0
Slot = ℕ × Option Ordering

abbrev pub is_some_tag : Option Ordering → Bool
is_some_tag none = false
is_some_tag (some o) = true

-- `xs[n]`
abbrev pub get {ℓ} : {A : Type ℓ} → List A → ℕ → Outcome A
get [] n = panic
get (x ∷ xs) zero = ok x
get (x ∷ xs) (suc n) = get xs n

-- `try!(f(&mut xs[n]))`
abbrev pub modify_at {ℓ} : {A : Type ℓ} → (A → Outcome A) → List A → ℕ → Outcome (List A)
modify_at f [] n = panic
modify_at f (x ∷ xs) zero = f x >>= λ x'. ok (x' ∷ xs)
modify_at f (x ∷ xs) (suc n) = modify_at f xs n >>= λ xs'. ok (x ∷ xs')

-- What the `match` of the loop does with `sorted[j]` and `sorted[j - 1]`: the first stays where it
-- is, with a new tag or the old one, or passes the second, which gets a new tag or keeps its own.
pub data Move : Type 0 where
  stay : Option Ordering → Move
  pass : Option Ordering → Move

abbrev pub order_numbers : ℕ → ℕ → Option Ordering → Outcome Move
order_numbers nj nprev tag = elim (compare nj nprev) [
  | Ordering.eq ↦ panic
  | Ordering.gt ↦ ok (stay tag)
  | Ordering.lt ↦ ok (pass tag)
]

abbrev pub compare_keys : Bool → KeyRef → KeyRef → Outcome Ordering
compare_keys want_max kj kprev = if want_max then cmp kprev kj else cmp kj kprev

abbrev pub move_of : Bool → Option KeyRef → Option KeyRef → ℕ → ℕ → Outcome Move
move_of want_max (some kj) (some kprev) nj nprev = compare_keys want_max kj kprev >>= λ c. elim c [
  | Ordering.gt ↦ ok (stay (some Ordering.gt))
  | Ordering.eq ↦ order_numbers nj nprev (some Ordering.eq)
  | Ordering.lt ↦ ok (pass (some Ordering.gt))
]
move_of want_max (some kj) none nj nprev = ok (pass none)
move_of want_max none (some kprev) nj nprev = ok (stay none)
move_of want_max none none nj nprev = order_numbers nj nprev none

abbrev pub set_tag : Option Ordering → Slot → Slot
set_tag none s = s
set_tag (some o) s = (s.0, some o)

module _ (want_max : Bool) (ka : List (Option KeyRef)) where
  -- `while j > 0`: `x` goes past the elements behind which it does not belong.
  unfoldable pub sift : Slot → List Slot → Outcome (List Slot)
  sift x [] = ok (x ∷ [])
  sift x (p ∷ before) =
      let rest = sift x before in
      do
        kj ← get ka x.0
        kprev ← get ka p.0
        m ← move_of want_max kj kprev x.0 p.0
        elim m [
          | stay tag ↦ ok (set_tag tag x ∷ p ∷ before)
          | pass tag ↦ rest >>= λ r. ok (set_tag tag p ∷ r)
        ]

  -- `for i in 1 .. self.sorted.len()`
  unfoldable pub sift_all : List Slot → List Slot → Outcome (List Slot)
  sift_all before [] = ok before
  sift_all before (x ∷ xs) = sift x before >>= λ before'. sift_all before' xs

  -- `fix the first one`
  abbrev pub fix_first : List Slot → Outcome (List Slot)
  fix_first [] = ok []
  fix_first (s ∷ ss) =
      get ka s.0 >>= λ k. elim k [ none ↦ ok (s ∷ ss) | some k ↦ ok ((s.0, some Ordering.eq) ∷ ss) ]

abbrev pub reverse_onto {ℓ} : {A : Type ℓ} → List A → List A → List A
reverse_onto [] ys = ys
reverse_onto (x ∷ xs) ys = reverse_onto xs (x ∷ ys)

unfoldable pub sort_slots : Bool → List (Option KeyRef) → List Slot → Outcome (List Slot)
sort_slots want_max ka sorted = do
  before ← sift_all want_max ka [] (map (λ s. (s.0, none)) sorted)
  fix_first want_max ka (reverse_onto before [])
