-- ===== src/Bson/Keys/Distinct.antt =====
-- Documents of bson/src/lib.rs in which no key stands twice.
use elmo.Common.{ℕ, ◌≡◌, ◌∙◌, refl, sym, ap, if◌then◌else◌, Bool-cases, inl, inr}
use elmo.Common.{some, none, List}
use elmo.Common.Outcome.{Succeeds}
use elmo.Bson.{Value, Document, no_pairs, pair}
use elmo.Bson.Encode.{bytes_equal}
use elmo.Bson.Equality.{bytes_equal_sound}
use elmo.Bson.Keys.{get, set, remove}
use elmo.Bson.Keys.Lookup.{without, IsDistinct, get-set, get-without, remove_lem, swapped}

set-IsDistinct : (bd : Document) (k : List ℕ) (v : Value) → IsDistinct bd → IsDistinct (set bd k v)
unfolding set IsDistinct get
set-IsDistinct no_pairs k v h = (refl, tt)
set-IsDistinct (pair ksub vsub pairs) k v (absent, h) = elim (Bool-cases (bytes_equal ksub k)) [
  | inl q ↦ rw q (absent, h)
  | inr q ↦ rw q (get-set pairs k v ksub ∙ rw (swapped ksub k q) absent, set-IsDistinct pairs k v h)
]

without-IsDistinct : (bd : Document) (k : List ℕ) → IsDistinct bd → IsDistinct (without bd k)
unfolding without IsDistinct
without-IsDistinct no_pairs k h = tt
without-IsDistinct (pair ksub vsub pairs) k (absent, h) = elim (Bool-cases (bytes_equal ksub k)) [
  | inl q ↦ rw q h
  | inr q ↦
      rw q (get-without pairs k ksub (swapped ksub k q) ∙ absent, without-IsDistinct pairs k h)
]

gone : (bd : Document) (k : List ℕ) → IsDistinct bd → get (without bd k) k ≡ none
unfolding without IsDistinct get
gone no_pairs k h = refl
gone (pair ksub vsub pairs) k (absent, h) = elim (Bool-cases (bytes_equal ksub k)) [
  | inl q ↦ rw q (ap (get pairs) (sym (bytes_equal_sound ksub k q)) ∙ absent)
  | inr q ↦ rw q (rw q (gone pairs k h))
]

-- A document in which no key stands twice is a map from keys to values: after `set` the key has the
-- new value and every other key what it had; `remove` never panics, returns the value of the key,
-- and takes away that key and no other. Neither makes a key stand twice.
pub map_lem :
    (bd : Document) (k : List ℕ) (v : Value) (other : List ℕ)
    → IsDistinct bd
    → (get (set bd k v) other ≡ (if bytes_equal k other then some v else get bd other))
      × IsDistinct (set bd k v)
      × Succeeds (remove bd k) (λ (rest, old).
        (old ≡ get bd k)
        × IsDistinct rest
        × (get rest other ≡ (if bytes_equal k other then none else get bd other)))
map_lem bd k v other h =
    let taken : get (without bd k) other ≡ (if bytes_equal k other then none else get bd other) =
      elim (Bool-cases (bytes_equal k other)) [
        | inl q ↦ rw q (ap (get (without bd k)) (sym (bytes_equal_sound k other q)) ∙ gone bd k h)
        | inr q ↦ rw q (get-without bd k other q)
      ] in
    (
      get-set bd k v other,
      set-IsDistinct bd k v h,
      rw (remove_lem bd k) (refl, without-IsDistinct bd k h, taken),
    )
