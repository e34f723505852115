-- ===== src/Bson/Paths/Parts.antt =====
-- The pairs and items that the paths of bson/src/lib.rs lead to, after they have been written.
use mathlib.Core.Path.{subst}
use elmo.Common.{ℕ, zero, suc, ◌+◌, ◌-◌, ◌<◌, ◌≤◌, ◌≡◌, refl, sym, ap, arith, false}
use elmo.Common.{Bool-cases, inl, inr, Option, some, none, List}
use elmo.Common.Outcome.{ok}
use elmo.Bson.{Value, b_null, Array, no_items, item, Document, no_pairs, pair}
use elmo.Bson.Encode.{bytes_equal}
use elmo.Bson.Equality.{bytes_equal_refl, bytes_equal_sound}
use elmo.Bson.Keys.{position, set, pair_at, remove_pair, insert_pair, later}
use elmo.Bson.Paths.{
  items_len, item_at, remove_item, insert_item, push, push_nulls, push_pair, write_pair, write_item,
}

pub ok_injective : {A : Type 0} {a b : A} → ok a ≡ ok b → a ≡ b
ok_injective e = cc

-- Keys stay where they are.
pub position-write_pair :
    (bd : Document) (i : ℕ) (x : Value) (k : List ℕ)
    → position (write_pair bd i x) k ≡ position bd k
unfolding position write_pair
position-write_pair no_pairs i x k = refl
position-write_pair (pair ksub vsub pairs) zero x k = refl
position-write_pair (pair ksub vsub pairs) (suc i) x k = rw (position-write_pair pairs i x k) refl

pub pair_at-write_pair :
    (bd : Document) (i : ℕ) (x : Value) (t : List ℕ × Value)
    → pair_at bd i ≡ ok t
    → pair_at (write_pair bd i x) i ≡ ok (t.0, x)
unfolding pair_at write_pair
pair_at-write_pair no_pairs i x t h = cc
pair_at-write_pair (pair k w pairs) zero x t h =
    let same : (k, w) ≡ t = ok_injective h in ap (λ t. ok (t.0, x)) same
pair_at-write_pair (pair k w pairs) (suc i) x t h = pair_at-write_pair pairs i x t h

pub item_at-write_item :
    (ba : Array) (i : ℕ) (x : Value) → i < items_len ba → item_at (write_item ba i x) i ≡ ok x
unfolding item_at write_item items_len
item_at-write_item no_items i x h = absurd (omega arith)
item_at-write_item (item w items) zero x h = refl
item_at-write_item (item w items) (suc i) x h = item_at-write_item items i x (omega arith)

pub items_len-write_item :
    (ba : Array) (i : ℕ) (x : Value) → items_len (write_item ba i x) ≡ items_len ba
unfolding write_item items_len
items_len-write_item no_items i x = refl
items_len-write_item (item w items) zero x = refl
items_len-write_item (item w items) (suc i) x = ap suc (items_len-write_item items i x)

pub item_at_lem : (ba : Array) (i : ℕ) → i < items_len ba → (v : Value) × (item_at ba i ≡ ok v)
unfolding item_at items_len
item_at_lem no_items i h = absurd (omega arith)
item_at_lem (item v items) zero h = (v, refl)
item_at_lem (item v items) (suc i) h = item_at_lem items i (omega arith)

-- To take out a pair and put one with its key in its place is to write it; so with items.
pub insert-remove_pair :
    (bd : Document) (i : ℕ) (x : Value) (t : List ℕ × Value)
    → pair_at bd i ≡ ok t
    → (rest : Document) × ((remove_pair bd i ≡ ok (t, rest))
        × (insert_pair rest i (t.0, x) ≡ ok (write_pair bd i x)))
unfolding pair_at remove_pair insert_pair write_pair
insert-remove_pair no_pairs i x t h = absurd cc
insert-remove_pair (pair k w pairs) zero x t h =
    let same : (k, w) ≡ t = ok_injective h in
    (
      pairs,
      (ap (λ t. ok (t, pairs)) same, ap (λ (t : List ℕ × Value). ok (pair t.0 x pairs)) (sym same)),
    )
insert-remove_pair (pair k w pairs) (suc i) x t h =
    let (rest, (r, e)) = insert-remove_pair pairs i x t h in (pair k w rest, (rw r refl, rw e refl))

pub insert-remove_item :
    (ba : Array) (i : ℕ) (x : Value)
    → i < items_len ba
    → (old : Value) × ((rest : Array) × ((remove_item ba i ≡ ok (old, rest))
          × (insert_item rest i x ≡ ok (write_item ba i x))))
unfolding items_len remove_item insert_item write_item
insert-remove_item no_items i x h = absurd (omega arith)
insert-remove_item (item w items) zero x h = (w, (items, (refl, refl)))
insert-remove_item (item w items) (suc i) x h =
    let (old, (rest, (r, e))) = insert-remove_item items i x (omega arith) in
    (old, (item w rest, (rw r refl, rw e refl)))

-- A new key is at the end.
not_later : (o : Option ℕ) → later o ≡ none → o ≡ none
not_later none e = refl
not_later (some i) e = cc

absent_behind :
    (ksub : List ℕ) (vsub : Value) (pairs : Document) (k : List ℕ)
    → position (pair ksub vsub pairs) k ≡ none
    → (bytes_equal ksub k ≡ false) × (position pairs k ≡ none)
unfolding position
absent_behind ksub vsub pairs k h = elim (Bool-cases (bytes_equal ksub k)) [
  | inl q ↦
      let found : position (pair ksub vsub pairs) k ≡ some 0 = rw (q, position) refl in absurd cc
  | inr q ↦ (q, not_later (position pairs k) (rw q at h))
]

pub push_pair_lem :
    (bd : Document) (k : List ℕ) (v : Value)
    → position bd k ≡ none
    → (i : ℕ) × ((position (push_pair bd k v) k ≡ some i)
        × (pair_at (push_pair bd k v) i ≡ ok (k, v)))
unfolding position push_pair pair_at
push_pair_lem no_pairs k v h = (0, (rw (bytes_equal_refl k) refl, refl))
push_pair_lem (pair ksub vsub pairs) k v h =
    let (q, absent) = absent_behind ksub vsub pairs k h in
    let (i, (p, a)) = push_pair_lem pairs k v absent in (suc i, (rw (q, p) refl, a))

-- After `set` the key is there, with its value.
pub set_lem :
    (bd : Document) (k : List ℕ) (v : Value)
    → (i : ℕ) × ((position (set bd k v) k ≡ some i) × (pair_at (set bd k v) i ≡ ok (k, v)))
unfolding position set pair_at
set_lem no_pairs k v = (0, (rw (bytes_equal_refl k) refl, refl))
set_lem (pair ksub vsub pairs) k v = elim (Bool-cases (bytes_equal ksub k)) [
  | inl q ↦ (0, (rw q (rw q refl), rw q (ap (λ l. ok (l, v)) (bytes_equal_sound ksub k q))))
  | inr q ↦ let (i, (p, a)) = set_lem pairs k v in (suc i, (rw q (rw (q, p) refl), rw q a))
]

items_len-push : (ba : Array) (v : Value) → items_len (push ba v) ≡ suc (items_len ba)
unfolding items_len push
items_len-push no_items v = refl
items_len-push (item w items) v = ap suc (items_len-push items v)

item_at-push : (ba : Array) (v : Value) → item_at (push ba v) (items_len ba) ≡ ok v
unfolding item_at push items_len
item_at-push no_items v = refl
item_at-push (item w items) v = item_at-push items v

items_len-push_nulls : (n : ℕ) (ba : Array) → items_len (push_nulls n ba) ≡ n + items_len ba
unfolding push_nulls
items_len-push_nulls zero ba = omega arith
items_len-push_nulls (suc n) ba =
    omega (arith, items_len-push_nulls n (push ba b_null), items_len-push ba b_null)

-- An item at or behind the end, with the nulls before it.
pub pushed_lem :
    (ba : Array) (i : ℕ) (v : Value)
    → items_len ba ≤ i
    → (i < items_len (push (push_nulls (i - items_len ba) ba) v))
      × (item_at (push (push_nulls (i - items_len ba) ba) v) i ≡ ok v)
pushed_lem ba i v h =
    let filled = push_nulls (i - items_len ba) ba in
    let len : items_len filled ≡ i = omega (arith, items_len-push_nulls (i - items_len ba) ba) in
    (
      omega (arith, items_len-push filled v),
      subst (λ n. item_at (push filled v) n ≡ ok v) len (item_at-push filled v),
    )
