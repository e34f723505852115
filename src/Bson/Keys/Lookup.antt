-- ===== src/Bson/Keys/Lookup.antt =====
-- `Document` of bson/src/lib.rs as a map from keys to values.
use mathlib.Core.Path.{subst}
use elmo.Common.{ℕ, ◌≡◌, ◌∙◌, refl, sym, ap, arith, true, false}
use elmo.Common.{if◌then◌else◌, Bool-cases, Option-cases, inl, inr, Option, some, none, List}
use elmo.Common.Outcome.{ok}
use elmo.Bson.{Value, Document, no_pairs, pair}
use elmo.Bson.Encode.{bytes_equal}
use elmo.Bson.Equality.{bytes_equal_refl, bytes_equal_sound}
use elmo.Bson.Keys.{get, position, set, remove, remove_pair, pair_at, later}

-- The document without the first pair that has the key.
unfoldable pub without : Document → List ℕ → Document
without no_pairs k = no_pairs
without (pair ksub vsub pairs) k =
    let rest = pair ksub vsub (without pairs k) in if bytes_equal ksub k then pairs else rest

-- No key stands in the document twice.
unfoldable pub IsDistinct : Document → Type 0
IsDistinct no_pairs = Unit
IsDistinct (pair k v pairs) = (get pairs k ≡ none) × IsDistinct pairs

-- A key equals at most one of two keys that differ.
other_key :
    (ksub k other : List ℕ)
    → bytes_equal ksub k ≡ false
    → bytes_equal ksub other ≡ true
    → bytes_equal k other ≡ false
other_key ksub k other q p = elim (Bool-cases (bytes_equal k other)) [
  | inl e ↦
      let same : ksub ≡ k = bytes_equal_sound ksub other p ∙ sym (bytes_equal_sound k other e) in
      let found : bytes_equal ksub k ≡ true = ap (λ l. bytes_equal l k) same ∙ bytes_equal_refl k in
      cc
  | inr e ↦ e
]

-- Byte strings that differ differ the other way round too.
pub swapped : (a b : List ℕ) → bytes_equal a b ≡ false → bytes_equal b a ≡ false
swapped a b h = elim (Bool-cases (bytes_equal b a)) [
  | inl e ↦
      let found : bytes_equal a b ≡ true =
        ap (bytes_equal a) (bytes_equal_sound b a e) ∙ bytes_equal_refl a in
      cc
  | inr e ↦ e
]

pub get-set :
    (bd : Document) (k : List ℕ) (v : Value) (other : List ℕ)
    → get (set bd k v) other ≡ (if bytes_equal k other then some v else get bd other)
unfolding get set
get-set no_pairs k v other = refl
get-set (pair ksub vsub pairs) k v other =
    let rest = get-set pairs k v other in
    elim (Bool-cases (bytes_equal ksub k)) [
      | inl q ↦ let same = bytes_equal_sound ksub k q in rw (q, same) (ground arith)
      | inr q ↦ elim (Bool-cases (bytes_equal ksub other)) [
        | inl p ↦ rw (q, p) (rw (other_key ksub k other q p) refl)
        | inr p ↦ rw (q, p) rest
      ]
    ]

pub get-without :
    (bd : Document) (k other : List ℕ)
    → bytes_equal k other ≡ false
    → get (without bd k) other ≡ get bd other
unfolding get without
get-without no_pairs k other h = refl
get-without (pair ksub vsub pairs) k other h =
    let rest = get-without pairs k other h in
    elim (Bool-cases (bytes_equal ksub k)) [
      | inl q ↦ rw (q, ap (λ l. bytes_equal l other) (bytes_equal_sound ksub k q) ∙ h) refl
      | inr q ↦ rw (q, rest) refl
    ]

-- What is at the position that was found for a key.
abbrev pub Located : Document → List ℕ → Option ℕ → Type 0
Located bd k none = (get bd k ≡ none) × (without bd k ≡ bd)
Located bd k (some i) =
    (v : Value) × ((get bd k ≡ some v)
      × ((pair_at bd i ≡ ok (k, v)) × (remove_pair bd i ≡ ok ((k, v), without bd k))))

Located-later :
    (ksub : List ℕ) (vsub : Value) (pairs : Document) (k : List ℕ) (o : Option ℕ)
    → bytes_equal ksub k ≡ false
    → Located pairs k o
    → Located (pair ksub vsub pairs) k (later o)
unfolding get without pair_at remove_pair
Located-later ksub vsub pairs k none q (g, w) = (rw q g, rw q (ap (pair ksub vsub) w))
Located-later ksub vsub pairs k (some i) q (v, (g, (p, r))) = (v, (rw q g, (p, rw (q, r) refl)))

pub position-Located : (bd : Document) (k : List ℕ) → Located bd k (position bd k)
unfolding position get without pair_at remove_pair
position-Located no_pairs k = (refl, refl)
position-Located (pair ksub vsub pairs) k = elim (Bool-cases (bytes_equal ksub k)) [
  | inl q ↦
      let same = bytes_equal_sound ksub k q in
      rw (q, Located)
        (
          vsub,
          (rw q refl, (ap (λ l. ok (l, vsub)) same, rw q (ap (λ l. ok ((l, vsub), pairs)) same))),
        )
  | inr q ↦
      rw (q, Located)
        (Located-later ksub vsub pairs k (position pairs k) q (position-Located pairs k))
]

-- `remove` never panics. It returns the value of the key, and leaves the document without the first
-- pair of the key.
pub remove_lem : (bd : Document) (k : List ℕ) → remove bd k ≡ ok (without bd k, get bd k)
unfolding remove
remove_lem bd k =
    let at = position-Located bd k in
    elim (Option-cases (position bd k)) [
      | inl e ↦ let (g, w) = subst (Located bd k) e at in rw (e, g, w, remove) refl
      | inr (i, e) ↦ let (v, (g, (p, r))) = subst (Located bd k) e at in rw (e, g, remove, r) refl
    ]
