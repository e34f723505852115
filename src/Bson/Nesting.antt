-- ===== src/Bson/Nesting.antt =====
-- bson/src/lib.rs, `validate_depth` and `validate_keys` of `Document` and `Array`.
use elmo.Common.{
  ℕ, suc, ◌+◌, ◌≡◌, ◌≤◌, ◌∙◌, refl, ap, max, Bool-cases, inl, inr, ltb, leb, arith, Bool, true,
  false,
}
use elmo.Common.{if◌then◌else◌}
use elmo.Common.Outcome.{Outcome, Error, ok, err, ◌>>◌}
use elmo.Bson.{Value, b_array, b_document, Array, no_items, item, Document, no_pairs, pair}

-- The loops of `validate_depth`, for a greatest depth; the calls inside them are those on a part.
module _ (limit : ℕ) where
  unfoldable mutual
    pub part_depth : Value → ℕ → Outcome (Unit {0})
    part_depth (b_document bd) depth =
        let rest = pairs_depth bd depth in if ltb limit depth then err Error.misc else rest
    part_depth (b_array ba) depth =
        let rest = items_depth ba depth in if ltb limit depth then err Error.misc else rest
    part_depth _ depth = ok tt

    pub items_depth : Array → ℕ → Outcome (Unit {0})
    items_depth no_items depth = ok tt
    items_depth (item v items) depth = part_depth v (1 + depth) >> items_depth items depth

    pub pairs_depth : Document → ℕ → Outcome (Unit {0})
    pairs_depth no_pairs depth = ok tt
    pairs_depth (pair k v pairs) depth = part_depth v (1 + depth) >> pairs_depth pairs depth

-- `Document::validate_depth` and `Array::validate_depth`
unfoldable pub validate_depth : Document → ℕ → ℕ → Outcome (Unit {0})
validate_depth bd depth max = part_depth max (b_document bd) depth

unfoldable pub array_validate_depth : Array → ℕ → ℕ → Outcome (Unit {0})
array_validate_depth ba depth max = part_depth max (b_array ba) depth

-- How many arrays and documents stand inside each other below the value, itself not counted.
unfoldable mutual
  pub nesting : Value → ℕ
  nesting (b_document bd) = suc (pairs_nesting bd)
  nesting (b_array ba) = suc (items_nesting ba)
  nesting _ = 0

  pub items_nesting : Array → ℕ
  items_nesting no_items = 0
  items_nesting (item v items) = max (nesting v) (items_nesting items)

  pub pairs_nesting : Document → ℕ
  pairs_nesting no_pairs = 0
  pairs_nesting (pair k v pairs) = max (nesting v) (pairs_nesting pairs)

abbrev fits : Bool → Outcome (Unit {0})
fits p = if p then ok tt else err Error.misc

-- A part and those after it.
fits->> :
    (limit depth a b : ℕ)
    → (fits (leb (depth + a) limit) >> fits (leb (depth + b) limit))
      ≡ fits (leb (depth + max a b) limit)
fits->> limit depth a b = elim (Bool-cases (leb (depth + a) limit)) [
  | inl q ↦
      let both : leb (depth + b) limit ≡ leb (depth + max a b) limit = ground arith in
      rw q (ap fits both)
  | inr q ↦ let neither : leb (depth + max a b) limit ≡ false = ground arith in rw (q, neither) refl
]

-- The test on a part, and its loop.
fits-if :
    (limit depth n : ℕ) (o : Outcome (Unit {0}))
    → (1 + depth ≤ limit → o ≡ fits (leb ((1 + depth) + n) limit))
    → (if ltb limit (1 + depth) then err Error.misc else o) ≡ fits (leb (depth + suc n) limit)
fits-if limit depth n o h = elim (Bool-cases (ltb limit (1 + depth))) [
  | inl q ↦ let deep : leb (depth + suc n) limit ≡ false = ground arith in rw (q, deep) refl
  | inr q ↦
      let same : leb ((1 + depth) + n) limit ≡ leb (depth + suc n) limit =
        ap (λ k. leb k limit) (omega arith) in
      rw q (h (ground arith) ∙ ap fits same)
]

-- A value with no parts.
fits-zero : (limit depth : ℕ) → depth ≤ limit → ok tt ≡ fits (leb (depth + 0) limit)
fits-zero limit depth h = let fine : leb (depth + 0) limit ≡ true = ground arith in rw fine refl

module _ (limit : ℕ) where
  mutual
    unfolding part_depth nesting

    part_fits :
        (v : Value) (depth : ℕ)
        → depth ≤ limit
        → part_depth limit v (1 + depth) ≡ fits (leb (depth + nesting v) limit)
    part_fits (b_document bd) depth h =
        fits-if limit depth (pairs_nesting bd) (pairs_depth limit bd (1 + depth))
          (λ le. pairs_fit bd (1 + depth) le)
    part_fits (b_array ba) depth h =
        fits-if limit depth (items_nesting ba) (items_depth limit ba (1 + depth))
          (λ le. items_fit ba (1 + depth) le)
    part_fits _ depth h = fits-zero limit depth h

    items_fit :
        (ba : Array) (depth : ℕ)
        → depth ≤ limit
        → items_depth limit ba depth ≡ fits (leb (depth + items_nesting ba) limit)
    items_fit no_items depth h = fits-zero limit depth h
    items_fit (item v items) depth h =
        rw (part_fits v depth h, items_fit items depth h)
          (fits->> limit depth (nesting v) (items_nesting items))

    pairs_fit :
        (bd : Document) (depth : ℕ)
        → depth ≤ limit
        → pairs_depth limit bd depth ≡ fits (leb (depth + pairs_nesting bd) limit)
    pairs_fit no_pairs depth h = fits-zero limit depth h
    pairs_fit (pair k v pairs) depth h =
        rw (part_fits v depth h, pairs_fit pairs depth h)
          (fits->> limit depth (nesting v) (pairs_nesting pairs))

at_depth :
    (limit depth n : ℕ) (o : Outcome (Unit {0}))
    → (depth ≤ limit → o ≡ fits (leb (depth + n) limit))
    → (if ltb limit depth then err Error.misc else o) ≡ fits (leb (depth + n) limit)
at_depth limit depth n o h = elim (Bool-cases (ltb limit depth)) [
  | inl q ↦ let deep : leb (depth + n) limit ≡ false = ground arith in rw (q, deep) refl
  | inr q ↦ rw q (h (ground arith))
]

-- `validate_depth` of a document or an array accepts it exactly if the number of documents and
-- arrays that stand inside each other below it, added to the depth at which it is, is at most the
-- greatest depth.
pub validate_depth_lem :
    (bd : Document) (ba : Array) (depth limit : ℕ)
    → (validate_depth bd depth limit
        ≡ (if leb (depth + pairs_nesting bd) limit then ok tt else err Error.misc))
      × (array_validate_depth ba depth limit
          ≡ (if leb (depth + items_nesting ba) limit then ok tt else err Error.misc))
unfolding validate_depth array_validate_depth part_depth
validate_depth_lem bd ba depth limit = (
  at_depth limit depth (pairs_nesting bd) (pairs_depth limit bd depth) (pairs_fit limit bd depth),
  at_depth limit depth (items_nesting ba) (items_depth limit ba depth) (items_fit limit ba depth),
)
