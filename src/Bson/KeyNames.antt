-- ===== src/Bson/KeyNames.antt =====
-- bson/src/lib.rs, `validate_keys` of `Document` and `Array`.
use mathlib.Core.Path.{subst}
use elmo.Common.{ℕ, ◌+◌, ◌≡◌, ◌∙◌, refl, ap, arith, ltb, ◌==◌, Bool, true, false, ◌&&◌, ◌||◌}
use elmo.Common.{if◌then◌else◌, Bool-cases, Option-cases, inl, inr, some, List, [], ◌∷◌}
use elmo.Common.Outcome.{Outcome, Error, ok, err, panic, ◌>>◌}
use elmo.Bson.{Value, b_array, b_document, Array, no_items, item, Document, no_pairs, pair}
use elmo.Bson.Encode.{bytes_equal}
use elmo.Bson.Equality.{bytes_equal_sound}
use elmo.Bson.Keys.{get, position, is_dbref}
use elmo.Bson.Keys.Lookup.{Located, position-Located}
use elmo.Bson.Paths.{last, parse_path}
use elmo.Bson.Paths.Follow.{read}
use elmo.Bson.Paths.Stored.{read_key}

unfoldable pub starts_with_dollar : List ℕ → Bool
starts_with_dollar [] = false
starts_with_dollar (x ∷ bs) = x == 36

unfoldable pub contains_dot : List ℕ → Bool
contains_dot [] = false
contains_dot (x ∷ bs) = x == 46 || contains_dot bs

-- The loops, and the calls inside them on a part.
unfoldable mutual
  pub part_keys : Value → ℕ → Outcome (Unit {0})
  part_keys (b_document bd) depth =
      let rest = pairs_keys bd depth in if ltb 0 depth && is_dbref bd then ok tt else rest
  part_keys (b_array ba) depth = items_keys ba depth
  part_keys _ depth = ok tt

  pub items_keys : Array → ℕ → Outcome (Unit {0})
  items_keys no_items depth = ok tt
  items_keys (item v items) depth = part_keys v (1 + depth) >> items_keys items depth

  pub pairs_keys : Document → ℕ → Outcome (Unit {0})
  pairs_keys no_pairs depth = ok tt
  pairs_keys (pair k v pairs) depth =
      let rest = part_keys v (1 + depth) >> pairs_keys pairs depth in
      if starts_with_dollar k
      then err Error.misc
      else if contains_dot k
      then err Error.misc
      else rest

-- `Document::validate_keys` and `Array::validate_keys`
unfoldable pub validate_keys : Document → ℕ → Outcome (Unit {0})
validate_keys bd depth = part_keys (b_document bd) depth

unfoldable pub array_validate_keys : Array → ℕ → Outcome (Unit {0})
array_validate_keys ba depth = items_keys ba depth

-- A name without a dot is a path of one name.
parse_name : (k : List ℕ) → contains_dot k ≡ false → parse_path k ≡ last k
unfolding contains_dot parse_path
parse_name [] h = refl
parse_name (x ∷ bs) h =
    let plain : (x == 46) ≡ false = ground arith in
    let rest : contains_dot bs ≡ false = ground arith in rw (plain, parse_name bs rest) refl

accepted :
    (a b : Bool) (o p : Outcome (Unit {0}))
    → (if a then err Error.misc else if b then err Error.misc else (o >> p)) ≡ ok tt
    → (a ≡ false) × (b ≡ false) × (p ≡ ok tt)
accepted true b o p h = absurd cc
accepted false true o p h = absurd cc
accepted false false (ok x) p h = (refl, refl, h)
accepted false false (err e) p h = absurd cc
accepted false false panic p h = absurd cc

named :
    (bd : Document) (depth : ℕ) (k : List ℕ) (v : Value)
    → pairs_keys bd depth ≡ ok tt
    → get bd k ≡ some v
    → (starts_with_dollar k ≡ false) × (contains_dot k ≡ false)
unfolding part_keys get
named no_pairs depth k v h g = absurd cc
named (pair ksub vsub pairs) depth k v h g =
    let (dollar, dot, rest) =
      accepted (starts_with_dollar ksub) (contains_dot ksub) (part_keys vsub (1 + depth))
        (pairs_keys pairs depth) h in
    elim (Bool-cases (bytes_equal ksub k)) [
      | inl q ↦
          subst (λ l. (starts_with_dollar l ≡ false) × (contains_dot l ≡ false))
            (bytes_equal_sound ksub k q) (dollar, dot)
      | inr q ↦ named pairs depth k v rest (rw q at g)
    ]

-- If `validate_keys` accepts a document at the top, then none of its keys starts with a dollar, and
-- as a path each of its keys leads `entry` to the value that `get` returns for it.
pub validate_keys_lem :
    (bd : Document) (k : List ℕ) (v : Value)
    → validate_keys bd 0 ≡ ok tt
    → get bd k ≡ some v
    → (starts_with_dollar k ≡ false) × (read (parse_path k) (b_document bd) ≡ ok (some v))
unfolding validate_keys part_keys
validate_keys_lem bd k v h g =
    let (dollar, dot) = named bd 0 k v h g in
    let at = position-Located bd k in
    let found : read (last k) (b_document bd) ≡ ok (some v) = elim (Option-cases (position bd k)) [
      | inl e ↦ let (absent, _) = subst (Located bd k) e at in absurd cc
      | inr (i, e) ↦
          let (w, (there, (a, _))) = subst (Located bd k) e at in
          let same : w ≡ v = cc in read_key bd i k (k, w) e a ∙ ap (λ x. ok (some x)) same
    ] in
    (dollar, ap (λ p. read p (b_document bd)) (parse_name k dot) ∙ found)
