-- ===== src/Bson/Keys/Id.antt =====
-- bson/src/lib.rs, `validate_id`.
use mathlib.Core.Path.{subst}
use elmo.Common.{ℕ, zero, suc, ◌≡◌, refl, ap, arith, Bool, true, false, ◌||◌, ◌==◌, if◌then◌else◌}
use elmo.Common.{Option-cases, inl, inr, some, none}
use elmo.Common.Outcome.{Outcome, Error, ok, err, ◌>>=◌}
use elmo.Bson.{Value, Document, no_pairs, pair}
use elmo.Bson.Keys.{
  get, position, pair_at, remove_pair, insert_pair, validate_id, id_key, is_array, is_undefined,
}
use elmo.Bson.Keys.Lookup.{without, Located, position-Located}

front :
    (bd rest : Document) (v : Value)
    → remove_pair bd 0 ≡ ok ((id_key, v), rest)
    → bd ≡ pair id_key v rest
unfolding remove_pair
front no_pairs rest v h = cc
front (pair k w pairs) rest v h =
    let keys : k ≡ id_key = cc in
    let vals : w ≡ v = cc in let pairs_too : pairs ≡ rest = cc in rw (keys, vals, pairs_too) refl

-- The pair in front, if it was not there.
abbrev moved : Document → ℕ → Outcome (Document × Value)
moved bd i =
    if i == 0
    then (pair_at bd 0 >>= λ (_, first). ok (bd, first))
    else (remove_pair bd i >>= λ (t, rest).
        insert_pair rest 0 t >>= λ moved. pair_at moved 0 >>= λ (_, first). ok (moved, first))

moved_lem :
    (bd : Document) (i : ℕ) (v : Value)
    → pair_at bd i ≡ ok (id_key, v)
    → remove_pair bd i ≡ ok ((id_key, v), without bd id_key)
    → moved bd i ≡ ok (pair id_key v (without bd id_key), v)
unfolding insert_pair pair_at
moved_lem bd zero v p r = rw (p, moved) (ap (λ d. ok (d, v)) (front bd (without bd id_key) v r))
moved_lem bd (suc i) v p r =
    let behind : (suc i == 0) ≡ false = ground arith in rw (behind, moved, r) refl

by_type :
    (array undefined : Bool) {o e : Outcome (Document × Value)}
    → o ≡ e
    → (if array then err Error.misc else if undefined then err Error.misc else o)
      ≡ (if array || undefined then err Error.misc else e)
by_type true undefined h = refl
by_type false true h = refl
by_type false false h = h

-- `validate_id` never panics. If the first `_id` of the document is neither an array nor undefined, it
-- returns that value, and moves its pair to the front and leaves the others in their order; otherwise,
-- or if there is none, it returns an error.
pub validate_id_lem :
    (bd : Document)
    → validate_id bd ≡ elim (get bd id_key) [
      | none ↦ err Error.misc
      | some v ↦
          if is_array v || is_undefined v
          then err Error.misc
          else ok (pair id_key v (without bd id_key), v)
    ]
unfolding validate_id
validate_id_lem bd =
    let at = position-Located bd id_key in
    elim (Option-cases (position bd id_key)) [
      | inl e ↦ let (g, w) = subst (Located bd id_key) e at in rw (e, g, validate_id) refl
      | inr (i, e) ↦
          let (v, (g, (p, r))) = subst (Located bd id_key) e at in
          rw (e, g, validate_id, p) (by_type (is_array v) (is_undefined v) (moved_lem bd i v p r))
    ]
