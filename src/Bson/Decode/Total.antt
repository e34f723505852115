-- ===== src/Bson/Decode/Total.antt =====
-- The readers of bson/src/lib.rs on any bytes.
use elmo.Bson.Decode.Moves.{
  Moves, Moves-from, Moves->>=, Moves-then, cstring-Moves, pairs-Moves, value-Moves,
}
use mathlib.Core.Path.{subst}
use elmo.Common.{ℕ, zero, suc, ◌+◌, ◌≤◌, ◌<◌, ◌≢◌, ◌≡◌, arith}
use elmo.Common.{some, List, [], ◌∷◌, length, get_elem?, inl, inr, Option-cases}
use elmo.Bson.{pair}
use elmo.Bson.Decode.{slurped, out_of_fuel, ◌>>=◌, index}
use elmo.Bson.Decode.{slurp_cstring, slurp_bson_value, slurp_pairs}
use elmo.Bson.Decode.{slurp_pair}
use elmo.Bson.Decode.{from_bson}

in_bounds : (ba : List ℕ) (i x : ℕ) → get_elem? ba i ≡ some x → i < length ba
in_bounds [] i x e = cc
in_bounds (y ∷ ba) zero x e = omega arith
in_bounds (y ∷ ba) (suc i) x e = omega (arith, in_bounds ba i x e)

-- The loop, with more fuel than there are bytes from the cursor on.
loop-Moves :
    (fuel : ℕ) (ba : List ℕ) (i : ℕ)
    → length ba < fuel + i
    → 0 < fuel
    → Moves (slurp_pairs fuel ba i) i
unfolding slurp_pairs slurp_pair index
loop-Moves zero ba i h pos = absurd (omega arith)
loop-Moves (suc fuel) ba i h pos = elim (Option-cases (get_elem? ba i)) [
  | inl e ↦ rw (e, Moves) tt
  | inr (zero, e) ↦ rw (e, Moves) (omega arith)
  | inr (suc n, e) ↦
      let inside = in_bounds ba i (suc n) e in
      let next : (j : ℕ) → i + 1 ≤ j → Moves (slurp_pairs fuel ba j) j =
        λ j le. loop-Moves fuel ba j (omega arith) (omega arith) in
      rw (e, Moves)
        (Moves-from (slurp_pair (slurp_pairs fuel) ba (i + 1) (suc n)) i (i + 1) (omega arith) (
          Moves->>= (slurp_cstring ba (i + 1))
            (λ k i. slurp_bson_value (slurp_pairs fuel) ba i (suc n) >>= λ v i.
              slurp_pairs fuel ba i >>= λ pairs i. slurped (pair k v pairs) i)
            (i + 1) (cstring-Moves ba (i + 1))
            (λ k j le.
              Moves->>= (slurp_bson_value (slurp_pairs fuel) ba j (suc n))
                (λ v i. slurp_pairs fuel ba i >>= λ pairs i. slurped (pair k v pairs) i) j
                (value-Moves ba (slurp_pairs fuel) j (suc n) (λ l le2. next l (omega arith)))
                (λ v l le2.
                  Moves-then (slurp_pairs fuel ba l) (pair k v) l (next l (omega arith))))))
]

-- On every sequence of bytes the fuel of `from_bson` is enough: its loops end, with a document, an
-- error or a panic.
pub from_bson_ends : (w : List ℕ) → from_bson w ≢ out_of_fuel
unfolding from_bson
from_bson_ends w e =
    subst (λ o. Moves o 0) e
      (pairs-Moves w (slurp_pairs (suc (length w))) 0
        (λ j le. loop-Moves (suc (length w)) w j (omega arith) (omega arith)))
