-- ===== src/Lsm/KeyRef/Extremes.antt =====
-- `min_with` and `max_with` have each other's results.
use elmo.Common.{ℕ, ◌⊎◌, inl, inr, ◌≡◌, ◌≢◌, refl, Ordering, List, arith}
use elmo.Common.Outcome.{ok}
use elmo.Lsm.Bcmp.{compare_bytes}
use elmo.Lsm.Bcmp.Order.{compare_bytes-swap, compare_bytes_refl}
use elmo.Lsm.KeyRef.{KeyRef, into_boxed_slice, min_with, max_with}
use elmo.Lsm.KeyRef.Compare.{compare_with_lem}

-- `r` is the greater, or the lesser, of two byte strings: it is one of them, and none is greater, or
-- less, than it.
abbrev pub IsGreater : List ℕ → List ℕ → List ℕ → Type 0
IsGreater a b r =
    ((r ≡ a) ⊎ (r ≡ b)) × (compare_bytes a r ≢ Ordering.gt) × (compare_bytes b r ≢ Ordering.gt)

abbrev pub IsLess : List ℕ → List ℕ → List ℕ → Type 0
IsLess a b r =
    ((r ≡ a) ⊎ (r ≡ b)) × (compare_bytes a r ≢ Ordering.lt) × (compare_bytes b r ≢ Ordering.lt)

-- `min_with` returns one of the key and `k`, the greater, and `max_with` one of them, the lesser.
pub min_with_lem :
    (x : KeyRef) (k : List ℕ)
    → ((r : List ℕ) × (min_with x k ≡ ok r) × IsGreater (into_boxed_slice x) k r)
      × ((r : List ℕ) × (max_with x k ≡ ok r) × IsLess (into_boxed_slice x) k r)
unfolding min_with max_with
min_with_lem x k = rw (compare_with_lem x k) (go (compare_bytes (into_boxed_slice x) k) refl)
  where
    a : List ℕ
    a = into_boxed_slice x

    go :
        (c : Ordering)
        → compare_bytes (into_boxed_slice x) k ≡ c
        → ((r : List ℕ) × (elim c [ Ordering.gt ↦ ok a | _ ↦ ok k ] ≡ ok r) × IsGreater a k r)
          × ((r : List ℕ) × (elim c [ Ordering.lt ↦ ok a | _ ↦ ok k ] ≡ ok r) × IsLess a k r)
    go Ordering.lt e =
        let s = compare_bytes-swap a k in
        let ra = compare_bytes_refl a in
        let rk = compare_bytes_refl k in
        ((k, refl, (inr refl, λ h. cc, λ h. cc)), (a, refl, (inl refl, λ h. cc, λ h. grind arith)))
    go Ordering.eq e =
        let rk = compare_bytes_refl k in
        ((k, refl, (inr refl, λ h. cc, λ h. cc)), (k, refl, (inr refl, λ h. cc, λ h. cc)))
    go Ordering.gt e =
        let s = compare_bytes-swap a k in
        let ra = compare_bytes_refl a in
        let rk = compare_bytes_refl k in
        ((a, refl, (inl refl, λ h. cc, λ h. grind arith)), (k, refl, (inr refl, λ h. cc, λ h. cc)))
