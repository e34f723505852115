-- ===== src/Common/Map.antt =====
-- A `HashMap` as the list of its entries, in the order in which an iteration would give them, and a
-- `HashSet` of numbers as the list of its elements. A map has no key twice.
use Prim.Native.Nat.{ℕ}
use mathlib.Core.Bool.{Bool, true, false, ◌||◌}
use mathlib.Core.Option.{Option, none, some}
use mathlib.Core.List.{List, [], ◌∷◌}
use elmo.Common.Tests.{◌==◌, if◌then◌else◌, ◌>>=◌}

abbrev pub contains : List ℕ → ℕ → Bool
contains [] k = false
contains (x ∷ xs) k = x == k || contains xs k

-- `HashSet::remove`, without the result.
abbrev pub remove_elem : List ℕ → ℕ → List ℕ
remove_elem [] k = []
remove_elem (x ∷ xs) k = let rest = remove_elem xs k in if x == k then rest else x ∷ rest

abbrev pub is_none {ℓ} : {A : Type ℓ} → List A → Bool
is_none [] = true
is_none (x ∷ xs) = false

abbrev pub Map {ℓ} : Type ℓ → Type ℓ
Map V = List (ℕ × V)

abbrev pub contains_key {ℓ} : {V : Type ℓ} → Map V → ℕ → Bool
contains_key [] k = false
contains_key (e ∷ m) k = e.0 == k || contains_key m k

-- `HashMap::remove`: the value, if the key is there, and the other entries.
unfoldable pub take_key {ℓ} : {V : Type ℓ} → Map V → ℕ → Option (V × Map V)
take_key [] k = none
take_key (e ∷ m) k =
    let rest = take_key m k >>= λ r. some (r.0, e ∷ r.1) in if e.0 == k then some (e.1, m) else rest

-- The same without the value.
abbrev pub remove_key {ℓ} : {V : Type ℓ} → Map V → ℕ → Map V
remove_key [] k = []
remove_key (e ∷ m) k = let rest = remove_key m k in if e.0 == k then rest else e ∷ rest
