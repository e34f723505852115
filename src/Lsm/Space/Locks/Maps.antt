-- ===== src/Lsm/Space/Locks/Maps.antt =====
-- The maps of `Space`: what taking an entry out and unlinking a segment do.
use mathlib.Core.Path.{subst}
use elmo.Common.{ℕ, ◌+◌, ◌≤◌, ◌≡◌, refl, sym, ◌==◌, ==_iff, arith, length, All}
use elmo.Common.{Bool, true, false, not, ◌&&◌, ◌||◌, none, some, if◌then◌else◌, List, [], ◌∷◌, ◌++◌}
use elmo.Common.{Bool-cases, Option-cases, inl, inr}
use elmo.Common.Map.{Map, contains, remove_elem, is_none, contains_key, take_key, remove_key}
use elmo.Lsm.BlockList.{BlockList, contains_page}
use elmo.Lsm.BlockList.Pages.{AllValid, AllApart}
use elmo.Lsm.Space.Locks.{any_contains, unlink}

pub some-injective {ℓ} : {A : Type ℓ} {a b : A} → some a ≡ some b → a ≡ b
some-injective e = cc

pub none-some {ℓ} : {A : Type ℓ} {a : A} → ¬ (none ≡ some a)
none-some e = cc

-- The pages of all blocks of a map.
abbrev pub any_page : Map BlockList → ℕ → Bool
any_page [] p = false
any_page (e ∷ m) p = contains_page e.1 p || any_page m p

-- Page `p` is in a block of key `g`.
abbrev pub page_of : Map BlockList → ℕ → ℕ → Bool
page_of [] g p = false
page_of (e ∷ m) g p = (e.0 == g && contains_page e.1 p) || page_of m g p

-- A map of blocks: no key twice, and no page twice.
abbrev pub IsBlocks : Map BlockList → Type 0
IsBlocks [] = Unit
IsBlocks (e ∷ m) =
    AllValid e.1
    × AllApart e.1
    × ((q : ℕ) → contains_page e.1 q ≡ true → any_page m q ≡ false)
    × (contains_key m e.0 ≡ false)
    × IsBlocks m

-- What is left of a map of blocks when one key is taken out.
pub record Taken (m : Map BlockList) (k : ℕ) (b : BlockList) (rest : Map BlockList) : Type 0 where
  pub valid : AllValid b
  pub apart : AllApart b
  pub alone : (q : ℕ) → contains_page b q ≡ true → any_page rest q ≡ false
  pub pages : (q : ℕ) → any_page m q ≡ (contains_page b q || any_page rest q)
  pub keys : (g : ℕ) → contains_key rest g ≡ (contains_key m g && not (k == g))
  pub blocks : IsBlocks rest
  pub others : (g p : ℕ) → (k == g) ≡ false → page_of rest g p ≡ page_of m g p

Taken-here : (e : ℕ × BlockList) (m : Map BlockList) → IsBlocks (e ∷ m) → Taken (e ∷ m) e.0 e.1 m
Taken-here e m h = record {
  valid = h.0;
  apart = h.1;
  alone = h.2;
  pages = λ q. refl;
  keys = λ g. elim (Bool-cases (e.0 == g)) [
    | inl q ↦
        let none_left = subst (λ k. contains_key m k ≡ false) ((==_iff e.0 g).0 q) h.3 in
        rw (q, none_left) refl
    | inr q ↦ rw q (ground arith)
  ];
  blocks = h.4;
  others = λ g p n. rw n refl;
}

Taken-there :
    (e : ℕ × BlockList) (m : Map BlockList) (k : ℕ) (b : BlockList) (rest : Map BlockList)
    → (e.0 == k) ≡ false
    → IsBlocks (e ∷ m)
    → Taken m k b rest
    → Taken (e ∷ m) k b (e ∷ rest)
Taken-there e m k b rest n h t = record {
  valid = t.valid;
  apart = t.apart;
  alone = λ q c. ground (arith, t.alone q c, t.pages q, h.2 q);
  pages = λ q. ground (arith, t.pages q);
  keys = λ g. ground (arith, t.keys g);
  blocks = (
    h.0,
    h.1,
    (λ q c. ground (arith, h.2 q c, t.pages q)),
    ground (arith, t.keys e.0, h.3),
    t.blocks,
  );
  others = λ g p n. ground (arith, t.others g p);
}

pub take_key-Taken :
    (m : Map BlockList) (k : ℕ) (r : BlockList × Map BlockList)
    → IsBlocks m
    → take_key m k ≡ some r
    → Taken m k r.0 r.1
unfolding take_key
take_key-Taken [] k r h e = cc
take_key-Taken (x ∷ m) k r h e = elim (Bool-cases (x.0 == k)) [
  | inl q ↦
      let f : r ≡ (x.1, m) = sym (some-injective (rw q at e)) in
      subst (λ j. Taken (x ∷ m) j r.0 r.1) ((==_iff x.0 k).0 q)
        (subst (λ s. Taken (x ∷ m) x.0 s.0 s.1) (sym f) (Taken-here x m h))
  | inr q ↦ elim (Option-cases (take_key m k)) [
    | inl n ↦ absurd (none-some (rw (q, n) at e))
    | inr (s, n) ↦
        let f : r ≡ (s.0, x ∷ s.1) = sym (some-injective (rw (q, n) at e)) in
        subst (λ s. Taken (x ∷ m) k s.0 s.1) (sym f)
          (Taken-there x m k s.0 s.1 q h (take_key-Taken m k s h.4 n))
  ]
]

pub take_key-none :
    {V : Type 0} (m : Map V) (k : ℕ) → take_key m k ≡ none → contains_key m k ≡ false
unfolding take_key
take_key-none [] k e = refl
take_key-none (x ∷ m) k e = elim (Bool-cases (x.0 == k)) [
  | inl q ↦ cc
  | inr q ↦ elim (Option-cases (take_key m k)) [
    | inl n ↦ rw q (take_key-none m k n)
    | inr (s, n) ↦ absurd (none-some (sym (rw (q, n) at e)))
  ]
]

pub contains-remove_elem :
    (xs : List ℕ) (k g : ℕ) → contains (remove_elem xs k) g ≡ (contains xs g && not (k == g))
contains-remove_elem [] k g = refl
contains-remove_elem (x ∷ xs) k g = ground (arith, contains-remove_elem xs k g)

pub contains_key-remove_key :
    {V : Type 0} (m : Map V) (k g : ℕ)
    → contains_key (remove_key m k) g ≡ (contains_key m g && not (k == g))
contains_key-remove_key [] k g = refl
contains_key-remove_key (x ∷ m) k g = ground (arith, contains_key-remove_key m k g)

pub any_contains-remove_key :
    (m : Map (List ℕ)) (k g : ℕ) → any_contains (remove_key m k) g ≡ true → any_contains m g ≡ true
any_contains-remove_key [] k g h = h
any_contains-remove_key (x ∷ m) k g h = ground (arith, any_contains-remove_key m k g)

pub any_contains-unlink :
    (m : Map (List ℕ)) (k g : ℕ)
    → any_contains (unlink m k).0 g ≡ (any_contains m g && not (k == g))
unfolding unlink
any_contains-unlink [] k g = refl
any_contains-unlink (x ∷ m) k g =
    ground (arith, any_contains-unlink m k g, contains-remove_elem x.1 k g)

pub contains_key-unlink :
    (m : Map (List ℕ)) (k g : ℕ) → contains_key (unlink m k).0 g ≡ contains_key m g
unfolding unlink
contains_key-unlink [] k g = refl
contains_key-unlink (x ∷ m) k g = ground (arith, contains_key-unlink m k g)

-- How many sets are not empty.
abbrev pub count_linked : Map (List ℕ) → ℕ
count_linked [] = 0
count_linked (e ∷ m) = (if is_none e.1 then 0 else 1) + count_linked m

pub count_linked-le : (m : Map (List ℕ)) → count_linked m ≤ length m
count_linked-le [] = omega arith
count_linked-le (x ∷ m) = ground (arith, count_linked-le m)

pub count_linked-remove_key :
    (m : Map (List ℕ)) (k : ℕ) → count_linked (remove_key m k) ≤ count_linked m
count_linked-remove_key [] k = omega arith
count_linked-remove_key (x ∷ m) k = ground (arith, count_linked-remove_key m k)

is_none-remove_elem :
    (xs : List ℕ) (k : ℕ) → contains xs k ≡ false → is_none (remove_elem xs k) ≡ is_none xs
is_none-remove_elem [] k h = refl
is_none-remove_elem (x ∷ xs) k h = ground arith

is_none-contains : (xs : List ℕ) (k : ℕ) → is_none xs ≡ true → contains xs k ≡ false
is_none-contains [] k h = refl
is_none-contains (x ∷ xs) k h = cc

pub count_linked-unlink :
    (m : Map (List ℕ)) (k : ℕ)
    → count_linked (unlink m k).0 + length (unlink m k).1 ≤ count_linked m
unfolding unlink
count_linked-unlink [] k = omega arith
count_linked-unlink (x ∷ m) k =
    ground (arith, count_linked-unlink m k, is_none-remove_elem x.1 k, is_none-contains x.1 k)

-- An empty set is that of a key in `xs`.
abbrev pub EmptyIn : List ℕ → Map (List ℕ) → Type 0
EmptyIn xs m = All (λ e. (not (is_none e.1) || contains xs e.0) ≡ true) m

pub contains-append :
    (xs ys : List ℕ) (g : ℕ) → contains (xs ++ ys) g ≡ (contains xs g || contains ys g)
contains-append [] ys g = refl
contains-append (x ∷ xs) ys g = ground (arith, contains-append xs ys g)

pub EmptyIn-imp :
    (xs ys : List ℕ) (m : Map (List ℕ))
    → ((g : ℕ) → contains xs g ≡ true → contains ys g ≡ true)
    → EmptyIn xs m
    → EmptyIn ys m
EmptyIn-imp xs ys [] f h = tt
EmptyIn-imp xs ys (e ∷ m) f h = (ground (arith, h.0, f e.0), EmptyIn-imp xs ys m f h.1)

pub EmptyIn-remove_key :
    (m : Map (List ℕ)) (k : ℕ) (xs : List ℕ) → EmptyIn (k ∷ xs) m → EmptyIn xs (remove_key m k)
EmptyIn-remove_key [] k xs h = tt
EmptyIn-remove_key (e ∷ m) k xs h = ground (arith, h.0, EmptyIn-remove_key m k xs h.1)

-- After unlinking the sets that have become empty are those of the keys to `recurse` on.
pub unlink-EmptyIn :
    (m : Map (List ℕ)) (k : ℕ) (xs : List ℕ)
    → EmptyIn xs m
    → EmptyIn ((unlink m k).1 ++ xs) (unlink m k).0
unfolding unlink
unlink-EmptyIn [] k xs h = tt
unlink-EmptyIn (x ∷ m) k xs h =
    let rest = unlink-EmptyIn m k xs h.1 in
    let r = (unlink m k).1 in
    let P = λ (z : List ℕ). EmptyIn (z ++ xs) ((x.0, remove_elem x.1 k) ∷ (unlink m k).0) in
    elim (Bool-cases (contains x.1 k && is_none (remove_elem x.1 k))) [
      | inl c ↦
          let e : (unlink (x ∷ m) k).1 ≡ x.0 ∷ r = rw c refl in
          subst P (sym e) (
            ground arith,
            EmptyIn-imp (r ++ xs) (x.0 ∷ (r ++ xs)) (unlink m k).0 (λ g i. ground (arith, i)) rest,
          )
      | inr c ↦
          let e : (unlink (x ∷ m) k).1 ≡ r = rw c refl in
          subst P (sym e)
            (ground (arith, c, h.0, contains-append r xs x.0, is_none-remove_elem x.1 k), rest)
    ]
