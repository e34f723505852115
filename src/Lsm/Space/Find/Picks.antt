-- ===== src/Lsm/Space/Find/Picks.antt =====
-- What the searches through the free list find.
use mathlib.Core.Path.{subst}
use mathlib.Core.List.{append_assoc}
use elmo.Common.{ℕ, ◌+◌, ◌≤◌, ◌<◌, ◌≡◌, refl, ltb, leb, arith, length, length-append}
use elmo.Common.{
  zero, suc, Bool, false, ◌||◌, Option-cases, true, Option, none, some, List, [], ◌∷◌, ◌++◌,
  Returns, Bool-cases, inl, inr,
}
use elmo.Lsm.PageBlock.{PageBlock}
use elmo.Lsm.PageBlock
use elmo.Lsm.BlockList.{BlockList, remove_block}
use elmo.Lsm.Space.Request.{any_is, all_after}
use elmo.Lsm.Space.Find.{starting_at_loop, find_block_starting_at, earliest_loop, next_winner}
use elmo.Lsm.Space.Find.{find_earliest_block_minimum_size, find_block_minimum_size, after_loop}
use elmo.Lsm.Space.Find.{find_block_after_minimum_size}

-- An index that is found is one of the list, and its block satisfies `P`.
abbrev pub Picks : (PageBlock → Type 0) → BlockList → Option ℕ → Type 0
Picks P bs none = Unit
Picks P bs (some i) = Returns (remove_block bs i) (λ r. P r.0)

remove_at :
    (pre : BlockList) (b : PageBlock) (bs : BlockList)
    → remove_block (pre ++ (b ∷ bs)) (length pre) ≡ some (b, pre ++ bs)
unfolding remove_block
remove_at [] b bs = refl
remove_at (c ∷ pre) b bs = rw (remove_at pre b bs)

-- A block behind `pre` at the index that a loop has reached.
Picks-here :
    (P : PageBlock → Type 0) (pre : BlockList) (b : PageBlock) (bs : BlockList)
    → P b
    → Picks P (pre ++ (b ∷ bs)) (some (length pre))
Picks-here P pre b bs h = rw (remove_at pre b bs) h

Picks-on :
    (P : PageBlock → Type 0) (pre : BlockList) (b : PageBlock) (bs : BlockList) (f : ℕ → Option ℕ)
    → Picks P ((pre ++ (b ∷ [])) ++ bs) (f (length (pre ++ (b ∷ []))))
    → Picks P (pre ++ (b ∷ bs)) (f (length pre + 1))
Picks-on P pre b bs f h = rw (length-append pre (b ∷ []), append_assoc pre (b ∷ []) bs) at h

starting_at_loop-Picks :
    (pre bs : BlockList) (start : List ℕ)
    → Picks
        (λ b. any_is start b.first_page ≡ true)
        (pre ++ bs)
        (starting_at_loop bs (length pre) start)
unfolding starting_at_loop
starting_at_loop-Picks pre [] start = tt
starting_at_loop-Picks pre (b ∷ bs) start = elim (Bool-cases (any_is start b.first_page)) [
  | inl e ↦ rw e (Picks-here (λ b. any_is start b.first_page ≡ true) pre b bs e)
  | inr e ↦ rw e (
      Picks-on (λ b. any_is start b.first_page ≡ true) pre b bs (λ i. starting_at_loop bs i start)
        (starting_at_loop-Picks (pre ++ (b ∷ [])) bs start))
]

pub find_block_starting_at-Picks :
    (bs : BlockList) (start : List ℕ)
    → Picks (λ b. any_is start b.first_page ≡ true) bs (find_block_starting_at bs start)
unfolding find_block_starting_at
find_block_starting_at-Picks bs start = starting_at_loop-Picks [] bs start

-- A block of the list starts at one of the pages.
abbrev pub starts_in : List ℕ → BlockList → Bool
starts_in start [] = false
starts_in start (b ∷ bs) = any_is start b.first_page || starts_in start bs

starting_at_loop-none :
    (bs : BlockList) (i : ℕ) (start : List ℕ)
    → starting_at_loop bs i start ≡ none
    → starts_in start bs ≡ false
unfolding starting_at_loop
starting_at_loop-none [] i start h = refl
starting_at_loop-none (b ∷ bs) i start h = elim (Bool-cases (any_is start b.first_page)) [
  | inl e ↦ let k = rw e at h in absurd cc
  | inr e ↦ rw e (starting_at_loop-none bs (i + 1) start (rw e at h))
]

-- Where the search finds nothing, there is no such block.
pub find_block_starting_at-none :
    (bs : BlockList) (start : List ℕ)
    → find_block_starting_at bs start ≡ none
    → starts_in start bs ≡ false
unfolding find_block_starting_at
find_block_starting_at-none bs start h = starting_at_loop-none bs 0 start h

some_injective : {A : Type 0} {a b : A} → some a ≡ some b → a ≡ b
some_injective e = cc

pub starts_in-remove_block :
    (start : List ℕ) (bs : BlockList) (i : ℕ) (r : PageBlock × BlockList)
    → remove_block bs i ≡ some r
    → starts_in start bs ≡ false
    → starts_in start r.1 ≡ false
unfolding remove_block
starts_in-remove_block start [] i r e h = absurd cc
starts_in-remove_block start (b ∷ bs) zero r e h =
    let same : (b, bs) ≡ r = some_injective e in
    subst (λ (r : PageBlock × BlockList). starts_in start r.1 ≡ false) same (ground arith)
starts_in-remove_block start (b ∷ bs) (suc i) r e h = elim (Option-cases (remove_block bs i)) [
  | inl q ↦ let k = rw q at e in absurd cc
  | inr (t, q) ↦
      let same : (t.0, b ∷ t.1) ≡ r = some_injective (rw q at e) in
      let rest = starts_in-remove_block start bs i t q (ground arith) in
      subst (λ (r : PageBlock × BlockList). starts_in start r.1 ≡ false) same (ground arith)
]

-- A block of `size` pages at least behind page `after`.
abbrev pub After : ℕ → ℕ → PageBlock → Type 0
After after size b = (size ≤ PageBlock.count_pages b) × (after < b.first_page)

after_loop-Picks :
    (pre bs : BlockList) (after size : ℕ)
    → Picks (After after size) (pre ++ bs) (after_loop bs (length pre) after size)
unfolding after_loop
after_loop-Picks pre [] after size = tt
after_loop-Picks pre (b ∷ bs) after size = elim (Bool-cases (leb size (PageBlock.count_pages b))) [
  | inr e ↦ rw e tt
  | inl e ↦ elim (Bool-cases (ltb after b.first_page)) [
    | inl e' ↦ rw (e, e') (Picks-here (After after size) pre b bs (ground arith, ground arith))
    | inr e' ↦
        rw (e, e')
          (Picks-on (After after size) pre b bs (λ i. after_loop bs i after size)
            (after_loop-Picks (pre ++ (b ∷ [])) bs after size))
  ]
]

pub find_block_after_minimum_size-Picks :
    (bs : BlockList) (after size : ℕ)
    → Picks (After after size) bs (find_block_after_minimum_size bs after size)
unfolding find_block_after_minimum_size
find_block_after_minimum_size-Picks bs after size = after_loop-Picks [] bs after size

pub find_block_after_minimum_size-nil :
    (after size : ℕ) → find_block_after_minimum_size [] after size ≡ none
unfolding find_block_after_minimum_size after_loop
find_block_after_minimum_size-nil after size = refl

next_winner-some :
    (blocks : BlockList) (b : PageBlock) (i j : ℕ) → next_winner blocks b i (some j) ≡ some j
next_winner-some blocks b i j = ground arith

earliest_loop-some :
    (blocks bs : BlockList) (i size j : ℕ) → earliest_loop blocks bs i size (some j) ≡ some j
unfolding earliest_loop
earliest_loop-some blocks [] i size j = refl
earliest_loop-some blocks (b ∷ bs) i size j =
    rw (next_winner-some blocks b i j, earliest_loop-some blocks bs (i + 1) size j) (ground arith)

-- `find_earliest_block_minimum_size` does not look for the earliest block: on every list that is
-- not empty it finds what `find_block_minimum_size` finds, the first block of the list if that is
-- big enough.
pub find_earliest-eq-find_minimum :
    (b : PageBlock) (bs : BlockList) (size : ℕ)
    → find_block_minimum_size (b ∷ bs) size ≡ some (find_earliest_block_minimum_size (b ∷ bs) size)
unfolding find_earliest_block_minimum_size find_block_minimum_size
find_earliest-eq-find_minimum b bs size = rw (earliest_loop-some (b ∷ bs) bs 1 size 0)

abbrev pub BigEnough : ℕ → PageBlock → Type 0
BigEnough size b = size ≤ PageBlock.count_pages b

pub find_block_minimum_size-Picks :
    (b : PageBlock) (bs : BlockList) (size : ℕ)
    → Returns (find_block_minimum_size (b ∷ bs) size) (Picks (BigEnough size) (b ∷ bs))
unfolding find_block_minimum_size remove_block
find_block_minimum_size-Picks b bs size = ground arith

-- The first block of the list, if there is one, is smaller.
abbrev pub IsSmaller : ℕ → BlockList → Type 0
IsSmaller size [] = Unit
IsSmaller size (b ∷ bs) = PageBlock.count_pages b < size

-- What `find_block_minimum_size` says of the list: where it finds nothing, the first is smaller.
pub find_block_minimum_size-IsSmaller :
    (b : PageBlock) (bs : BlockList) (size : ℕ)
    → Returns
        (find_block_minimum_size (b ∷ bs) size)
        (λ o. Picks (BigEnough size) (b ∷ bs) o × (o ≡ none → IsSmaller size (b ∷ bs)))
unfolding find_block_minimum_size remove_block
find_block_minimum_size-IsSmaller b bs size =
    elim (Bool-cases (leb size (PageBlock.count_pages b))) [
      | inl e ↦ rw e (ground arith, λ z. absurd cc)
      | inr e ↦ rw e (tt, λ z. ground arith)
    ]

pub find_earliest-Picks :
    (b : PageBlock) (bs : BlockList) (size : ℕ)
    → Picks (BigEnough size) (b ∷ bs) (find_earliest_block_minimum_size (b ∷ bs) size)
find_earliest-Picks b bs size =
    rw (find_earliest-eq-find_minimum b bs size) at (find_block_minimum_size-Picks b bs size)

pub any_is-after :
    (start : List ℕ) (after x : ℕ)
    → any_is start x ≡ true
    → all_after start after ≡ true
    → after < x
any_is-after [] after x h k = cc
any_is-after (n ∷ ns) after x h k = ground (arith, any_is-after ns after x)
