-- ===== src/Lsm/Space/Find.antt =====
-- lsm/src/lib.rs, the functions inside `Space::get_block` that look for a free block. They return
-- an index into `free_blocks`.
pub mod Picks
use elmo.Common.{ℕ, zero, suc, ◌+◌, ltb, leb, ◌==◌, if◌then◌else◌, get_elem?}
use elmo.Common.{Bool, true, false, Option, none, some, List, [], ◌∷◌}
use elmo.Lsm.PageBlock.{PageBlock}
use elmo.Lsm.PageBlock
use elmo.Lsm.BlockList.{BlockList}
use elmo.Lsm.Space.Request.{any_is}

-- The blocks from index `i` on; the inner loop over `start` ends at the first equal page.
starting_at_loop : BlockList → ℕ → List ℕ → Option ℕ
starting_at_loop [] i start = none
starting_at_loop (b ∷ bs) i start =
    if any_is start b.first_page then some i else starting_at_loop bs (i + 1) start

unfoldable pub find_block_starting_at : BlockList → List ℕ → Option ℕ
unfolding starting_at_loop
find_block_starting_at blocks start = starting_at_loop blocks 0 start

-- The `match winner` for a block `b` at `i` that is big enough, in the list `blocks`. The source
-- assigns `Some(j)` where `b` is earlier: the old winner stays in both cases.
abbrev next_winner : BlockList → PageBlock → ℕ → Option ℕ → Option ℕ
next_winner blocks b i none = some i
next_winner blocks b i (some j) = elim (get_elem? blocks j) [
  | none ↦ some j
  | some w ↦ if ltb b.first_page w.first_page then some j else some j
]

earliest_loop : BlockList → BlockList → ℕ → ℕ → Option ℕ → Option ℕ
earliest_loop blocks [] i size winner = winner
earliest_loop blocks (b ∷ bs) i size winner =
    if leb size (PageBlock.count_pages b)
    then earliest_loop blocks bs (i + 1) size (next_winner blocks b i winner)
    else winner

unfoldable pub find_earliest_block_minimum_size : BlockList → ℕ → Option ℕ
unfolding earliest_loop
find_earliest_block_minimum_size blocks size = earliest_loop blocks blocks 0 size none

-- Indexes the first block; `none` on an empty list is the panic.
unfoldable pub find_block_minimum_size : BlockList → ℕ → Option (Option ℕ)
find_block_minimum_size [] size = none
find_block_minimum_size (b ∷ bs) size =
    some (if leb size (PageBlock.count_pages b) then some 0 else none)

after_loop : BlockList → ℕ → ℕ → ℕ → Option ℕ
after_loop [] i after size = none
after_loop (b ∷ bs) i after size =
    let rest = after_loop bs (i + 1) after size in
    if leb size (PageBlock.count_pages b)
    then (if ltb after b.first_page then some i else rest)
    else none

unfoldable pub find_block_after_minimum_size : BlockList → ℕ → ℕ → Option ℕ
unfolding after_loop
find_block_after_minimum_size blocks after size = after_loop blocks 0 after size
