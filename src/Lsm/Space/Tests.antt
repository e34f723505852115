-- ===== src/Lsm/Space/Tests.antt =====
-- Runs of the free list, and the theorems at concrete inputs.
use elmo.Common.{
  ℕ, ◌*◌, ◌≡◌, refl, ◌&&◌, not, false, List, [], ◌∷◌, some, none, inl, inr, Returns, arith, leb,
}
use elmo.Lsm.PageBlock.{PageBlock}
use elmo.Lsm.BlockList.{BlockList, contains_page}
use elmo.Lsm.Space.{
  Space, get_block, add_free_blocks, organize_free_blocks, truncate_file_if_possible,
}
use elmo.Lsm.Space.Request.{start_or_after_minimum_size, early_exact_size}
use elmo.Lsm.Space.Find.{find_block_minimum_size, find_earliest_block_minimum_size}
use elmo.Lsm.Space.Find.Picks.{find_earliest-eq-find_minimum}
use elmo.Lsm.Space.Used.{is_used, IsValid}
use elmo.Lsm.Space.Organize.{survives, organize_free_blocks_lem, truncate_file_if_possible_lem}
use elmo.Lsm.Space.Alloc.{Allocates}
use elmo.Lsm.Space.Answers.{Answers}
use elmo.Lsm.Space.Block.{get_block_lem}
use elmo.Lsm.Space.Free.{add_free_blocks_lem}

abbrev blk : ℕ → ℕ → PageBlock
blk first last = record { first_page = first; last_page = last }

-- A file of 29 pages: pages 5 to 8 and 12 to 14 are free, 20 to 21 and 28 to 29 freed lately.
abbrev space : Space
space = record {
  page_size = 4096;
  pages_per_block = 10;
  next_page = 30;
  recent_free = (blk 20 21 ∷ blk 28 29 ∷ []) ∷ [];
  free_blocks = blk 5 8 ∷ blk 12 14 ∷ [];
  next_rlock = 3;
  rlocks = (2, 40 ∷ []) ∷ [];
  zombies = (40, blk 15 16 ∷ []) ∷ [];
  dependencies = [];
}

space-IsValid : IsValid space
space-IsValid = record {
  free = record { in_file = ground arith; apart = ground arith };
  positive = omega arith;
  grows = omega arith;
}

abbrev organized : Space
organized = record space {
  next_page = 28;
  recent_free = [];
  free_blocks = blk 5 8 ∷ blk 12 14 ∷ blk 20 21 ∷ [];
}

organize_space : organize_free_blocks space ≡ some organized
unfolding organize_free_blocks elmo.Lsm.BlockList.sort_and_consolidate elmo.Common.Sort.sort_by
    elmo.Lsm.BlockList.last_page elmo.Lsm.BlockList.remove_block organized
    elmo.Lsm.BlockList.sort_by_size_desc_page_asc
organize_space = refl

-- Of the two blocks of free pages the later one stands behind page 9.
get_after_9 :
    get_block space (start_or_after_minimum_size (15 ∷ []) 9 3)
    ≡ some (blk 12 14, record space { free_blocks = blk 5 8 ∷ [] })
unfolding get_block elmo.Lsm.Space.Find.find_block_starting_at
    elmo.Lsm.Space.Find.find_block_after_minimum_size elmo.Lsm.BlockList.remove_block
get_after_9 = refl

truncate_space : truncate_file_if_possible space (29 * 4096) ≡ some (organized, some (27 * 4096))
unfolding truncate_file_if_possible elmo.Lsm.BlockList.sort_and_consolidate elmo.Common.Sort.sort_by
    elmo.Lsm.BlockList.last_page elmo.Lsm.BlockList.remove_block organized
    elmo.Lsm.BlockList.sort_by_size_desc_page_asc
truncate_space = refl

get_block_example :
    Returns
      (get_block space (early_exact_size 2))
      λ r. Allocates space 6 r × Answers 10 (early_exact_size 2) r
get_block_example = get_block_lem space (early_exact_size 2) 6 space-IsValid (omega arith)

add_free_blocks_example : Returns (add_free_blocks space (blk 15 17 ∷ [])) λ s'.
    IsValid s' × (is_used s' 16 ≡ (is_used space 16 && not (contains_page (blk 15 17 ∷ []) 16)))
add_free_blocks_example =
    add_free_blocks_lem space (blk 15 17 ∷ []) 16 space-IsValid (omega arith, tt) (tt, tt)
      (λ q h. ground arith)

organize_free_blocks_example :
    Returns
      (organize_free_blocks space)
      λ s'. IsValid s' × (is_used s' 28 ≡ is_used space 28) × (s'.pages_per_block ≡ 10)
organize_free_blocks_example = organize_free_blocks_lem space 28 space-IsValid

truncate_file_if_possible_example : Returns (truncate_file_if_possible space (29 * 4096)) λ r.
    IsValid r.0
    × (is_used r.0 27 ≡ is_used space 27)
    × ((is_used space 27 && not (survives r.0.page_size 27 r.1)) ≡ false)
truncate_file_if_possible_example = truncate_file_if_possible_lem space (29 * 4096) 27 space-IsValid

-- The block at page 5 is the earlier one.
find_earliest-eq-find_minimum_example :
    find_block_minimum_size (blk 20 29 ∷ blk 5 8 ∷ []) 2
    ≡ some (find_earliest_block_minimum_size (blk 20 29 ∷ blk 5 8 ∷ []) 2)
find_earliest-eq-find_minimum_example = find_earliest-eq-find_minimum (blk 20 29) (blk 5 8 ∷ []) 2
