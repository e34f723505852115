-- ===== src/Lsm/Space.antt =====
-- lsm/src/lib.rs, `Space` and `BlockRequest`: which pages of the file are free, and the requests
-- for a block of them. The path of the file is left out. A page number is at least 1, and
-- `next_page` too, so `next_page - 1` does not go below 0.
pub mod Find
pub mod Request
pub mod Used
pub mod Organize
pub mod Alloc
pub mod Answers
pub mod Decision
pub mod Block
pub mod Free
pub mod Locks
mod Tests
use elmo.Common.{ℕ, zero, suc, ◌+◌, ◌-◌, ◌*◌, ◌/◌, ltb, leb, ◌==◌, if◌then◌else◌, max, length}
use elmo.Common.{Bool, true, false, not, ◌&&◌, Option, none, some, ◌>>=◌, ◌>>◌, guard}
use elmo.Common.{List, [], ◌∷◌, ◌++◌}
use elmo.Common.Map.{Map}
use elmo.Lsm.PageBlock.{PageBlock}
use elmo.Lsm.PageBlock
use elmo.Lsm.BlockList.{BlockList}
use elmo.Lsm.BlockList
use elmo.Lsm.Space.Request.{BlockRequest, start_is, get_after, all_after}
use elmo.Lsm.Space.Find.{find_block_starting_at, find_earliest_block_minimum_size}
use elmo.Lsm.Space.Find.{find_block_minimum_size, find_block_after_minimum_size}

pub record Space : Type 0 where
  pub page_size : ℕ
  pub pages_per_block : ℕ
  pub next_page : ℕ
  pub recent_free : List BlockList
  pub free_blocks : BlockList
  pub next_rlock : ℕ
  pub rlocks : Map (List ℕ)
  pub zombies : Map BlockList
  pub dependencies : Map (List ℕ)

-- `for list in self.recent_free { self.free_blocks.add_blocklist_no_reorder(list) }`
abbrev pub add_recent : BlockList → List BlockList → BlockList
add_recent bs [] = bs
add_recent bs (l ∷ ls) = add_recent (BlockList.add_blocklist_no_reorder bs l) ls

-- The last free block, if it ends just before `next_page`, goes back to the end of the file.
abbrev pub drop_free_at_end : Space → Option Space
drop_free_at_end s =
    if ltb 0 (length s.free_blocks)
    then (do
      last ← BlockList.last_page s.free_blocks
      if last == s.next_page - 1
          then (do
            (blk, rest) ← BlockList.remove_block s.free_blocks (length s.free_blocks - 1)
            some (record s { free_blocks = rest; next_page = blk.first_page }))
          else some s)
    else some s

unfoldable pub step1_sort_and_consolidate : Space → Option Space
step1_sort_and_consolidate s =
    let bs = add_recent s.free_blocks s.recent_free in
    drop_free_at_end
      (record s { recent_free = []; free_blocks = BlockList.sort_and_consolidate bs })

unfoldable pub step2_sort_for_usage : Space → Space
step2_sort_for_usage s = record s {
  free_blocks = BlockList.sort_by_size_desc_page_asc s.free_blocks;
}

unfoldable pub organize_free_blocks : Space → Option Space
unfolding step1_sort_and_consolidate step2_sort_for_usage
organize_free_blocks s = step1_sort_and_consolidate s >>= λ s'. some (step2_sort_for_usage s')

unfoldable pub add_free_blocks : Space → BlockList → Option Space
unfolding organize_free_blocks
add_free_blocks s blocks =
    let s' = record s { recent_free = s.recent_free ++ (blocks ∷ []) } in
    if leb 8 (length s'.recent_free) then organize_free_blocks s' else some s'

-- The new state, and the length to which the file, now `file_length` bytes long, is cut. `page_size`
-- is not 0, by which the source would panic, and errors of file input and output are left out.
unfoldable pub truncate_file_if_possible : Space → ℕ → Option (Space × Option ℕ)
unfolding step1_sort_and_consolidate step2_sort_for_usage
truncate_file_if_possible s file_length = do
  s' ← step1_sort_and_consolidate s
  let first_page_beyond = file_length / s'.page_size + 1
  let cut =
      if ltb s'.next_page first_page_beyond then some ((s'.next_page - 1) * s'.page_size) else none
  some (step2_sort_for_usage s', cut)

pub data FromWhere : Type 0 where
  end : ℕ → FromWhere
  first_free : FromWhere
  specific_free : ℕ → FromWhere
  specific_free_exact : ℕ → ℕ → FromWhere

-- `FromWhere::End(std::cmp::max(size, self.pages_per_block))`
abbrev pub end_at_least : Space → ℕ → FromWhere
end_at_least s size = end (max size s.pages_per_block)

abbrev pub specific_or : Option ℕ → FromWhere → FromWhere
specific_or none other = other
specific_or (some i) other = specific_free i

abbrev pub exact_or : Option ℕ → ℕ → FromWhere → FromWhere
exact_or none size other = other
exact_or (some i) size other = specific_free_exact i size

-- The inner `match req`, where there are free blocks.
abbrev pub from_free : Space → BlockRequest → Option FromWhere
from_free s BlockRequest.any = some first_free
from_free s (BlockRequest.start_or_after_minimum_size start after size) = do
  guard (all_after start after)
  some (
      specific_or (find_block_starting_at s.free_blocks start) (
        specific_or (find_block_after_minimum_size s.free_blocks after size) (end_at_least s size)))
from_free s (BlockRequest.early_exact_size size) =
    some (exact_or (find_earliest_block_minimum_size s.free_blocks size) size (end size))
from_free s (BlockRequest.exact_size size) = do
  i ← find_block_minimum_size s.free_blocks size
  some (exact_or i size (end_at_least s size))
from_free s (BlockRequest.minimum_size size) = do
  i ← find_block_minimum_size s.free_blocks size
  some (specific_or i (end_at_least s size))
from_free s (BlockRequest.start_or_any start) =
    some (specific_or (find_block_starting_at s.free_blocks start) first_free)

abbrev pub from_end : Space → BlockRequest → FromWhere
from_end s (BlockRequest.early_exact_size size) = end size
from_end s BlockRequest.any = end s.pages_per_block
from_end s (BlockRequest.exact_size size) = end s.pages_per_block
from_end s (BlockRequest.minimum_size size) = end s.pages_per_block
from_end s (BlockRequest.start_or_after_minimum_size start after size) = end s.pages_per_block
from_end s (BlockRequest.start_or_any start) = end s.pages_per_block

unfoldable pub from_where : Space → BlockRequest → Option FromWhere
from_where s req =
    if BlockList.is_empty s.free_blocks
    then some (from_end s req)
    else (if start_is req s.next_page then some (end s.pages_per_block) else from_free s req)

-- The last `match` of `get_block`: the block, and the new state.
unfoldable pub take_from : Space → FromWhere → Option (PageBlock × Space)
take_from s first_free = do
  (blk, rest) ← BlockList.remove_block s.free_blocks 0
  some (blk, record s { free_blocks = rest })
take_from s (specific_free i) = do
  (blk, rest) ← BlockList.remove_block s.free_blocks i
  some (blk, record s { free_blocks = rest })
take_from s (specific_free_exact i size) = do
  (blk, rest) ← BlockList.remove_block s.free_blocks i
  if ltb size (PageBlock.count_pages blk)
      then (do
        b ← PageBlock.new (blk.first_page + size) blk.last_page
        let remainder = (BlockList.add_block_no_reorder [] b).0
        let blk' = record blk { last_page = blk.first_page + size - 1 }
        guard (PageBlock.count_pages blk' == size)
        some (
          blk',
          record s { free_blocks = rest; recent_free = s.recent_free ++ (remainder ∷ []) },
        ))
      else (do
        guard (PageBlock.count_pages blk == size)
        some (blk, record s { free_blocks = rest }))
take_from s (end size) = do
  new_blk ← PageBlock.new s.next_page (s.next_page + size - 1)
  some (new_blk, record s { next_page = s.next_page + size })

-- `if let Some(after) = req.get_after() { assert!(self.next_page > after) }`
abbrev pub check_after : Option ℕ → ℕ → Option (Unit {0})
check_after none next_page = some tt
check_after (some after) next_page = guard (ltb after next_page)

abbrev pub is_none_recent : List BlockList → Bool
is_none_recent [] = true
is_none_recent (l ∷ ls) = false

-- `get_block` first brings recently freed blocks into the list, if that is empty.
unfoldable pub refill : Space → Option Space
unfolding organize_free_blocks
refill s =
    if BlockList.is_empty s.free_blocks && not (is_none_recent s.recent_free)
    then organize_free_blocks s
    else some s

unfoldable pub get_block : Space → BlockRequest → Option (PageBlock × Space)
unfolding refill from_where take_from
get_block s req = do
  check_after (get_after req) s.next_page
  s' ← refill s
  from ← from_where s' req
  take_from s' from
