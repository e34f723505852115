-- ===== src/Lsm/BlockList.antt =====
-- lsm/src/lib.rs, `BlockList`: the pages of a segment, or of the free list, as blocks.
-- The struct has the one field `blocks`, so it is that list. Assertions that only the
-- `expensive_check` configuration compiles are left out.
pub mod Pages
pub mod Same
pub mod Normal
pub mod Remove
pub mod Invert
pub mod Codec
mod Tests
use elmo.Common.{
  ℕ, zero, suc, ◌+◌, ◌-◌, ◌≤◌, compare, Ordering, leb, ltb, ◌==◌, if◌then◌else◌, length,
}
use elmo.Common.{Bool, true, false, ◌&&◌, ◌||◌, Option, none, some, ◌>>=◌, ◌>>◌, guard}
use elmo.Common.{List, [], ◌∷◌, ◌++◌}
use elmo.Common.Sort.{sort_by}
use elmo.Lsm.PageBlock.{PageBlock, IntersectPageBlocks, new, intersect}
use elmo.Lsm.PageBlock

abbrev pub BlockList : Type 0
BlockList = List PageBlock

abbrev pub is_empty : BlockList → Bool
is_empty [] = true
is_empty (b ∷ bs) = false

abbrev pub count_blocks : BlockList → ℕ
count_blocks bs = length bs

abbrev pub count_pages : BlockList → ℕ
count_pages [] = 0
count_pages (b ∷ bs) = PageBlock.count_pages b + count_pages bs

-- `first_page` and `last_page` index the vector, and panic on an empty one.
unfoldable pub first_page : BlockList → Option ℕ
first_page [] = none
first_page (b ∷ bs) = some b.first_page

unfoldable pub last_page : BlockList → Option ℕ
last_page [] = none
last_page (b ∷ []) = some b.last_page
last_page (b ∷ c ∷ bs) = last_page (c ∷ bs)

-- `Vec::remove`, with what it returns first.
unfoldable pub remove_block : BlockList → ℕ → Option (PageBlock × BlockList)
remove_block [] i = none
remove_block (b ∷ bs) zero = some (b, bs)
remove_block (b ∷ bs) (suc i) = remove_block bs i >>= λ r. some (r.0, b ∷ r.1)

abbrev pub contains_page : BlockList → ℕ → Bool
contains_page [] pgnum = false
contains_page (b ∷ bs) pgnum = PageBlock.contains_page b pgnum || contains_page bs pgnum

unfoldable pub would_extend_an_existing_block : BlockList → ℕ → Bool
would_extend_an_existing_block [] pg = false
would_extend_an_existing_block (b ∷ bs) pg =
    b.last_page + 1 == pg || would_extend_an_existing_block bs pg

-- The new list, and whether a block was extended.
unfoldable pub add_page_no_reorder : BlockList → ℕ → BlockList × Bool
add_page_no_reorder [] pg = (record { first_page = pg; last_page = pg } ∷ [], false)
add_page_no_reorder (b ∷ bs) pg =
    let (bs', extended) = add_page_no_reorder bs pg in
    if b.last_page + 1 == pg then (record b { last_page = pg } ∷ bs, true) else (b ∷ bs', extended)

unfoldable pub add_block_no_reorder : BlockList → PageBlock → BlockList × Bool
add_block_no_reorder [] blk = (blk ∷ [], false)
add_block_no_reorder (b ∷ bs) blk =
    let (bs', extended) = add_block_no_reorder bs blk in
    if b.last_page + 1 == blk.first_page
    then (record b { last_page = blk.last_page } ∷ bs, true)
    else (b ∷ bs', extended)

abbrev pub add_blocklist_no_reorder : BlockList → BlockList → BlockList
add_blocklist_no_reorder bs other = bs ++ other

abbrev pub by_first_page : PageBlock → PageBlock → Ordering
by_first_page a b = compare a.first_page b.first_page

-- The loop of `sort_and_consolidate` from block `i`, which is `b`, on.
unfoldable pub consolidate : PageBlock → BlockList → BlockList
consolidate b [] = b ∷ []
consolidate b (c ∷ rest) =
    let joins = b.last_page + 1 == c.first_page in
    let done = consolidate (if joins then record b { last_page = c.last_page } else c) rest in
    if joins then done else b ∷ done

abbrev pub consolidate_all : BlockList → BlockList
consolidate_all [] = []
consolidate_all (b ∷ bs) = consolidate b bs

unfoldable pub sort_and_consolidate : BlockList → BlockList
unfolding consolidate
sort_and_consolidate bs =
    if ltb (length bs) 2 then bs else consolidate_all (sort_by by_first_page bs)

abbrev pub by_size_desc_page_asc : PageBlock → PageBlock → Ordering
by_size_desc_page_asc a b = elim (compare (PageBlock.count_pages b) (PageBlock.count_pages a)) [
  | Ordering.eq ↦ compare a.first_page b.first_page
  | c ↦ c
]

unfoldable pub sort_by_size_desc_page_asc : BlockList → BlockList
sort_by_size_desc_page_asc bs = sort_by by_size_desc_page_asc bs

-- `if let Some(b) = part { v.push(b) }`
abbrev pub push_part : BlockList → Option PageBlock → BlockList
push_part v none = v
push_part v (some b) = v ++ (b ∷ [])

-- `if let Some(b) = part { v[i] = b } else { i += 1 }`, on the blocks of `v` behind `i`.
abbrev pub put_back : Option PageBlock → BlockList → BlockList
put_back none rest = rest
put_back (some b) rest = b ∷ rest

-- The `while` loops of `remove_anything_in`, on the blocks from `i_self` and from `i_other` on:
-- what remains, and what is removed. `none` is a failed assertion, or no fuel left.
unfoldable pub remove_loop :
    ℕ → BlockList → BlockList → BlockList → BlockList → Option (BlockList × BlockList)
remove_loop fuel [] ys remaining removed = some (remaining, removed)
remove_loop fuel (x ∷ xs) [] remaining removed = some (remaining ++ (x ∷ xs), removed)
remove_loop zero (x ∷ xs) (y ∷ ys) remaining removed = none
remove_loop (suc fuel) (x ∷ xs) (y ∷ ys) remaining removed = do
  diff ← intersect x y
  remove_loop fuel (put_back diff.a_right xs) (put_back diff.b_right ys)
      (push_part remaining diff.a_left) (push_part removed diff.overlap)

-- The new `self`, and the list of what was removed. A round of the loop drops a block from one of
-- the lists, so their lengths are enough fuel.
unfoldable pub remove_anything_in : BlockList → BlockList → Option (BlockList × BlockList)
unfolding sort_and_consolidate remove_loop
remove_anything_in bs other = if is_empty bs || is_empty other then some (bs, []) else (do
  let sorted_self = sort_and_consolidate bs
  let sorted_other = sort_and_consolidate other
  r ← remove_loop (length sorted_self + length sorted_other) sorted_self sorted_other [] []
  some (sort_and_consolidate r.0, sort_and_consolidate r.1))

-- The loop of `invert`: the space between each block and the next. A subtraction below 0 panics.
unfoldable pub gaps : BlockList → Option BlockList
gaps [] = none
gaps (b ∷ []) = some []
gaps (b ∷ c ∷ bs) = do
  guard (ltb 0 c.first_page)
  guard (leb (b.last_page + 1) (c.first_page - 1))
  rest ← gaps (c ∷ bs)
  some (record { first_page = b.last_page + 1; last_page = c.first_page - 1 } ∷ rest)

unfoldable pub invert : BlockList → Option BlockList
unfolding gaps
invert bs = gaps (sort_by by_first_page bs)
