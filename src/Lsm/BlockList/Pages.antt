-- ===== src/Lsm/BlockList/Pages.antt =====
-- The pages of a block list, and what adding to it without reordering does to them.
use elmo.Common.{ℕ, ◌+◌, ◌<◌, ◌≡◌, refl, arith, All, ◌⊎◌}
use elmo.Common.{◌||◌, [], ◌∷◌, ◌++◌}
use elmo.Lsm.PageBlock.{PageBlock}
use elmo.Lsm.PageBlock
use elmo.Lsm.PageBlock.Intersect.{IsValid}
use elmo.Lsm.BlockList.{BlockList, contains_page, count_pages, would_extend_an_existing_block}
use elmo.Lsm.BlockList.{add_page_no_reorder, add_block_no_reorder}

-- Every block is one that `PageBlock::new` accepts.
abbrev pub AllValid : BlockList → Type 0
AllValid bs = All IsValid bs

-- No page is in both blocks.
abbrev pub Apart : PageBlock → PageBlock → Type 0
Apart a b = (a.last_page < b.first_page) ⊎ (b.last_page < a.first_page)

-- No page is in two blocks of the list.
abbrev pub AllApart : BlockList → Type 0
AllApart [] = Unit
AllApart (b ∷ bs) = All (Apart b) bs × AllApart bs

pub contains_page-append :
    (xs ys : BlockList) (p : ℕ)
    → contains_page (xs ++ ys) p ≡ (contains_page xs p || contains_page ys p)
contains_page-append [] ys p = refl
contains_page-append (x ∷ xs) ys p = ground (arith, contains_page-append xs ys p)

pub count_pages-append :
    (xs ys : BlockList) → count_pages (xs ++ ys) ≡ count_pages xs + count_pages ys
count_pages-append [] ys = omega arith
count_pages-append (x ∷ xs) ys = omega (arith, count_pages-append xs ys)

pub AllValid-append : (xs ys : BlockList) → AllValid xs → AllValid ys → AllValid (xs ++ ys)
AllValid-append [] ys hx hy = hy
AllValid-append (x ∷ xs) ys hx hy = (hx.0, AllValid-append xs ys hx.1 hy)

-- On valid blocks `add_block_no_reorder` adds the pages of the block and no other, as many as it
-- has, and keeps the blocks valid.
pub add_block_no_reorder_lem :
    (bs : BlockList) (blk : PageBlock) (p : ℕ)
    → AllValid bs
    → IsValid blk
    → (contains_page (add_block_no_reorder bs blk).0 p
        ≡ (contains_page bs p || PageBlock.contains_page blk p))
      × (count_pages (add_block_no_reorder bs blk).0 ≡ count_pages bs + PageBlock.count_pages blk)
      × AllValid (add_block_no_reorder bs blk).0
unfolding add_block_no_reorder
add_block_no_reorder_lem [] blk p v w = ground arith
add_block_no_reorder_lem (b ∷ bs) blk p v w =
    ground (arith, add_block_no_reorder_lem bs blk p v.1 w)

-- `add_page_no_reorder` adds the block of one page, and says whether an existing block ended just
-- before that page.
pub add_page_no_reorder_lem :
    (bs : BlockList) (pg : ℕ)
    → (add_page_no_reorder bs pg
        ≡ add_block_no_reorder bs (record { first_page = pg; last_page = pg }))
      × ((add_page_no_reorder bs pg).1 ≡ would_extend_an_existing_block bs pg)
unfolding add_page_no_reorder add_block_no_reorder would_extend_an_existing_block
add_page_no_reorder_lem [] pg = (refl, refl)
add_page_no_reorder_lem (b ∷ bs) pg = ground (arith, add_page_no_reorder_lem bs pg)
