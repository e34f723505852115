-- ===== src/Lsm/BlockList/Tests.antt =====
-- Runs of the block lists, and the theorems at concrete inputs.
use elmo.Common.{
  ℕ, ◌≡◌, refl, ◌&&◌, ◌||◌, true, false, not, List, [], ◌∷◌, ◌++◌, some, inl, inr, Returns, arith,
  leb, length, ◌+◌,
}
use elmo.Lsm.PageBlock.{PageBlock, IntersectPageBlocks, intersect}
use elmo.Lsm.PageBlock
use elmo.Lsm.PageBlock.Intersect.{part_contains, IsValidPart, intersect_lem}
use elmo.Lsm.BlockList.{
  BlockList, contains_page, count_pages, sort_and_consolidate, remove_anything_in, invert,
  first_page, last_page,
}
use elmo.Lsm.BlockList.{add_block_no_reorder}
use elmo.Lsm.BlockList.Pages.{AllValid, AllApart, add_block_no_reorder_lem}
use elmo.Lsm.BlockList.Normal.{IsNormal, sort_and_consolidate_lem}
use elmo.Lsm.BlockList.Remove.{remove_anything_in_lem}
use elmo.Lsm.BlockList.Invert.{invert_lem}
use elmo.Lsm.BlockList.Codec.{encode_into_vec, read}
use elmo.Lsm.BlockList.Codec.RoundTrip.{encoding, read-encode_into_vec}

abbrev blk : ℕ → ℕ → PageBlock
blk first last = record { first_page = first; last_page = last }

abbrev scattered : BlockList
scattered = blk 12 14 ∷ blk 1 4 ∷ blk 5 8 ∷ []

scattered_valid : AllValid scattered × AllApart scattered
scattered_valid = ground arith

abbrev cut_out : BlockList
cut_out = blk 3 5 ∷ blk 14 20 ∷ []

cut_out_valid : AllValid cut_out × AllApart cut_out
cut_out_valid = ground arith

sort_scattered : sort_and_consolidate scattered ≡ blk 1 8 ∷ blk 12 14 ∷ []
unfolding sort_and_consolidate elmo.Common.Sort.sort_by
sort_scattered = refl

remove_cut_out :
    remove_anything_in scattered cut_out
    ≡ some (blk 1 2 ∷ blk 6 8 ∷ blk 12 13 ∷ [], blk 3 5 ∷ blk 14 14 ∷ [])
unfolding remove_anything_in elmo.Common.Sort.sort_by intersect
remove_cut_out = refl

invert-cut_out : invert cut_out ≡ some (blk 6 13 ∷ [])
unfolding invert elmo.Common.Sort.sort_by
invert-cut_out = refl

encode_cut_out : encode_into_vec cut_out (7 ∷ []) ≡ some (7 ∷ 2 ∷ 3 ∷ 2 ∷ 11 ∷ 6 ∷ [])
unfolding encode_into_vec elmo.Varint.push_varint elmo.Varint.write
encode_cut_out = refl

sort_and_consolidate_example :
    (contains_page (sort_and_consolidate scattered) 7 ≡ contains_page scattered 7)
    × (count_pages (sort_and_consolidate scattered) ≡ count_pages scattered)
    × IsNormal 0 (sort_and_consolidate scattered)
sort_and_consolidate_example =
    sort_and_consolidate_lem scattered 7 scattered_valid.0 scattered_valid.1

remove_anything_in_example : Returns (remove_anything_in scattered cut_out) λ r.
    (contains_page r.0 5 ≡ (contains_page scattered 5 && not (contains_page cut_out 5)))
    × (contains_page r.1 5 ≡ (contains_page scattered 5 && contains_page cut_out 5))
remove_anything_in_example =
    remove_anything_in_lem scattered cut_out 5 scattered_valid cut_out_valid

invert_example :
    Returns
      (invert cut_out)
      λ g. contains_page g 9 ≡ (leb 3 9 && leb 9 20 && not (contains_page cut_out 9))
unfolding first_page last_page
invert_example = invert_lem cut_out 0 3 20 9 (ground arith) refl refl

read-encode_into_vec_example :
    (encode_into_vec cut_out (7 ∷ []) ≡ some ((7 ∷ []) ++ encoding cut_out))
    × (read ((7 ∷ []) ++ (encoding cut_out ++ (9 ∷ []))) 1
        ≡ some (cut_out, length ((7 ∷ []) ++ encoding cut_out)))
read-encode_into_vec_example = read-encode_into_vec cut_out (7 ∷ []) (9 ∷ []) (ground arith)

intersect_example : Returns (intersect (blk 2 9) (blk 5 20)) λ d.
    (part_contains d.a_left 4 ≡ (PageBlock.contains_page (blk 2 9) 4 && true))
    × (part_contains d.b_left 4 ≡ (PageBlock.contains_page (blk 5 20) 4 && false))
    × (part_contains d.overlap 4
        ≡ (PageBlock.contains_page (blk 2 9) 4 && PageBlock.contains_page (blk 5 20) 4))
    × (part_contains d.a_right 4 ≡ (PageBlock.contains_page (blk 2 9) 4 && false))
    × (part_contains d.b_right 4 ≡ (PageBlock.contains_page (blk 5 20) 4 && false))
    × IsValidPart d.a_left
    × IsValidPart d.b_left
    × IsValidPart d.overlap
    × IsValidPart d.a_right
    × IsValidPart d.b_right
intersect_example = intersect_lem (blk 2 9) (blk 5 20) 4 (omega arith) (omega arith)

add_block_no_reorder_example :
    (contains_page (add_block_no_reorder scattered (blk 9 10)).0 9
      ≡ (contains_page scattered 9 || PageBlock.contains_page (blk 9 10) 9))
    × (count_pages (add_block_no_reorder scattered (blk 9 10)).0
        ≡ count_pages scattered + PageBlock.count_pages (blk 9 10))
    × AllValid (add_block_no_reorder scattered (blk 9 10)).0
add_block_no_reorder_example =
    add_block_no_reorder_lem scattered (blk 9 10) 9 scattered_valid.0 (omega arith)
