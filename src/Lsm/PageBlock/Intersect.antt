-- ===== src/Lsm/PageBlock/Intersect.antt =====
-- What `PageBlock::intersect` returns, page by page.
use elmo.Common.{ℕ, ◌+◌, ◌-◌, min, max, if◌then◌else◌, ◌≤◌, ◌≡◌, leb, ltb, arith, Returns}
use elmo.Common.{Bool, false, ◌&&◌, Option, none, some}
use elmo.Lsm.PageBlock.{PageBlock, IntersectPageBlocks, contains_page, new, intersect}
use elmo.Lsm.PageBlock.{piece, left_of, right_of, check_parts}

-- What `new` asserts.
abbrev pub IsValid : PageBlock → Type 0
IsValid b = b.first_page ≤ b.last_page

-- A part that is present is a valid block.
abbrev pub IsValidPart : Option PageBlock → Type 0
IsValidPart none = Unit
IsValidPart (some b) = IsValid b

abbrev pub part_contains : Option PageBlock → ℕ → Bool
part_contains none p = false
part_contains (some b) p = contains_page b p

-- The parts, without the assertions.
abbrev pub left_part : PageBlock → PageBlock → Option PageBlock
left_part a b =
    if ltb a.first_page b.first_page
    then some (record { first_page = a.first_page; last_page = min a.last_page (b.first_page - 1) })
    else none

abbrev pub right_part : PageBlock → PageBlock → Option PageBlock
right_part a b =
    if ltb b.last_page a.last_page
    then some (record { first_page = max a.first_page (b.last_page + 1); last_page = a.last_page })
    else none

abbrev pub common_part : PageBlock → PageBlock → Option PageBlock
common_part a b =
    let first = max a.first_page b.first_page in
    let last = min a.last_page b.last_page in
    if leb first last then some (record { first_page = first; last_page = last }) else none

abbrev pub parts : PageBlock → PageBlock → IntersectPageBlocks
parts a b = record {
  a_left = left_part a b;
  b_left = left_part b a;
  overlap = common_part a b;
  a_right = right_part a b;
  b_right = right_part b a;
}

module _ (a b : PageBlock) (va : IsValid a) (vb : IsValid b) where
  left_of-eq : left_of a b ≡ some (left_part a b)
  unfolding new
  left_of-eq = ground arith

  right_of-eq : right_of a b ≡ some (right_part a b)
  unfolding new
  right_of-eq = ground arith

  common-eq :
      piece (max a.first_page b.first_page) (min a.last_page b.last_page) ≡ some (common_part a b)
  unfolding new
  common-eq = ground arith

  check_parts-eq : check_parts a (left_part a b) (common_part a b) (right_part a b) ≡ some tt
  check_parts-eq = ground arith

  pub left_part_lem :
      (p : ℕ)
      → (part_contains (left_part a b) p ≡ (contains_page a p && ltb p b.first_page))
        × IsValidPart (left_part a b)
  left_part_lem p = ground arith

  pub right_part_lem :
      (p : ℕ)
      → (part_contains (right_part a b) p ≡ (contains_page a p && ltb b.last_page p))
        × IsValidPart (right_part a b)
  right_part_lem p = ground arith

  pub common_part_lem :
      (p : ℕ)
      → (part_contains (common_part a b) p ≡ (contains_page a p && contains_page b p))
        × IsValidPart (common_part a b)
  common_part_lem p = ground arith

-- On blocks that `new` accepts no assertion of `intersect` fails.
pub intersect-eq : (a b : PageBlock) → IsValid a → IsValid b → intersect a b ≡ some (parts a b)
unfolding intersect
intersect-eq a b va vb = rw (
  left_of-eq a b va vb,
  left_of-eq b a vb va,
  right_of-eq a b va vb,
  right_of-eq b a vb va,
  common-eq a b va vb,
  check_parts-eq a b va vb,
)

-- `intersect` on blocks that `new` accepts fails no assertion, and its parts are valid blocks that
-- hold exactly the pages of each block before, within and after the other.
pub intersect_lem :
    (a b : PageBlock) (p : ℕ)
    → IsValid a
    → IsValid b
    → Returns (intersect a b) λ d.
      (part_contains d.a_left p ≡ (contains_page a p && ltb p b.first_page))
      × (part_contains d.b_left p ≡ (contains_page b p && ltb p a.first_page))
      × (part_contains d.overlap p ≡ (contains_page a p && contains_page b p))
      × (part_contains d.a_right p ≡ (contains_page a p && ltb b.last_page p))
      × (part_contains d.b_right p ≡ (contains_page b p && ltb a.last_page p))
      × IsValidPart d.a_left
      × IsValidPart d.b_left
      × IsValidPart d.overlap
      × IsValidPart d.a_right
      × IsValidPart d.b_right
intersect_lem a b p va vb =
    let l = left_part_lem a b va vb p in
    let l' = left_part_lem b a vb va p in
    let m = common_part_lem a b va vb p in
    let r = right_part_lem a b va vb p in
    let r' = right_part_lem b a vb va p in
    rw (intersect-eq a b va vb) (l.0, l'.0, m.0, r.0, r'.0, l.1, l'.1, m.1, r.1, r'.1)
