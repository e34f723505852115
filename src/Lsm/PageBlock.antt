-- ===== src/Lsm/PageBlock.antt =====
-- lsm/src/lib.rs, `PageBlock`: a run of pages of the file, from `first_page` to `last_page`.
-- Page numbers are unbounded here: a file of 2 ^ 64 pages cannot exist, so `+ 1` does not wrap.
pub mod Intersect
use elmo.Common.{ℕ, ◌+◌, ◌-◌, ◌≤◌, min, max, leb, ltb, ◌==◌, if◌then◌else◌}
use elmo.Common.{Bool, true, false, ◌&&◌, Option, none, some, ◌>>=◌, ◌>>◌, guard}

pub record PageBlock : Type 0 where
  pub first_page : ℕ
  pub last_page : ℕ

-- `new` asserts `first <= last`.
unfoldable pub new : ℕ → ℕ → Option PageBlock
new first last = do guard (leb first last); some (record { first_page = first; last_page = last })

abbrev pub count_pages : PageBlock → ℕ
count_pages b = b.last_page - b.first_page + 1

abbrev pub contains_page : PageBlock → ℕ → Bool
contains_page b pgnum = leb b.first_page pgnum && leb pgnum b.last_page

pub record IntersectPageBlocks : Type 0 where
  pub a_left : Option PageBlock
  pub b_left : Option PageBlock
  pub overlap : Option PageBlock
  pub a_right : Option PageBlock
  pub b_right : Option PageBlock

-- `if last >= first { Some(PageBlock::new(first, last)) } else { None }`
abbrev pub piece : ℕ → ℕ → Option (Option PageBlock)
unfolding new
piece first last = if leb first last then (new first last >>= λ b. some (some b)) else some none

-- The pages of `a` before those of `b`, and after them.
abbrev pub left_of : PageBlock → PageBlock → Option (Option PageBlock)
left_of a b =
    if ltb a.first_page b.first_page
    then piece a.first_page (min a.last_page (b.first_page - 1))
    else some none

abbrev pub right_of : PageBlock → PageBlock → Option (Option PageBlock)
right_of a b =
    if ltb b.last_page a.last_page
    then piece (max a.first_page (b.last_page + 1)) a.last_page
    else some none

-- The assertions of `intersect` on the parts of `a`; `none` is `unreachable!()` too.
abbrev pub check_parts :
    PageBlock → Option PageBlock → Option PageBlock → Option PageBlock → Option (Unit {0})
check_parts a (some l) none none = guard (count_pages a == count_pages l)
check_parts a (some l) (some o) none = guard (ltb l.last_page o.first_page)
check_parts a (some l) (some o) (some r) = do
  guard (count_pages a == count_pages l + count_pages o + count_pages r)
  guard (ltb l.last_page o.first_page)
  guard (ltb o.last_page r.first_page)
check_parts a (some l) none (some r) = none
check_parts a none (some o) (some r) = guard (ltb o.last_page r.first_page)
check_parts a none (some o) none = some tt
check_parts a none none (some r) = guard (count_pages a == count_pages r)
check_parts a none none none = none

unfoldable pub intersect : PageBlock → PageBlock → Option IntersectPageBlocks
unfolding new
intersect a b = do
  a_left ← left_of a b
  b_left ← left_of b a
  a_right ← right_of a b
  b_right ← right_of b a
  overlap ← piece (max a.first_page b.first_page) (min a.last_page b.last_page)
  check_parts a a_left overlap a_right
  some (record {
    a_left = a_left;
    b_left = b_left;
    overlap = overlap;
    a_right = a_right;
    b_right = b_right;
  })
