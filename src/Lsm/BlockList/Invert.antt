-- ===== src/Lsm/BlockList/Invert.antt =====
-- `invert` turns the blocks in use into the free space between them.
use elmo.Common.{ℕ, ◌+◌, ◌-◌, ◌≤◌, ◌≡◌, refl, leb, ltb, arith}
use elmo.Common.{true, ◌&&◌, not, [], ◌∷◌, some, Returns, Returns->>=}
use elmo.Common.Sort.{insert_by, sort_by}
use elmo.Lsm.PageBlock.{PageBlock}
use elmo.Lsm.BlockList.{
  BlockList, contains_page, by_first_page, gaps, invert, last_page, first_page,
}
use elmo.Lsm.BlockList.Normal.{
  IsAscending, IsNormal, IsNormal-IsAscending, IsAscending-below, IsAscending-le,
}

insert-first :
    (b : PageBlock) (bs : BlockList)
    → IsAscending b.first_page bs
    → insert_by by_first_page b bs ≡ b ∷ bs
unfolding insert_by
insert-first b [] a = refl
insert-first b (c ∷ bs) a = ground arith

-- Sorting leaves blocks in order as they are.
sort_ascending : (bs : BlockList) (lo : ℕ) → IsAscending lo bs → sort_by by_first_page bs ≡ bs
unfolding sort_by
sort_ascending [] lo a = refl
sort_ascending (b ∷ bs) lo a =
    rw (sort_ascending bs (b.last_page + 1) a.2)
      (insert-first b bs (IsAscending-le bs (b.last_page + 1) b.first_page (omega arith) a.2))

-- The last page of a list that starts with `b`.
abbrev end_of : PageBlock → BlockList → ℕ
end_of b [] = b.last_page
end_of b (c ∷ bs) = end_of c bs

last_page-eq : (b : PageBlock) (bs : BlockList) → last_page (b ∷ bs) ≡ some (end_of b bs)
unfolding last_page
last_page-eq b [] = refl
last_page-eq b (c ∷ bs) = last_page-eq c bs

end_of-le :
    (b : PageBlock) (bs : BlockList) (lo : ℕ) → IsNormal lo (b ∷ bs) → b.last_page ≤ end_of b bs
end_of-le b [] lo n = omega arith
end_of-le b (c ∷ bs) lo n = omega (arith, end_of-le c bs (b.last_page + 2) n.2)

-- What `gaps` promises of the page `p`.
abbrev IsGap : PageBlock → BlockList → ℕ → BlockList → Type 0
IsGap b bs p g =
    contains_page g p
    ≡ (leb b.first_page p && leb p (end_of b bs) && not (contains_page (b ∷ bs) p))

gaps_lem :
    (b : PageBlock) (bs : BlockList) (lo p : ℕ)
    → IsNormal lo (b ∷ bs)
    → Returns (gaps (b ∷ bs)) (IsGap b bs p)
unfolding gaps
gaps_lem b [] lo p n = ground arith
gaps_lem b (c ∷ bs) lo p n =
    let positive : ltb 0 c.first_page ≡ true = ground arith in
    let room : leb (b.last_page + 1) (c.first_page - 1) ≡ true = ground arith in
    rw (positive, room)
      (Returns->>= (IsGap c bs p) (IsGap b (c ∷ bs) p) (gaps (c ∷ bs)) _
        (gaps_lem c bs (b.last_page + 2) p n.2)
        (λ g e. rw e (
          ground (
            arith,
            end_of-le c bs (b.last_page + 2) n.2,
            IsAscending-below bs (c.last_page + 1) p (IsNormal-IsAscending (c ∷ bs) _ n.2).2,
          ))))

-- On blocks in normal form, at least one, `invert` fails no assertion, and what it leaves are
-- exactly the pages between the first and the last page of the list that are in none of its blocks.
pub invert_lem :
    (bs : BlockList) (lo first last p : ℕ)
    → IsNormal lo bs
    → first_page bs ≡ some first
    → last_page bs ≡ some last
    → Returns
        (invert bs)
        λ g. contains_page g p ≡ (leb first p && leb p last && not (contains_page bs p))
unfolding invert first_page
invert_lem [] lo first last p n ef el = cc
invert_lem (b ∷ bs) lo first last p n ef el =
    let e1 : b.first_page ≡ first = ground arith in
    let e2 : end_of b bs ≡ last = ground (arith, last_page-eq b bs) in
    rw (sort_ascending (b ∷ bs) lo (IsNormal-IsAscending (b ∷ bs) lo n), ← e1, ← e2)
      (gaps_lem b bs lo p n)
