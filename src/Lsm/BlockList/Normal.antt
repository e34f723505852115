-- ===== src/Lsm/BlockList/Normal.antt =====
-- `sort_and_consolidate` brings a block list to its normal form and keeps its pages.
use elmo.Common.{ℕ, ◌+◌, ◌≤◌, ◌<◌, ◌≡◌, refl, ltb, arith, All}
use elmo.Common.{false, ◌||◌, [], ◌∷◌, length, ◌∙◌}
use elmo.Common.Sort.{insert_by, sort_by}
use elmo.Lsm.PageBlock.{PageBlock}
use elmo.Lsm.PageBlock
use elmo.Lsm.PageBlock.Intersect.{IsValid}
use elmo.Lsm.BlockList.{BlockList, contains_page, count_pages, by_first_page}
use elmo.Lsm.BlockList.{consolidate, consolidate_all, sort_and_consolidate}
use elmo.Lsm.BlockList.Pages.{AllValid, Apart, AllApart}

-- The blocks are valid, stand in the order of the file from page `lo` on, and do not overlap.
abbrev pub IsAscending : ℕ → BlockList → Type 0
IsAscending lo [] = Unit
IsAscending lo (b ∷ bs) =
    (lo ≤ b.first_page) × (b.first_page ≤ b.last_page) × IsAscending (b.last_page + 1) bs

-- The same with a free page at least between a block and the next: none can be joined.
abbrev pub IsNormal : ℕ → BlockList → Type 0
IsNormal lo [] = Unit
IsNormal lo (b ∷ bs) =
    (lo ≤ b.first_page) × (b.first_page ≤ b.last_page) × IsNormal (b.last_page + 2) bs

pub IsAscending-le :
    (bs : BlockList) (lo lo' : ℕ) → lo' ≤ lo → IsAscending lo bs → IsAscending lo' bs
IsAscending-le [] lo lo' h a = tt
IsAscending-le (b ∷ bs) lo lo' h a = ground arith

pub IsNormal-IsAscending : (bs : BlockList) (lo : ℕ) → IsNormal lo bs → IsAscending lo bs
IsNormal-IsAscending [] lo n = tt
IsNormal-IsAscending (b ∷ bs) lo n = (
  n.0,
  n.1,
  IsAscending-le bs (b.last_page + 2) (b.last_page + 1) (omega arith)
      (IsNormal-IsAscending bs (b.last_page + 2) n.2),
)

-- No page below `lo`.
pub IsAscending-below :
    (bs : BlockList) (lo p : ℕ) → IsAscending lo bs → p < lo → contains_page bs p ≡ false
IsAscending-below [] lo p a h = refl
IsAscending-below (b ∷ bs) lo p a h = ground (arith, IsAscending-below bs (b.last_page + 1) p a.2)

module _ (x : PageBlock) where
  insert-contains :
      (bs : BlockList) (p : ℕ)
      → contains_page (insert_by by_first_page x bs) p
        ≡ (PageBlock.contains_page x p || contains_page bs p)
  unfolding insert_by
  insert-contains [] p = refl
  insert-contains (b ∷ bs) p = ground (arith, insert-contains bs p)

  insert-count :
      (bs : BlockList)
      → count_pages (insert_by by_first_page x bs) ≡ PageBlock.count_pages x + count_pages bs
  unfolding insert_by
  insert-count [] = refl
  insert-count (b ∷ bs) = ground (arith, insert-count bs)

  insert-All {ℓ} :
      (P : PageBlock → Type ℓ) (bs : BlockList)
      → P x
      → All P bs
      → All P (insert_by by_first_page x bs)
  unfolding insert_by
  insert-All P [] h hs = (h, tt)
  insert-All P (b ∷ bs) h hs = ground (arith, insert-All P bs h hs.1)

  insert-IsAscending :
      (bs : BlockList) (lo : ℕ)
      → lo ≤ x.first_page
      → IsValid x
      → All (Apart x) bs
      → IsAscending lo bs
      → IsAscending lo (insert_by by_first_page x bs)
  unfolding insert_by
  insert-IsAscending [] lo h v d a = (h, v, tt)
  insert-IsAscending (b ∷ bs) lo h v d a =
      ground (arith, insert-IsAscending bs (b.last_page + 1), IsAscending-le bs (b.last_page + 1))

pub sort-contains :
    (bs : BlockList) (p : ℕ) → contains_page (sort_by by_first_page bs) p ≡ contains_page bs p
unfolding sort_by
sort-contains [] p = refl
sort-contains (b ∷ bs) p =
    ground (arith, insert-contains b (sort_by by_first_page bs) p, sort-contains bs p)

pub sort-count : (bs : BlockList) → count_pages (sort_by by_first_page bs) ≡ count_pages bs
unfolding sort_by
sort-count [] = refl
sort-count (b ∷ bs) = ground (arith, insert-count b (sort_by by_first_page bs), sort-count bs)

pub sort-All {ℓ} :
    (P : PageBlock → Type ℓ) (bs : BlockList) → All P bs → All P (sort_by by_first_page bs)
unfolding sort_by
sort-All P [] h = tt
sort-All P (b ∷ bs) h = insert-All b P (sort_by by_first_page bs) h.0 (sort-All P bs h.1)

pub sort-IsAscending :
    (bs : BlockList) → AllValid bs → AllApart bs → IsAscending 0 (sort_by by_first_page bs)
unfolding sort_by
sort-IsAscending [] v d = tt
sort-IsAscending (b ∷ bs) v d =
    insert-IsAscending b (sort_by by_first_page bs) 0 (omega arith) v.0 (sort-All (Apart b) bs d.0)
      (sort-IsAscending bs v.1 d.1)

consolidate-contains :
    (b : PageBlock) (bs : BlockList) (p : ℕ)
    → IsAscending b.first_page (b ∷ bs)
    → contains_page (consolidate b bs) p ≡ contains_page (b ∷ bs) p
unfolding consolidate
consolidate-contains b [] p a = refl
consolidate-contains b (c ∷ bs) p a = ground (
  arith,
  consolidate-contains (record b { last_page = c.last_page }) bs p,
  consolidate-contains c bs p,
)

consolidate-count :
    (b : PageBlock) (bs : BlockList)
    → IsAscending b.first_page (b ∷ bs)
    → count_pages (consolidate b bs) ≡ count_pages (b ∷ bs)
unfolding consolidate
consolidate-count b [] a = refl
consolidate-count b (c ∷ bs) a =
    ground
      (arith, consolidate-count (record b { last_page = c.last_page }) bs, consolidate-count c bs)

consolidate-IsNormal :
    (b : PageBlock) (bs : BlockList) (lo : ℕ)
    → lo ≤ b.first_page
    → IsAscending b.first_page (b ∷ bs)
    → IsNormal lo (consolidate b bs)
unfolding consolidate
consolidate-IsNormal b [] lo h a = (h, a.1, tt)
consolidate-IsNormal b (c ∷ bs) lo h a = ground (
  arith,
  consolidate-IsNormal (record b { last_page = c.last_page }) bs lo,
  consolidate-IsNormal c bs (b.last_page + 2),
)

consolidate_all_lem :
    (bs : BlockList) (p : ℕ)
    → IsAscending 0 bs
    → (contains_page (consolidate_all bs) p ≡ contains_page bs p)
      × (count_pages (consolidate_all bs) ≡ count_pages bs)
      × IsNormal 0 (consolidate_all bs)
consolidate_all_lem [] p a = (refl, refl, tt)
consolidate_all_lem (b ∷ bs) p a =
    let a' : IsAscending b.first_page (b ∷ bs) = (omega arith, a.1, a.2) in
    (
      consolidate-contains b bs p a',
      consolidate-count b bs a',
      consolidate-IsNormal b bs 0 (omega arith) a',
    )

-- On valid blocks that do not overlap `sort_and_consolidate` keeps the pages and their number, and
-- returns them in the order of the file, with no block that could be joined to the next.
pub sort_and_consolidate_lem :
    (bs : BlockList) (p : ℕ)
    → AllValid bs
    → AllApart bs
    → (contains_page (sort_and_consolidate bs) p ≡ contains_page bs p)
      × (count_pages (sort_and_consolidate bs) ≡ count_pages bs)
      × IsNormal 0 (sort_and_consolidate bs)
unfolding sort_and_consolidate
sort_and_consolidate_lem [] p v d = (refl, refl, tt)
sort_and_consolidate_lem (b ∷ []) p v d = (refl, refl, (omega arith, v.0, tt))
sort_and_consolidate_lem (b ∷ c ∷ bs) p v d =
    let l = sort_by by_first_page (b ∷ c ∷ bs) in
    let long : ltb (length (b ∷ c ∷ bs)) 2 ≡ false = ground arith in
    let (pages, count, normal) = consolidate_all_lem l p (sort-IsAscending (b ∷ c ∷ bs) v d) in
    rw long (pages ∙ sort-contains (b ∷ c ∷ bs) p, count ∙ sort-count (b ∷ c ∷ bs), normal)
