-- ===== src/Lsm/Space/Answers.antt =====
-- What answers a request to `get_block`, and the decisions that lead to it.
use elmo.Common.{
  ℕ, ◌+◌, ◌-◌, ◌≤◌, ◌<◌, ◌≡◌, refl, arith, max, if◌then◌else◌, false, List, Option-cases,
}
use elmo.Common.{true, false, [], Option, some, none}
use elmo.Common.{inl, inr, ◌⊎◌, Returns-imp}
use elmo.Lsm.PageBlock.{PageBlock}
use elmo.Lsm.PageBlock
use elmo.Lsm.BlockList
use elmo.Lsm.BlockList.{BlockList, remove_block}
use elmo.Lsm.Space.{Space, from_end, end_at_least, specific_or, exact_or, FromWhere}
use elmo.Lsm.Space.Request.{
  BlockRequest, any, exact_size, minimum_size, early_exact_size, start_or_any,
  start_or_after_minimum_size, any_is, all_after,
}
use elmo.Lsm.Space.Find.{find_block_after_minimum_size}
use elmo.Lsm.Space.Find.Picks.{Picks, BigEnough, starts_in}
use elmo.Lsm.Space.Find.Picks.{IsSmaller, find_block_after_minimum_size-nil}
use elmo.Lsm.Space.Used.{is_used, IsValid}
use elmo.Lsm.Space.Alloc.{Gives}

-- A request that `get_block` is meant for: no size is 0, and where a page is named that the block
-- must stand behind, it is in use and before all starts.
abbrev pub IsAllowed : Space → BlockRequest → Type 0
IsAllowed s any = Unit
IsAllowed s (exact_size n) = 1 ≤ n
IsAllowed s (minimum_size n) = 1 ≤ n
IsAllowed s (early_exact_size n) = 1 ≤ n
IsAllowed s (start_or_any v) = Unit
IsAllowed s (start_or_after_minimum_size v after n) =
    (is_used s after ≡ true) × (all_after v after ≡ true)

-- The block has been put at the end of the file. It has `most` pages where no blocks are free, and
-- the greater of `most` and `n` where some are.
abbrev pub IsGrown : ℕ → ℕ → PageBlock × Space → Type 0
IsGrown most n (b, s) =
    (b.last_page + 1 ≡ s.next_page)
    × (PageBlock.count_pages b ≡ (if BlockList.is_empty s.free_blocks then most else max n most))

-- What answers a request, a block and the state after it, where a file grows by `most` pages.
abbrev pub Answers : ℕ → BlockRequest → PageBlock × Space → Type 0
Answers most any r = Unit
Answers most (exact_size n) r =
    (PageBlock.count_pages r.0 ≡ n) ⊎ (IsSmaller n r.1.free_blocks × IsGrown most n r)
Answers most (minimum_size n) r =
    (n ≤ PageBlock.count_pages r.0) ⊎ (IsSmaller n r.1.free_blocks × IsGrown most n r)
Answers most (early_exact_size n) r = PageBlock.count_pages r.0 ≡ n
Answers most (start_or_any v) r =
    (any_is v r.0.first_page ≡ true) ⊎ (starts_in v r.1.free_blocks ≡ false)
Answers most (start_or_after_minimum_size v after n) r =
    (after < r.0.first_page)
    × ((any_is v r.0.first_page ≡ true)
        ⊎ ((starts_in v r.1.free_blocks ≡ false)
            × ((n ≤ PageBlock.count_pages r.0)
                ⊎ ((find_block_after_minimum_size r.1.free_blocks after n ≡ none)
                    × IsGrown most n r))))

-- A block that a search has found, or the decision where it finds none.
pub specific_or-Gives :
    (Q : PageBlock × Space → Type 0) (P : PageBlock → Type 0) (s : Space) (o : Option ℕ)
    (other : FromWhere)
    → Picks P s.free_blocks o
    → ((i : ℕ) (r : PageBlock × BlockList)
        → remove_block s.free_blocks i ≡ some r
        → P r.0
        → Q (r.0, record s { free_blocks = r.1 }))
    → (o ≡ none → Gives Q s other)
    → Gives Q s (specific_or o other)
specific_or-Gives Q P s none other h k g = g refl
specific_or-Gives Q P s (some i) other h k g = elim (Option-cases (remove_block s.free_blocks i)) [
  | inl e ↦ absurd (rw e at h)
  | inr (r, e) ↦ rw e (k i r e (rw e at h))
]

pub exact_or-Gives :
    (Q : PageBlock × Space → Type 0) (s : Space) (o : Option ℕ) (n : ℕ) (other : FromWhere)
    → 1 ≤ n
    → Picks (BigEnough n) s.free_blocks o
    → ((r : PageBlock × Space) → PageBlock.count_pages r.0 ≡ n → Q r)
    → (o ≡ none → Gives Q s other)
    → Gives Q s (exact_or o n other)
exact_or-Gives Q s none n other pos h k g = g refl
exact_or-Gives Q s (some i) n other pos h k g = (
  pos,
  Returns-imp (λ r. BigEnough n r.0)
      (λ r.
        (n ≤ PageBlock.count_pages r.0)
        × ((freed : List BlockList)
            → Q (
              record r.0 { last_page = r.0.first_page + n - 1 },
              record s { free_blocks = r.1; recent_free = freed },
            )))
      (remove_block s.free_blocks i) h
      (λ r e. (
        e,
        λ freed.
            k
              (
                record r.0 { last_page = r.0.first_page + n - 1 },
                record s { free_blocks = r.1; recent_free = freed },
              )
              (omega arith),
      )),
)

-- Taking pages from the end of the file where no blocks are free.
pub end-Gives :
    (s : Space) (req : BlockRequest)
    → IsValid s
    → IsAllowed s req
    → s.free_blocks ≡ []
    → Gives (Answers s.pages_per_block req) s (from_end s req)
end-Gives s any v a e = (v.grows, tt)
end-Gives s (exact_size n) v a e =
    let g = v.grows in (g, inr (rw e tt, (omega arith, rw e (omega arith))))
end-Gives s (minimum_size n) v a e =
    let g = v.grows in (g, inr (rw e tt, (omega arith, rw e (omega arith))))
end-Gives s (early_exact_size n) v a e = (a, omega arith)
end-Gives s (start_or_any st) v a e = (v.grows, inr (rw e refl))
end-Gives s (start_or_after_minimum_size st after n) v a e =
    let g = v.grows in
    let none_after = find_block_after_minimum_size-nil after n in
    (
      g,
      (
        ground (arith, a.0),
        inr (rw e refl, inr (rw e none_after, (omega arith, rw e (omega arith)))),
      ),
    )

pub end_at_least-Gives :
    (s : Space) (n : ℕ) (Q : PageBlock × Space → Type 0)
    → IsValid s
    → BlockList.is_empty s.free_blocks ≡ false
    → ((r : PageBlock × Space)
        → r.0.first_page ≡ s.next_page
        → r.1.free_blocks ≡ s.free_blocks
        → IsGrown s.pages_per_block n r
        → Q r)
    → Gives Q s (end_at_least s n)
end_at_least-Gives s n Q v e k =
    let g = v.grows in
    let size = max n s.pages_per_block in
    let block : PageBlock = record {
      first_page = s.next_page;
      last_page = s.next_page + size - 1;
    } in
    (
      ground arith,
      k (block, record s { next_page = s.next_page + size }) refl refl
          (ground arith, rw e (ground arith)),
    )
