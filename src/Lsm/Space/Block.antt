-- ===== src/Lsm/Space/Block.antt =====
-- What `get_block` gives for each kind of request.
use elmo.Common.{ℕ, ◌≡◌, refl, ◌∙◌, arith}
use elmo.Common.{◌&&◌, not, some, Returns, Returns->>=}
use elmo.Common.{Bool-cases, inl, inr, Returns-both, Returns-imp}
use mathlib.Core.Path.{subst}
use elmo.Lsm.PageBlock.{PageBlock}
use elmo.Lsm.BlockList
use elmo.Lsm.BlockList.{BlockList, remove_block}
use elmo.Lsm.Space.{Space, get_block, refill, from_where, take_from}
use elmo.Lsm.Space.{is_none_recent, check_after}
use elmo.Lsm.Space.Request.{
  BlockRequest, any, exact_size, minimum_size, early_exact_size, start_or_any,
  start_or_after_minimum_size, get_after,
}
use elmo.Lsm.Space.Used.{is_used, IsValid}
use elmo.Lsm.Space.Organize.{organize_free_blocks_lem, KeepsUse}
use elmo.Lsm.Space.Alloc.{Allocates, Gives, Gets, take_from_lem}
use elmo.Lsm.Space.Answers.{IsAllowed, Answers}
use elmo.Lsm.Space.Decision.{from_where_lem}

refill_lem : (s : Space) (p : ℕ) → IsValid s → Returns (refill s) (KeepsUse s p)
unfolding refill
refill_lem s p v =
    elim (Bool-cases (BlockList.is_empty s.free_blocks && not (is_none_recent s.recent_free))) [
      | inl e ↦ rw e (organize_free_blocks_lem s p v)
      | inr e ↦ rw e (v, refl, refl)
    ]

-- The page that the request names, or page 0.
abbrev after_page : BlockRequest → ℕ
after_page any = 0
after_page (exact_size n) = 0
after_page (minimum_size n) = 0
after_page (early_exact_size n) = 0
after_page (start_or_any v) = 0
after_page (start_or_after_minimum_size v after n) = after

IsAllowed-next :
    (s s' : Space) (req : BlockRequest)
    → is_used s' (after_page req) ≡ is_used s (after_page req)
    → IsAllowed s req
    → IsAllowed s' req
IsAllowed-next s s' any e a = tt
IsAllowed-next s s' (exact_size n) e a = a
IsAllowed-next s s' (minimum_size n) e a = a
IsAllowed-next s s' (early_exact_size n) e a = a
IsAllowed-next s s' (start_or_any v) e a = tt
IsAllowed-next s s' (start_or_after_minimum_size v after n) e a = (e ∙ a.0, a.1)

check_after_lem :
    (s : Space) (req : BlockRequest)
    → IsAllowed s req
    → check_after (get_after req) s.next_page ≡ some tt
check_after_lem s any a = refl
check_after_lem s (exact_size n) a = refl
check_after_lem s (minimum_size n) a = refl
check_after_lem s (early_exact_size n) a = refl
check_after_lem s (start_or_any v) a = refl
check_after_lem s (start_or_after_minimum_size v after n) a = ground (arith, a.0)

Allocates-since :
    (s s' : Space) (p : ℕ) (r : PageBlock × Space)
    → is_used s' p ≡ is_used s p
    → Allocates s' p r
    → Allocates s p r
Allocates-since s s' p r e t = record {
  valid = t.valid;
  block = t.block;
  fresh = rw (← e) t.fresh;
  marked = rw (← e) t.marked;
}

-- For a valid free list and an allowed request, `get_block` fails no assertion, and page by page:
-- the pages of its block were not in use before and are afterwards, every other page is in use
-- as before, the new free list is valid, and the block answers the request: `Any` with any block,
-- `EarlyExactSize` with exactly that many pages, `ExactSize` and `MinimumSize` with exactly or at
-- least that many, unless the first block of the free list that is left is smaller, where the block
-- is put at the end of the file and has `pages_per_block` pages if no free blocks are left and the
-- greater of that and the size if some are. `StartOrAny` is answered with a block that starts at one
-- of the pages, unless no free block that is left does. So is `StartOrAfterMinimumSize`, there with
-- a block of at least the size, unless the search behind `after` finds none in the free list that
-- is left, where it is put at the end as above, and each of these blocks starts behind `after`.
pub get_block_lem :
    (s : Space) (req : BlockRequest) (p : ℕ)
    → IsValid s
    → IsAllowed s req
    → Returns (get_block s req) λ r. Allocates s p r × Answers s.pages_per_block req r
unfolding get_block
get_block_lem s req p v a =
    let keeps =
      Returns-both (KeepsUse s p) (KeepsUse s (after_page req)) (refill s) (refill_lem s p v)
        (refill_lem s (after_page req) v) in
    rw (check_after_lem s req a) (
      Returns->>= (λ s'. KeepsUse s p s' × KeepsUse s (after_page req) s') _ (refill s) _ keeps
        λ s' k.
          Returns->>= (Gives (Answers s'.pages_per_block req) s') _ (from_where s' req) _
            (from_where_lem s' req k.0.0 (IsAllowed-next s s' req k.1.1 a))
            λ f g.
              Returns-imp (Gets (Answers s'.pages_per_block req) s' p) _ (take_from s' f)
                (take_from_lem (Answers s'.pages_per_block req) s' p k.0.0 f g)
                λ r t. (Allocates-since s s' p r k.0.1 t.0, subst (λ n. Answers n req r) k.0.2 t.1))
