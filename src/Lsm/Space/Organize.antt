-- ===== src/Lsm/Space/Organize.antt =====
-- Organising the free list changes no page's use.
use elmo.Common.{
  ℕ, ◌+◌, ◌-◌, ◌*◌, ◌/◌, ◌≤◌, ◌<◌, ◌≡◌, refl, sym, ◌∙◌, leb, ltb, ◌==◌, arith, All, length,
  Bool-cases, inl, inr, if◌then◌else◌, ==_iff, Returns-imp,
}
use mathlib.Core.Path.{subst}
use elmo.Common.{
  Bool, true, false, ◌&&◌, ◌||◌, not, List, [], ◌∷◌, ◌++◌, Option, some, none, Returns, Returns->>=,
}
use elmo.Lsm.PageBlock.{PageBlock}
use elmo.Lsm.BlockList
use elmo.Lsm.BlockList.{BlockList, contains_page, last_page, remove_block, sort_and_consolidate}
use elmo.Lsm.BlockList.{sort_by_size_desc_page_asc, by_size_desc_page_asc}
use elmo.Lsm.BlockList.Pages.{AllApart, contains_page-append, Apart}
use elmo.Lsm.BlockList.Same.{SameBlocks, SameBlocks-append, sort-SameBlocks, SameBlocks-contains}
use elmo.Lsm.BlockList.Normal.{
  IsNormal, IsAscending, IsNormal-IsAscending, sort_and_consolidate_lem,
}
use elmo.Lsm.BlockList.Remove.{IsAscending-AllApart}
use elmo.Lsm.Space.{
  Space, drop_free_at_end, add_recent, truncate_file_if_possible, step1_sort_and_consolidate,
  step2_sort_for_usage,
}
use elmo.Lsm.Space.{organize_free_blocks}
use elmo.Lsm.Space.Used.{free_list, is_used, InFile, IsFree, IsValid, IsFree-SameBlocks}
use elmo.Lsm.Space.Used.{InFile-AllValid, InFile-contains}

-- In a normal list of pages that `sort_and_consolidate` got from a file's free list, all blocks
-- are of that file.
IsNormal-InFile :
    (n : ℕ) (bs : BlockList) (lo : ℕ)
    → IsNormal lo bs
    → ((p : ℕ) → contains_page bs p ≡ true → (1 ≤ p) × (p < n))
    → All (InFile n) bs
IsNormal-InFile n [] lo h f = tt
IsNormal-InFile n (b ∷ bs) lo h f =
    let first = f b.first_page (ground arith) in
    let last = f b.last_page (ground arith) in
    ((first.0, h.1, last.1), IsNormal-InFile n bs (b.last_page + 2) h.2 (λ p e. f p (ground arith)))

-- The state that `step1_sort_and_consolidate` has before it looks at the end of the file.
consolidate-IsFree : (n : ℕ) (bs : BlockList) → IsFree n bs → IsFree n (sort_and_consolidate bs)
consolidate-IsFree n bs f = record {
  in_file =
      IsNormal-InFile n (sort_and_consolidate bs) 0 (lem 0).2
        (λ p e. InFile-contains n bs p f.in_file (sym (lem p).0 ∙ e));
  apart =
      IsAscending-AllApart (sort_and_consolidate bs) 0
        (IsNormal-IsAscending (sort_and_consolidate bs) 0 (lem 0).2);
}
  where
    lem :
        (p : ℕ)
        → (contains_page (sort_and_consolidate bs) p ≡ contains_page bs p)
          × (BlockList.count_pages (sort_and_consolidate bs) ≡ BlockList.count_pages bs)
          × IsNormal 0 (sort_and_consolidate bs)
    lem p = sort_and_consolidate_lem bs p (InFile-AllValid n bs f.in_file) f.apart

-- The last block of a list that is not empty, and those before it.
record Last (b : PageBlock) (bs : BlockList) : Type 0 where
  blk : PageBlock
  rest : BlockList
  last : last_page (b ∷ bs) ≡ some blk.last_page
  removed : remove_block (b ∷ bs) (length bs) ≡ some (blk, rest)
  split : b ∷ bs ≡ rest ++ (blk ∷ [])

Last-of : (b : PageBlock) (bs : BlockList) → Last b bs
unfolding last_page remove_block
Last-of b [] = record { blk = b; rest = []; last = refl; removed = refl; split = refl }
Last-of b (c ∷ bs) =
    let l = Last-of c bs in
    record {
      blk = l.blk;
      rest = b ∷ l.rest;
      last = l.last;
      removed = rw l.removed;
      split = rw (← l.split);
    }

All-front {ℓ} : (P : PageBlock → Type ℓ) (xs ys : BlockList) → All P (xs ++ ys) → All P xs
All-front P [] ys h = tt
All-front P (x ∷ xs) ys h = (h.0, All-front P xs ys h.1)

All-back {ℓ} : (P : PageBlock → Type ℓ) (xs ys : BlockList) → All P (xs ++ ys) → All P ys
All-back P [] ys h = h
All-back P (x ∷ xs) ys h = All-back P xs ys h.1

AllApart-front : (xs ys : BlockList) → AllApart (xs ++ ys) → AllApart xs
AllApart-front [] ys h = tt
AllApart-front (x ∷ xs) ys h = (All-front (Apart x) xs ys h.0, AllApart-front xs ys h.1)

-- Blocks in order before a last one end before it.
IsAscending-last :
    (rest : BlockList) (b : PageBlock) (lo : ℕ)
    → IsAscending lo (rest ++ (b ∷ []))
    → (lo ≤ b.first_page) × All (λ c. c.last_page < b.first_page) rest
IsAscending-last [] b lo a = (a.0, tt)
IsAscending-last (c ∷ rest) b lo a =
    let t = IsAscending-last rest b (c.last_page + 1) a.2 in (omega arith, (omega arith, t.1))

InFile-before :
    (n m : ℕ) (bs : BlockList)
    → All (InFile n) bs
    → All (λ c. c.last_page < m) bs
    → All (InFile m) bs
InFile-before n m [] h k = tt
InFile-before n m (b ∷ bs) h k = ((h.0.0, h.0.1, k.0), InFile-before n m bs h.1 k.1)

abbrev with_blocks : Space → BlockList → Space
with_blocks s bs = record s { recent_free = []; free_blocks = bs }

-- The state `s'` is valid, and no page's use has changed.
abbrev pub KeepsUse : Space → ℕ → Space → Type 0
KeepsUse s p s' =
    IsValid s' × (is_used s' p ≡ is_used s p) × (s'.pages_per_block ≡ s.pages_per_block)

dropped_used :
    (n p : ℕ) (blk : PageBlock) (rest : BlockList)
    → 1 ≤ n
    → InFile n blk
    → blk.last_page ≡ n - 1
    → (ltb p blk.first_page && not (contains_page rest p))
      ≡ (ltb p n && not (contains_page rest p || contains_page (blk ∷ []) p))
dropped_used n p blk rest pos h e = ground arith

dropped_lem :
    (s : Space) (rest : BlockList) (blk : PageBlock) (p : ℕ)
    → IsValid (with_blocks s (rest ++ (blk ∷ [])))
    → IsAscending 0 (rest ++ (blk ∷ []))
    → blk.last_page ≡ s.next_page - 1
    → KeepsUse
        (with_blocks s (rest ++ (blk ∷ [])))
        p
        (record s { recent_free = []; free_blocks = rest; next_page = blk.first_page })
dropped_lem s rest blk p v a e =
    let blk_in_file = (All-back (InFile s.next_page) rest (blk ∷ []) v.free.in_file).0 in
    (
      record {
        free = record {
          in_file =
              InFile-before s.next_page blk.first_page rest
                (All-front (InFile s.next_page) rest (blk ∷ []) v.free.in_file)
                (IsAscending-last rest blk 0 a).1;
          apart = AllApart-front rest (blk ∷ []) v.free.apart;
        };
        positive = blk_in_file.0;
        grows = v.grows;
      },
      rw (contains_page-append rest (blk ∷ []) p)
          (dropped_used s.next_page p blk rest v.positive blk_in_file e),
      refl,
    )

drop_free_at_end_lem :
    (s : Space) (bs : BlockList) (p : ℕ)
    → IsValid (with_blocks s bs)
    → IsAscending 0 bs
    → Returns (drop_free_at_end (with_blocks s bs)) (KeepsUse (with_blocks s bs) p)
drop_free_at_end_lem s [] p v a = (v, refl, refl)
drop_free_at_end_lem s (b ∷ bs) p v a =
    let l = Last-of b bs in
    let some_block : ltb 0 (length (b ∷ bs)) ≡ true = ground arith in
    let index : length (b ∷ bs) - 1 ≡ length bs = omega arith in
    rw (some_block, l.last)
      (elim (Bool-cases (l.blk.last_page == s.next_page - 1)) [
        | inr e ↦ rw e (v, refl, refl)
        | inl e ↦
            rw (e, index, l.removed)
              (subst
                (λ z. KeepsUse (with_blocks s z) p (record s {
                  recent_free = [];
                  free_blocks = l.rest;
                  next_page = l.blk.first_page;
                }))
                (sym l.split)
                (dropped_lem s l.rest l.blk p (subst (λ z. IsValid (with_blocks s z)) l.split v)
                  (subst (λ z. IsAscending 0 z) l.split a) ((==_iff _ _).0 e)))
      ])

-- `organize_free_blocks` and its first step fail no assertion, and change the use of no page.
step1_lem : (s : Space) (p : ℕ) → IsValid s → Returns (step1_sort_and_consolidate s) (KeepsUse s p)
unfolding step1_sort_and_consolidate
step1_lem s p v =
    let bs = sort_and_consolidate (free_list s) in
    let f = v.free in
    let same =
      sort_and_consolidate_lem (free_list s) p (InFile-AllValid s.next_page (free_list s) f.in_file)
        f.apart in
    let v' : IsValid (with_blocks s bs) = record {
      free = consolidate-IsFree s.next_page (free_list s) f;
      positive = v.positive;
      grows = v.grows;
    } in
    Returns-imp (KeepsUse (with_blocks s bs) p) (KeepsUse s p) (drop_free_at_end (with_blocks s bs))
      (drop_free_at_end_lem s bs p v' (IsNormal-IsAscending bs 0 same.2))
      (λ s' k. (k.0, k.1 ∙ rw same.0, k.2))

add_recent-SameBlocks :
    {xs ys : BlockList} (ls : List BlockList)
    → SameBlocks xs ys
    → SameBlocks (add_recent xs ls) (add_recent ys ls)
add_recent-SameBlocks [] s = s
add_recent-SameBlocks (l ∷ ls) s = add_recent-SameBlocks ls (SameBlocks-append l s)

step2_lem : (s s' : Space) (p : ℕ) → KeepsUse s p s' → KeepsUse s p (step2_sort_for_usage s')
unfolding step2_sort_for_usage sort_by_size_desc_page_asc
step2_lem s s' p k =
    let same =
      add_recent-SameBlocks s'.recent_free (sort-SameBlocks by_size_desc_page_asc s'.free_blocks) in
    (
      record { free = IsFree-SameBlocks same k.0.free; positive = k.0.positive; grows = k.0.grows },
      rw (SameBlocks-contains p same) k.1,
      k.2,
    )

-- On a valid free list `organize_free_blocks` fails no assertion. It keeps the list valid and
-- changes the use of no page, although it may move the end of the file.
pub organize_free_blocks_lem :
    (s : Space) (p : ℕ)
    → IsValid s
    → Returns
        (organize_free_blocks s)
        λ s'. IsValid s' × (is_used s' p ≡ is_used s p) × (s'.pages_per_block ≡ s.pages_per_block)
unfolding organize_free_blocks
organize_free_blocks_lem s p v =
    Returns->>= (KeepsUse s p) (KeepsUse s p) (step1_sort_and_consolidate s) _ (step1_lem s p v)
      (λ s' k. step2_lem s s' p k)

-- Whether page `p`, of `page_size` bytes, is still in the file after a cut to `n` bytes.
abbrev pub survives : ℕ → ℕ → Option ℕ → Bool
survives page_size p none = true
survives page_size p (some n) = leb (p * page_size) n

page-le : (p n page_size : ℕ) → p < n → p * page_size ≤ (n - 1) * page_size
page-le p n page_size h = grind arith

cut_survives :
    (s : Space) (p beyond : ℕ)
    → let cut = if ltb s.next_page beyond then some ((s.next_page - 1) * s.page_size) else none in
      (is_used s p && not (survives s.page_size p cut)) ≡ false
cut_survives s p beyond = ground (arith, page-le p s.next_page s.page_size)

-- `truncate_file_if_possible` fails no assertion on a valid free list, keeps it valid, changes the
-- use of no page, and cuts no page in use off the file.
pub truncate_file_if_possible_lem :
    (s : Space) (file_length p : ℕ)
    → IsValid s
    → Returns (truncate_file_if_possible s file_length) λ r.
      IsValid r.0
      × (is_used r.0 p ≡ is_used s p)
      × ((is_used s p && not (survives r.0.page_size p r.1)) ≡ false)
unfolding truncate_file_if_possible
truncate_file_if_possible_lem s file_length p v =
    Returns->>= (KeepsUse s p) _ (step1_sort_and_consolidate s) _ (step1_lem s p v) (λ s' k.
      let t = step2_lem s s' p k in
      (t.0, t.1, rw (← k.1) (cut_survives s' p (file_length / s'.page_size + 1))))
