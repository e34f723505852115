-- ===== src/Lsm/Space/Free.antt =====
-- `add_free_blocks` takes back pages that are in use.
use elmo.Common.{ℕ, ◌≤◌, ◌≡◌, ◌∙◌, leb, arith, All, length}
use elmo.Common.{true, false, ◌&&◌, not, [], ◌∷◌, ◌++◌, Returns}
use elmo.Common.{Bool-cases, inl, inr, Returns-imp}
use elmo.Lsm.PageBlock.{PageBlock}
use elmo.Lsm.PageBlock
use elmo.Lsm.BlockList.{BlockList, contains_page}
use elmo.Lsm.BlockList.Pages.{AllApart, AllValid, Apart, contains_page-append}
use elmo.Lsm.Space.{Space, add_free_blocks, organize_free_blocks}
use elmo.Lsm.Space.Used.{free_list, is_used, InFile, IsValid, InFile-AllValid}
use elmo.Lsm.Space.Organize.{organize_free_blocks_lem}
use elmo.Lsm.Space.Alloc.{add_recent-append}

All-append {ℓ} :
    (P : PageBlock → Type ℓ) (xs ys : BlockList) → All P xs → All P ys → All P (xs ++ ys)
All-append P [] ys hx hy = hy
All-append P (x ∷ xs) ys hx hy = (hx.0, All-append P xs ys hx.1 hy)

-- Two valid blocks that have no page in common.
disjoint-Apart :
    (b c : PageBlock)
    → b.first_page ≤ b.last_page
    → c.first_page ≤ c.last_page
    → ((q : ℕ) → PageBlock.contains_page b q ≡ true → PageBlock.contains_page c q ≡ false)
    → Apart b c
disjoint-Apart b c h k f = ground (arith, f b.first_page, f c.first_page)

disjoint-AllApart :
    (b : PageBlock) (bs : BlockList)
    → b.first_page ≤ b.last_page
    → AllValid bs
    → ((q : ℕ) → PageBlock.contains_page b q ≡ true → contains_page bs q ≡ false)
    → All (Apart b) bs
disjoint-AllApart b [] h k f = tt
disjoint-AllApart b (c ∷ bs) h k f = (
  disjoint-Apart b c h k.0 (λ q e. ground (arith, f q e)),
  disjoint-AllApart b bs h k.1 (λ q e. ground (arith, f q e)),
)

AllApart-append :
    (xs ys : BlockList)
    → AllValid xs
    → AllValid ys
    → AllApart xs
    → AllApart ys
    → ((q : ℕ) → contains_page xs q ≡ true → contains_page ys q ≡ false)
    → AllApart (xs ++ ys)
AllApart-append [] ys vx vy ax ay f = ay
AllApart-append (x ∷ xs) ys vx vy ax ay f = (
  All-append (Apart x) xs ys ax.0 (disjoint-AllApart x ys vx.0 vy (λ q e. f q (ground (arith, e)))),
  AllApart-append xs ys vx.1 vy ax.1 ay (λ q e. f q (ground (arith, e))),
)

-- Blocks of pages in use stand in the file.
used-InFile :
    (s : Space) (bs : BlockList)
    → AllValid bs
    → ((q : ℕ) → contains_page bs q ≡ true → (1 ≤ q) × (is_used s q ≡ true))
    → All (InFile s.next_page) bs
used-InFile s [] v f = tt
used-InFile s (b ∷ bs) v f =
    let first = f b.first_page (ground (arith, v.0)) in
    let last = f b.last_page (ground (arith, v.0)) in
    (ground (arith, first, last, v.0), used-InFile s bs v.1 (λ q e. f q (ground (arith, e))))

-- Freeing blocks of pages that are in use, none of them twice, fails no assertion: their pages,
-- and no other, go out of use, and the free list stays valid.
pub add_free_blocks_lem :
    (s : Space) (blocks : BlockList) (p : ℕ)
    → IsValid s
    → AllValid blocks
    → AllApart blocks
    → ((q : ℕ) → contains_page blocks q ≡ true → (1 ≤ q) × (is_used s q ≡ true))
    → Returns
        (add_free_blocks s blocks)
        λ s'. IsValid s' × (is_used s' p ≡ (is_used s p && not (contains_page blocks p)))
unfolding add_free_blocks
add_free_blocks_lem s blocks p v vb ab used =
    let s' = record s { recent_free = s.recent_free ++ (blocks ∷ []) } in
    let e = add_recent-append s.free_blocks s.recent_free blocks in
    let v' : IsValid s' = record {
      free = record {
        in_file = rw e (
            All-append (InFile s.next_page) (free_list s) blocks v.free.in_file
              (used-InFile s blocks vb used));
        apart = rw e (
            AllApart-append (free_list s) blocks
              (InFile-AllValid s.next_page (free_list s) v.free.in_file) vb v.free.apart ab
              (λ q h. not_both q h));
      };
      positive = v.positive;
      grows = v.grows;
    } in
    let now : is_used s' p ≡ (is_used s p && not (contains_page blocks p)) =
      rw (e, contains_page-append (free_list s) blocks p) (ground arith) in
    elim (Bool-cases (leb 8 (length s'.recent_free))) [
      | inl h ↦ rw h (
          Returns-imp _ _ (organize_free_blocks s') (organize_free_blocks_lem s' p v')
            (λ t k. (k.0, k.1 ∙ now)))
      | inr h ↦ rw h (v', now)
    ]
  where
    not_both : (q : ℕ) → contains_page (free_list s) q ≡ true → contains_page blocks q ≡ false
    not_both q h = elim (Bool-cases (contains_page blocks q)) [
      | inl k ↦ ground (arith, used q k)
      | inr k ↦ k
    ]
